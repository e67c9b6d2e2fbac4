-- ===== src/Translate/Checkpointing/Reload.antt =====
-- src/image.cc, `read_from_checkpoint`: what a checkpoint restores.
use lsvd_rbd.Base.{
  ℕ, ◌+◌, ◌-◌, ◌≡◌, refl, ◌∙◌, leb, ltb, ◌&&◌, ◌==◌, Bool-cases, inl, inr, or_else, or_else-none,
  some, List, [], ◌∷◌, map, arith,
}
use lsvd_rbd.Base.Assoc.{find, insert, find-insert, find-nil, KeysAbove, find-KeysAbove, find-cons}
use lsvd_rbd.Extent.{Extent, limit, at}
use lsvd_rbd.Extent.Order.{Above, IsSorted}
use lsvd_rbd.Extent.Map.{update}
use lsvd_rbd.Extent.Map.View.{at-Above}
use lsvd_rbd.Extent.Map.Update.{at-update, update-IsSorted}
use lsvd_rbd.Extent.Pointers.{ObjOffset, obj_target}
use lsvd_rbd.Translate.{ObjInfo, State}
use lsvd_rbd.Translate.Checkpointing.{checkpoint_of, load_objects, load_map, read_from_checkpoint}
use lsvd_rbd.Translate.Checkpointing.Fields.{
  AllFit, AllInfosFit, whole_entry, map-entry_of, map-obj_of,
}

-- The loop over entries that hold the numbers of extents.
put_back : List (Extent ObjOffset) → List (Extent ObjOffset) → List (Extent ObjOffset)
put_back [] m = m
put_back (e ∷ es) m = put_back es (update m e.base (e.base + (limit e - e.base)) e.ptr).0

load_map-map :
    (es m : List (Extent ObjOffset)) → load_map (map whole_entry es) m ≡ some (put_back es m)
unfolding load_map put_back
load_map-map [] m = refl
load_map-map (e ∷ es) m = load_map-map es (update m e.base (e.base + (limit e - e.base)) e.ptr).0

put_back-IsSorted :
    (es : List (Extent ObjOffset)) (lo : ℕ) (m : List (Extent ObjOffset))
    → Above lo es
    → IsSorted m
    → IsSorted (put_back es m)
unfolding put_back
put_back-IsSorted [] lo m v w = w
put_back-IsSorted (e ∷ es) lo m v w =
    put_back-IsSorted es (limit e) _ v.2
      (update-IsSorted m e.base (e.base + (limit e - e.base)) e.ptr w (omega arith))

at-put_back :
    (es : List (Extent ObjOffset)) (lo x : ℕ) (m : List (Extent ObjOffset))
    → Above lo es
    → IsSorted m
    → at (put_back es m) x ≡ or_else (at es x) (at m x)
unfolding put_back
at-put_back [] lo x m v w = refl
at-put_back (e ∷ es) lo x m v w =
    let l = e.base + (limit e - e.base) in
    let q : l ≡ limit e = omega arith in
    let m₁ = (update m e.base l e.ptr).0 in
    at-put_back es (limit e) x m₁ v.2 (update-IsSorted m e.base l e.ptr w (omega arith))
    ∙ (rw (at-update m e.base l e.ptr x w (omega arith), q)
        (elim (Bool-cases (leb e.base x && ltb x (limit e))) [
          | inl h ↦ rw (h, at-Above es (limit e) x v.2 (ground arith))
          | inr h ↦ rw h
        ]))

find-load_objects :
    (os : List (ℕ × ObjInfo)) (lo o : ℕ) (infos : List (ℕ × ObjInfo))
    → KeysAbove lo os
    → find o (load_objects os infos) ≡ or_else (find o os) (find o infos)
unfolding load_objects
find-load_objects [] lo o infos v = rw (find-nil {V = ObjInfo} o)
find-load_objects ((seq, info) ∷ os) lo o infos v =
    find-load_objects os (seq + 1) o (insert seq info infos) v.1
    ∙ (rw (find-insert o seq info infos, find-cons o seq info os)
        (elim (Bool-cases (seq == o)) [
          | inl h ↦ rw (h, find-KeysAbove o (seq + 1) os v.1 (ground arith))
          | inr h ↦ rw h
        ]))

-- What is read back into an empty image is what was written: each sector is mapped where it was, the
-- map is in order, and each object has its record.
pub record Restored (seq : ℕ) (s : State) : Type 0 where
  pub objmap : List (Extent ObjOffset)
  pub object_info : List (ℕ × ObjInfo)
  pub runs : read_from_checkpoint (checkpoint_of seq s) ([], []) ≡ some (objmap, object_info)
  pub sorted : IsSorted objmap
  pub maps : (x : ℕ) → at objmap x ≡ at s.objmap x
  pub infos : (o : ℕ) → find o object_info ≡ find o s.object_info

-- A checkpoint of a state with its extents and its objects in order, all of whose numbers fit the
-- fields of a checkpoint (those of extents below the sign), read back into an empty image, restores
-- the whole map and every object record.
pub checkpoint-Restored :
    (seq : ℕ) (s : State)
    → IsSorted s.objmap
    → KeysAbove 0 s.object_info
    → AllFit s.objmap
    → AllInfosFit s.object_info
    → Restored seq s
unfolding read_from_checkpoint checkpoint_of
checkpoint-Restored seq s v k fits infos_fit = record {
  objmap = put_back s.objmap [];
  object_info = load_objects s.object_info [];
  runs =
      rw (map-entry_of s.objmap fits, map-obj_of s.object_info infos_fit, load_map-map s.objmap [])
        refl;
  sorted = put_back-IsSorted s.objmap 0 [] v tt;
  maps = λ x. at-put_back s.objmap 0 x [] v tt ∙ or_else-none (at s.objmap x);
  infos = λ o.
      find-load_objects s.object_info 0 o [] k
      ∙ rw (find-nil {V = ObjInfo} o) (or_else-none (find o s.object_info));
}
