-- ===== src/Translate/Checkpointing.antt =====
-- src/translate.cc, `write_checkpoint`, and src/image.cc, `read_from_checkpoint`.
pub mod Fields
pub mod Reload
pub mod Crash
use Prim.Native.String.{String}
use lsvd_rbd.Base.{
  ◌>>=◌, ℕ, ◌+◌, ◌-◌, ◌%◌, ◌^◌, Option, none, some, ltb, if◌then◌else◌, List, [], ◌∷◌, ◌++◌, length,
  map,
}
use lsvd_rbd.Base.Int.{ℤ, pos, negsuc}
use lsvd_rbd.Base.Assoc.{insert}
use lsvd_rbd.Extent.{Extent, limit}
use lsvd_rbd.Extent.Map.{update}
use lsvd_rbd.Extent.Pointers.{ObjOffset, obj_target}
use lsvd_rbd.Translate.{
  ObjInfo, CkptMapentry, signed, Checkpoint, Event, State, put_checkpoint, put_superblock,
  delete_object,
}

-- One extent of the map as a `ckpt_mapentry`: each number is cut to its field, which is signed.
pub entry_of : Extent ObjOffset → CkptMapentry
unfolding signed
entry_of e = record {
  lba = signed 36 (e.base % 2 ^ 36);
  len = signed 28 ((limit e - e.base) % 2 ^ 28);
  obj = signed 32 (e.ptr.obj % 2 ^ 32);
  offset = signed 32 (e.ptr.offset % 2 ^ 32);
}

-- One object as a `ckpt_obj`, of numbers of 32 bits.
pub obj_of : ℕ × ObjInfo → ℕ × ObjInfo
obj_of (seq, info) = (
  seq % 2 ^ 32,
  record { hdr = info.hdr % 2 ^ 32; data_len = info.data_len % 2 ^ 32; live = info.live % 2 ^ 32 },
)

-- The checkpoint object: both tables in full.
pub checkpoint_of : ℕ → State → Checkpoint
unfolding entry_of obj_of
checkpoint_of cp_seq s = record {
  seq = cp_seq;
  cache_seq = 0;
  objects = map obj_of s.object_info;
  dmap = map entry_of s.objmap;
}

-- The loop that keeps the last three checkpoints: those to delete, and those that stay.
unfoldable pub keep_last : List ℕ → List ℕ × List ℕ
keep_last [] = ([], [])
keep_last (c ∷ cs) =
    let rest = keep_last cs in
    if ltb 3 (length (c ∷ cs)) then (c ∷ rest.0, rest.1) else ([], c ∷ cs)

-- What `write_checkpoint` sends: the object, then the superblock that names it, then the deletions.
pub checkpoint_ops : ℕ → State → List Event
unfolding keep_last
checkpoint_ops cp_seq s =
    let (old, kept) = keep_last (s.checkpoints ++ (cp_seq ∷ [])) in
    put_checkpoint s.name (checkpoint_of cp_seq s)
    ∷ put_superblock s.name kept s.clones
    ∷ map (delete_object s.name) old

unfoldable pub write_checkpoint : ℕ → State → State
unfolding checkpoint_ops
write_checkpoint cp_seq s = record s {
  checkpoints = (keep_last (s.checkpoints ++ (cp_seq ∷ []))).1;
  events = s.events ++ checkpoint_ops cp_seq s;
}

-- The loops of `read_from_checkpoint`, over the tables of a checkpoint.
unfoldable pub load_objects : List (ℕ × ObjInfo) → List (ℕ × ObjInfo) → List (ℕ × ObjInfo)
load_objects [] infos = infos
load_objects ((seq, info) ∷ os) infos = load_objects os (insert seq info infos)

-- A sector, or an object number: the model has no negative ones, `none` is one of them.
abbrev pub natural : ℤ → Option ℕ
natural (pos n) = some n
natural (negsuc n) = none

unfoldable pub load_map :
    List CkptMapentry → List (Extent ObjOffset) → Option (List (Extent ObjOffset))
load_map [] m = some m
load_map (e ∷ es) m = do
  lba ← natural e.lba
  len ← natural e.len
  obj ← natural e.obj
  offset ← natural e.offset
  load_map es (update m lba (lba + len) (record { obj = obj; offset = offset })).0

-- `read_from_checkpoint` into an image with these tables.
pub read_from_checkpoint :
    Checkpoint
    → List (Extent ObjOffset) × List (ℕ × ObjInfo)
    → Option (List (Extent ObjOffset) × List (ℕ × ObjInfo))
unfolding load_objects load_map
read_from_checkpoint c (m, infos) = do
  objmap ← load_map c.dmap m
  some (objmap, load_objects c.objects infos)
