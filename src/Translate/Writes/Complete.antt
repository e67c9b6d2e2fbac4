-- ===== src/Translate/Writes/Complete.antt =====
-- src/translate.cc, `translate_req::notify`: what a written batch leaves in the map.
use lsvd_rbd.Base.{
  or_and, ℕ, ◌+◌, ◌≤◌, ◌<◌, ◌≡◌, refl, ◌∙◌, ◌&&◌, leb, ltb, ltb-true, ltb-false, leb-false,
  lt_or_le, Bool-cases, inl, inr, if◌then◌else◌, none, List, [], ◌∷◌, ◌++◌, rev_append, subst, sym,
  arith,
}
use lsvd_rbd.Extent.{Extent, limit, vals_in, at}
use lsvd_rbd.Extent.Order.{Above, Above-mono, IsSorted}
use lsvd_rbd.Extent.Map.{lookup, lower_bound, trim}
use lsvd_rbd.Extent.Map.Position.{Reaches, lower_bound-Found}
use lsvd_rbd.Extent.Map.Clear.{Found-high}
use lsvd_rbd.Extent.Map.Update.{at-trim, trim-IsSorted}
use lsvd_rbd.Extent.Pointers.{SectorPtr, sector_target}
use lsvd_rbd.Translate.{Entry}
use lsvd_rbd.Translate.Writes.{Request, in_buffer, collect, collect_all, trim_all, notify}
use lsvd_rbd.Translate.Writes.Pieces.{
  points_in, in_pieces, in_entries, AllNonempty, IsApart, if_if, in_pieces-append, Above-Reaches,
  in_pieces-collect,
}

lookup-Above : (m : List (Extent SectorPtr)) (b : ℕ) → IsSorted m → Above 0 (lookup m b).rest
unfolding lookup
lookup-Above m b v = Above-mono (lower_bound m b).rest (omega arith) (lower_bound-Found m b v).after

lookup-Reaches : (m : List (Extent SectorPtr)) (b : ℕ) → IsSorted m → Reaches b (lookup m b).rest
unfolding lookup
lookup-Reaches m b v = (lower_bound-Found m b v).reaches

IsApart-rest :
    (lo hi : ℕ) (ds es : List (Extent SectorPtr))
    → IsApart lo hi (rev_append ds es)
    → IsApart lo hi es
IsApart-rest lo hi [] es a = a
IsApart-rest lo hi (d ∷ ds) es a = (IsApart-rest lo hi ds (d ∷ es) a).1

lookup-IsApart :
    (lo hi : ℕ) (m : List (Extent SectorPtr)) (b : ℕ)
    → IsSorted m
    → IsApart lo hi m
    → IsApart lo hi (lookup m b).rest
unfolding lookup
lookup-IsApart lo hi m b v a =
    let it = lower_bound m b in
    IsApart-rest lo hi it.done it.rest
      (subst (IsApart lo hi) (sym (lower_bound-Found m b v).same) a)

at-lookup :
    (m : List (Extent SectorPtr)) (b x : ℕ) → IsSorted m → b ≤ x → at (lookup m b).rest x ≡ at m x
unfolding lookup
at-lookup m b x v h = Found-high m b x (lower_bound m b) (lower_bound-Found m b v) h

-- Over a whole request the pieces are the sectors of its entries that point into the buffer.
in_pieces-collect_all :
    (lo hi x : ℕ) (es : List Entry) (m : List (Extent SectorPtr))
    → IsSorted m
    → IsApart lo hi m
    → in_pieces x (collect_all lo hi es m) ≡ (in_entries x es && points_in lo hi (at m x))
unfolding collect_all
in_pieces-collect_all lo hi x [] m v a = refl
in_pieces-collect_all lo hi x (e ∷ es) m v a =
    let l = e.lba + e.len in
    let here =
      in_pieces-collect lo hi e.lba l x (lookup m e.lba).rest 0 (lookup-Above m e.lba v)
        (lookup-Reaches m e.lba v) (lookup-IsApart lo hi m e.lba v a) in
    rw
      (
        in_pieces-append x (collect lo hi e.lba l (lookup m e.lba).rest) (collect_all lo hi es m),
        here,
        in_pieces-collect_all lo hi x es m v a,
      )
      (elim (lt_or_le x e.lba) [
        | inl low ↦ rw (leb-false e.lba x low) refl
        | inr from ↦
            rw (at-lookup m e.lba x v from)
              (or_and (leb e.lba x && ltb x l) (in_entries x es) (points_in lo hi (at m x)))
      ])

abbrev NonemptyPieces : List (ℕ × ℕ) → Type 0
NonemptyPieces [] = Unit {0}
NonemptyPieces ((b, l) ∷ ps) = (b < l) × NonemptyPieces ps

at-trim_all :
    (x : ℕ) (ps : List (ℕ × ℕ)) (m : List (Extent SectorPtr))
    → NonemptyPieces ps
    → IsSorted m
    → at (trim_all ps m) x ≡ (if in_pieces x ps then none else at m x)
unfolding trim_all
at-trim_all x [] m n v = refl
at-trim_all x ((b, l) ∷ ps) m n v =
    at-trim_all x ps (trim m b l).0 n.1 (trim-IsSorted m b l v n.0)
    ∙ rw (at-trim m b l x v n.0) (if_if (leb b x && ltb x l) (in_pieces x ps) (at m x))

NonemptyPieces-append :
    (ps qs : List (ℕ × ℕ)) → NonemptyPieces ps → NonemptyPieces qs → NonemptyPieces (ps ++ qs)
NonemptyPieces-append [] qs n k = k
NonemptyPieces-append (p ∷ ps) qs n k = (n.0, NonemptyPieces-append ps qs n.1 k)

piece_lt :
    (e : Extent SectorPtr) (b l : ℕ)
    → 0 < e.len
    → b < limit e
    → b < l
    → e.base < l
    → (vals_in e b l).0 < (vals_in e b l).1
unfolding vals_in
piece_lt e b l n r h k = elim (lt_or_le e.base b) [
  | inl q ↦ rw (ltb-true e.base b q) (omega arith)
  | inr q ↦ rw (ltb-false e.base b q) (omega arith)
]

collect-NonemptyPieces :
    (lo hi b l : ℕ) (es : List (Extent SectorPtr)) (n : ℕ)
    → Above n es
    → Reaches b es
    → b < l
    → NonemptyPieces (collect lo hi b l es)
unfolding collect vals_in
collect-NonemptyPieces lo hi b l [] n v r h = tt
collect-NonemptyPieces lo hi b l (e ∷ es) n v r h =
    let ih =
      collect-NonemptyPieces lo hi b l es (limit e) v.2
        (Above-Reaches b (limit e) es v.2 (omega arith)) h in
    elim (lt_or_le e.base l) [
      | inl k ↦ elim (Bool-cases (in_buffer lo hi (vals_in e b l).2)) [
        | inl q ↦ rw (ltb-true e.base l k, q) (piece_lt e b l v.1 r h k, ih)
        | inr q ↦ rw (ltb-true e.base l k, q) ih
      ]
      | inr k ↦ rw (ltb-false e.base l k) tt
    ]

collect_all-NonemptyPieces :
    (lo hi : ℕ) (es : List Entry) (m : List (Extent SectorPtr))
    → IsSorted m
    → AllNonempty es
    → NonemptyPieces (collect_all lo hi es m)
unfolding collect_all
collect_all-NonemptyPieces lo hi [] m v n = tt
collect_all-NonemptyPieces lo hi (e ∷ es) m v n =
    NonemptyPieces-append (collect lo hi e.lba (e.lba + e.len) (lookup m e.lba).rest)
      (collect_all lo hi es m)
      (collect-NonemptyPieces lo hi e.lba (e.lba + e.len) (lookup m e.lba).rest 0
        (lookup-Above m e.lba v) (lookup-Reaches m e.lba v) (omega (arith, n.0)))
      (collect_all-NonemptyPieces lo hi es m v n.1)

-- When a batch of nonempty writes is done, in a map in order none of whose extents crosses an end of
-- its buffer, exactly the sectors of its writes that still point into its buffer are unmapped: what
-- was overwritten since stays.
pub at-notify :
    (r : Request) (m : List (Extent SectorPtr)) (x : ℕ)
    → IsSorted m
    → IsApart r.local_buf_base r.local_buf_limit m
    → AllNonempty r.entries
    → at (notify r m) x ≡ (
        if in_entries x r.entries && points_in r.local_buf_base r.local_buf_limit (at m x)
        then none
        else at m x)
unfolding notify
at-notify r m x v a n =
    let lo = r.local_buf_base in
    let hi = r.local_buf_limit in
    at-trim_all x (collect_all lo hi r.entries m) m
      (collect_all-NonemptyPieces lo hi r.entries m v n) v
    ∙ rw (in_pieces-collect_all lo hi x r.entries m v a) refl
