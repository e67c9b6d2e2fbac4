-- ===== src/Translate/Batch.antt =====
-- src/translate.cc, the loops that map the ranges of a request to its object.
use lsvd_rbd.Base.{
  ℕ, ◌+◌, ◌-◌, ◌<◌, ◌≡◌, refl, ◌∙◌, ap, Bool, true, false, ◌&&◌, leb, ltb, ◌==◌, if◌then◌else◌,
  or_else, Option, none, some, List, [], ◌∷◌, arith,
}
use lsvd_rbd.Extent.{Extent, at}
use lsvd_rbd.Extent.Order.{IsSorted}
use lsvd_rbd.Extent.Map.{update}
use lsvd_rbd.Extent.Map.Update.{at-update, update-IsSorted}
use lsvd_rbd.Extent.Map.Weight.{weight, weight-append, weight-update}
use lsvd_rbd.Extent.Pointers.{ObjOffset, obj_target}
use lsvd_rbd.Translate.{map_entries, sum_len}

-- The extents that point into an object.
abbrev pub in_obj : ℕ → ObjOffset → Bool
in_obj o p = p.obj == o

abbrev pub Nonempty : List (ℕ × ℕ) → Type 0
Nonempty [] = Unit {0}
Nonempty ((lba, len) ∷ es) = (0 < len) × Nonempty es

-- Where a sector lies in a new object: at the last of the ranges that hold it.
abbrev pub placed : ℕ → ℕ → List (ℕ × ℕ) → ℕ → Option ObjOffset
placed seq off [] x = none
placed seq off ((lba, len) ∷ es) x = or_else (placed seq (off + len) es x) (
    if leb lba x && ltb x (lba + len)
    then some (record { obj = seq; offset = off + (x - lba) })
    else none)

pub map_entries-IsSorted :
    (seq off : ℕ) (es : List (ℕ × ℕ)) (m : List (Extent ObjOffset))
    → Nonempty es
    → IsSorted m
    → IsSorted (map_entries seq off es m).0
unfolding map_entries
map_entries-IsSorted seq off [] m n v = v
map_entries-IsSorted seq off ((lba, len) ∷ es) m n v =
    map_entries-IsSorted seq (off + len) es _ n.1
      (update-IsSorted m lba (lba + len) (record { obj = seq; offset = off }) v (omega arith))

placed-step :
    (o a : Option ObjOffset) (c : Bool) (p : ObjOffset)
    → or_else o (if c then some p else a) ≡ or_else (or_else o (if c then some p else none)) a
placed-step none a true p = refl
placed-step none a false p = refl
placed-step (some q) a c p = refl

-- A sector that the request holds is mapped to its last copy in the object, and every other sector
-- as it was.
pub at-map_entries :
    (seq off : ℕ) (es : List (ℕ × ℕ)) (m : List (Extent ObjOffset)) (x : ℕ)
    → Nonempty es
    → IsSorted m
    → at (map_entries seq off es m).0 x ≡ or_else (placed seq off es x) (at m x)
unfolding map_entries
at-map_entries seq off [] m x n v = refl
at-map_entries seq off ((lba, len) ∷ es) m x n v =
    let p : ObjOffset = record { obj = seq; offset = off } in
    at-map_entries seq (off + len) es (update m lba (lba + len) p).0 x n.1
      (update-IsSorted m lba (lba + len) p v (omega arith))
    ∙ (ap (or_else (placed seq (off + len) es x)) (at-update m lba (lba + len) p x v (omega arith))
        ∙ placed-step (placed seq (off + len) es x) (at m x) (leb lba x && ltb x (lba + len))
            (record { obj = seq; offset = off + (x - lba) }))

-- The sectors that point into an object, with the discarded ones, are those that did before, and for
-- the new object all its data.
pub weight-map_entries :
    (o seq off : ℕ) (es : List (ℕ × ℕ)) (m : List (Extent ObjOffset))
    → Nonempty es
    → IsSorted m
    → let (m', del) = map_entries seq off es m in
      weight (in_obj o) m' + weight (in_obj o) del
      ≡ weight (in_obj o) m + (if seq == o then sum_len es else 0)
unfolding map_entries sum_len
weight-map_entries o seq off [] m n v = ground arith
weight-map_entries o seq off ((lba, len) ∷ es) m n v =
    let p : ObjOffset = record { obj = seq; offset = off } in
    let m₁ = (update m lba (lba + len) p).0 in
    let del₁ = (update m lba (lba + len) p).1 in
    let v₁ = update-IsSorted m lba (lba + len) p v (omega arith) in
    ground (
      arith,
      weight-append (in_obj o) del₁ (map_entries seq (off + len) es m₁).1,
      weight-update (in_obj o) (λ q k. refl) m lba (lba + len) p v (omega arith),
      weight-map_entries o seq (off + len) es m₁ n.1 v₁,
    )
