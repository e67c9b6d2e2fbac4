-- ===== src/Extent/Order.antt =====
-- src/extent.h: the extents of a map are nonempty, in order and disjoint.
use lsvd_rbd.Base.{ℕ, ◌≤◌, ◌<◌, List, [], ◌∷◌, rev_append, arith}
use lsvd_rbd.Extent.{Extent, limit}

module _ {P : Type 0} where
  -- Nonempty extents in order, from `lo` on.
  abbrev pub Above : ℕ → List (Extent P) → Type 0
  Above lo [] = Unit {0}
  Above lo (e ∷ es) = (lo ≤ e.base) × (0 < e.len) × Above (limit e) es

  -- The same for a list from the highest down, all below `hi`.
  abbrev pub Below : ℕ → List (Extent P) → Type 0
  Below hi [] = Unit {0}
  Below hi (e ∷ ds) = (limit e ≤ hi) × (0 < e.len) × Below e.base ds

  abbrev pub IsSorted : List (Extent P) → Type 0
  IsSorted m = Above 0 m

  pub Above-mono : {m n : ℕ} (es : List (Extent P)) → m ≤ n → Above n es → Above m es
  Above-mono [] h v = tt
  Above-mono (e ∷ es) h v = (omega arith, v.1, v.2)

  pub Below-mono : {m n : ℕ} (ds : List (Extent P)) → m ≤ n → Below m ds → Below n ds
  Below-mono [] h v = tt
  Below-mono (e ∷ ds) h v = (omega arith, v.1, v.2)

  -- The two halves at a position make up a sorted map.
  pub rev_append-IsSorted :
      (ds es : List (Extent P)) (hi : ℕ) → Below hi ds → Above hi es → IsSorted (rev_append ds es)
  rev_append-IsSorted [] es hi v w = Above-mono es (omega arith) w
  rev_append-IsSorted (d ∷ ds) es hi v w =
      rev_append-IsSorted ds (d ∷ es) d.base v.2 (omega arith, v.1, Above-mono es v.0 w)
