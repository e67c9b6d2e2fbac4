-- ===== src/Extent/Map/Update.antt =====
-- src/extent.h, `_update`, `update` and `trim`: the map as a function of the sector.
use lsvd_rbd.Base.{
  ℕ, ◌-◌, ◌<◌, ◌≡◌, ◌∙◌, ◌&&◌, leb, ltb, if◌then◌else◌, inl, inr, lt_or_le, test-pos, test-neg,
  test-below, or_else-none, Option, none, some, List, [], ◌∷◌, arith,
}
use lsvd_rbd.Extent.{Target, Extent, new_extent, at}
use lsvd_rbd.Extent.Order.{Above-mono, IsSorted, rev_append-IsSorted}
use lsvd_rbd.Extent.Map.{Iterator, whole, place, clear, update, trim}
use lsvd_rbd.Extent.Map.View.{at-Below, at-Above, at-whole, at-skip, at-hit, at-miss}
use lsvd_rbd.Extent.Map.Clear.{Cleared, clear-Cleared}
use lsvd_rbd.Extent.Map.Place.{at-place, place-IsSorted}

module _ {P : Type 0} ⦃t : Target P⦄ where
  -- In a map and a range, what a write of the range to `p` onwards makes a sector point to.
  abbrev pub written : List (Extent P) → ℕ → ℕ → P → ℕ → Option P
  written m b l p x = if leb b x && ltb x l then some (t.plus p (x - b)) else at m x

  abbrev pub unmapped : List (Extent P) → ℕ → ℕ → ℕ → Option P
  unmapped m b l x = if leb b x && ltb x l then none else at m x

  module _ (m : List (Extent P)) (b l : ℕ) (it : Iterator P) (bl : b < l)
      (c : Cleared m b l it) where
    Cleared-whole : (x : ℕ) → at (whole it) x ≡ unmapped m b l x
    Cleared-whole x = at-whole it.done it.rest b x c.before ∙ elim (lt_or_le x b) [
      | inl low ↦
          rw
            (
              test-below b x l low,
              at-Above it.rest l x c.after (omega arith),
              or_else-none (at it.done x),
            )
            (c.low x low)
      | inr from ↦ rw (at-Below it.done b x c.before from) (elim (lt_or_le x l) [
        | inl inside ↦ rw (test-pos b x l from inside) (at-Above it.rest l x c.after inside)
        | inr past ↦ rw (test-neg b x l past) (c.high x past)
      ])
    ]

    Cleared-place :
        (p : P) (x : ℕ) → at (place (new_extent b (l - b) p) it.done it.rest) x ≡ written m b l p x
    Cleared-place p x =
        let e : Extent P = new_extent b (l - b) p in
        at-place e it.done it.rest x (omega arith) c.before
        ∙ (at-whole it.done (e ∷ it.rest) b x c.before ∙ elim (lt_or_le x b) [
          | inl low ↦
              rw
                (
                  test-below b x l low,
                  at-miss e it.rest x low,
                  at-Above it.rest l x c.after (omega arith),
                  or_else-none (at it.done x),
                )
                (c.low x low)
          | inr from ↦ rw (at-Below it.done b x c.before from) (elim (lt_or_le x l) [
            | inl inside ↦ rw (test-pos b x l from inside, at-hit e it.rest x from (omega arith))
            | inr past ↦ rw (test-neg b x l past, at-skip e it.rest x (omega arith)) (c.high x past)
          ])
        ])

    Cleared-IsSorted : IsSorted (whole it)
    Cleared-IsSorted =
        rev_append-IsSorted it.done it.rest b c.before (Above-mono it.rest (omega arith) c.after)

    Cleared-place-IsSorted : (p : P) → IsSorted (place (new_extent b (l - b) p) it.done it.rest)
    Cleared-place-IsSorted p =
        place-IsSorted (new_extent b (l - b) p) it.done it.rest (omega arith) c.before
          (Above-mono it.rest (omega arith) c.after)

  -- For a map in order and a nonempty range: after `update` the sectors of the range point to `p`
  -- onwards, and every other sector to what it pointed to, whatever extents were cut, erased or
  -- merged.
  pub at-update :
      (m : List (Extent P)) (b l : ℕ) (p : P) (x : ℕ)
      → IsSorted m
      → b < l
      → at (update m b l p).0 x ≡ written m b l p x
  unfolding update
  at-update [] b l p x v h = ground arith
  at-update (e ∷ es) b l p x v h =
      Cleared-place (e ∷ es) b l (clear (e ∷ es) b l).0 h (clear-Cleared (e ∷ es) b l v h) p x

  -- `update` of a nonempty range keeps the extents nonempty, in order and disjoint.
  pub update-IsSorted :
      (m : List (Extent P)) (b l : ℕ) (p : P) → IsSorted m → b < l → IsSorted (update m b l p).0
  unfolding update
  update-IsSorted [] b l p v h = (omega arith, omega arith, tt)
  update-IsSorted (e ∷ es) b l p v h =
      Cleared-place-IsSorted (e ∷ es) b l (clear (e ∷ es) b l).0 h (clear-Cleared (e ∷ es) b l v h)
        p

  -- For a map in order and a nonempty range: after `trim` no sector of the range is mapped, and every
  -- other sector as it was.
  pub at-trim :
      (m : List (Extent P)) (b l x : ℕ)
      → IsSorted m
      → b < l
      → at (trim m b l).0 x ≡ unmapped m b l x
  unfolding trim
  at-trim [] b l x v h = ground arith
  at-trim (e ∷ es) b l x v h =
      Cleared-whole (e ∷ es) b l (clear (e ∷ es) b l).0 h (clear-Cleared (e ∷ es) b l v h) x

  pub trim-IsSorted : (m : List (Extent P)) (b l : ℕ) → IsSorted m → b < l → IsSorted (trim m b l).0
  unfolding trim
  trim-IsSorted [] b l v h = tt
  trim-IsSorted (e ∷ es) b l v h =
      Cleared-IsSorted (e ∷ es) b l (clear (e ∷ es) b l).0 h (clear-Cleared (e ∷ es) b l v h)
