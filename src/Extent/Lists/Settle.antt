-- ===== src/Extent/Lists/Settle.antt =====
-- src/extent.h, the end of `_erase`: the iterator moves from the end of a list to the next list.
use lsvd_rbd.Base.{
  add_zero, suc_add, equal, not_equal, not_zero, ℕ, zero, suc, ◌+◌, ◌-◌, ◌<◌, ◌≡◌, ◌⊎◌, refl, sym,
  ap₂, inl, inr, lt_or_le, List, [], ◌∷◌, length, arith,
}
use lsvd_rbd.Extent.{Extent}
use lsvd_rbd.Extent.Lists.{Lists, Position, nth, end, settle}
use lsvd_rbd.Extent.Lists.Split.{offset}
use lsvd_rbd.Extent.Lists.Shape.{Sizes, index, AtExtent, InLists}

pub Position_eq :
    {i j k l : ℕ}
    → i ≡ k
    → j ≡ l
    → Path Position (record { i = i; j = j }) (record { i = k; j = l })
Position_eq h g = ap₂ (λ x y. record { i = x; j = y }) h g

module _ {P : Type 0} where
  pub offset_suc :
      (ls : List (List (Extent P))) (i : ℕ)
      → i < length ls
      → offset ls (i + 1) ≡ offset ls i + length (nth ls i)
  offset_suc [] i h = absurd (omega arith)
  offset_suc (l ∷ ls) zero h = omega arith
  offset_suc (l ∷ ls) (suc i) h = rw (suc_add i 1) (omega (arith, offset_suc ls i (omega arith)))

  pub nth_nonempty :
      (load : ℕ) (ls : List (List (Extent P))) (i : ℕ)
      → Sizes load ls
      → i < length ls
      → 0 < length (nth ls i)
  nth_nonempty load [] i v h = absurd (omega arith)
  nth_nonempty load (l ∷ ls) zero v h = v.0
  nth_nonempty load (l ∷ ls) (suc i) v h = nth_nonempty load ls i v.2 (omega arith)

  -- At an extent, or at the end of the map.
  abbrev pub Rests : Lists P → Position → Type 0
  Rests s it = AtExtent s it ⊎ (it ≡ end s)

  pub record Settled (s : Lists P) (it r : Position) : Type 0 where
    pub kept : index s r ≡ index s it
    pub rests : Rests s r

  pub settle-Settled :
      (load : ℕ) (s : Lists P) (it : Position)
      → Sizes load s.lists
      → InLists s it
      → Settled s it (settle s it)
  unfolding settle end
  settle-Settled load s it v (i, j) = elim (lt_or_le it.j (length (nth s.lists it.i))) [
    | inl inside ↦
        rw (not_equal it.j (length (nth s.lists it.i)) inside)
          (record { kept = refl; rests = inl (i, inside) })
    | inr at_end ↦ elim (lt_or_le (it.i + 1) (length s.lists)) [
      | inl more ↦
          rw
            (
              equal it.j (length (nth s.lists it.i)) (omega arith),
              not_equal it.i (length s.lists - 1) (omega arith),
            )
            (record {
              kept =
                  rw
                    (
                      offset_suc s.lists it.i i,
                      add_zero (offset s.lists it.i + length (nth s.lists it.i)),
                    )
                    (omega arith);
              rests = inl (more, nth_nonempty load s.lists (it.i + 1) v more);
            })
      | inr last ↦
          let here : it.i ≡ length s.lists - 1 = omega arith in
          let there : it.j ≡ length (nth s.lists (length s.lists - 1)) =
            rw (sym here) (omega arith) in
          rw
            (
              equal it.j (length (nth s.lists it.i)) (omega arith),
              equal it.i (length s.lists - 1) here,
            )
            (record {
              kept = refl;
              rests = inr (rw (not_zero (length s.lists) (omega arith)) (Position_eq here there));
            })
    ]
  ]
