-- ===== src/Extent/Lists/Walk.antt =====
-- src/extent.h, the iterators of `extmap`: steps to the next extent and back.
use lsvd_rbd.Base.{
  sub_add, equal, not_zero, ℕ, ◌+◌, ◌-◌, ◌<◌, ◌≡◌, ◌⊎◌, refl, sym, inl, inr, lt_or_le, ltb-true,
  ltb-false, false, ◌==◌, List, length, arith,
}
use lsvd_rbd.Extent.Lists.{Lists, Position, nth, end, next, prev, plus_one, minus_one}
use lsvd_rbd.Extent.Lists.Split.{offset}
use lsvd_rbd.Extent.Lists.Shape.{WellFormed, index, AtExtent}
use lsvd_rbd.Extent.Lists.Settle.{Rests, Position_eq, offset_suc, nth_nonempty}

unequal : (m n : ℕ) → ((m < n) ⊎ (n < m)) → (m == n) ≡ false
unequal m n h = ground arith

offset_zero : {A : Type 0} (ls : List (List A)) (i : ℕ) → i ≡ 0 → offset ls i ≡ 0
offset_zero ls i h = rw h refl

module _ {P : Type 0} (load : ℕ) (s : Lists P) (it : Position) (v : WellFormed load s)
    (at : AtExtent s it) where
  -- From an extent, `operator++` and `operator+` both go to the place after it, at an extent or the end.
  pub next-plus_one :
      (next s it ≡ plus_one s it) × (index s (next s it) ≡ index s it + 1) × Rests s (next s it)
  unfolding next plus_one end
  next-plus_one = elim (lt_or_le (it.j + 1) (length (nth s.lists it.i))) [
    | inl inside ↦
        rw (unequal (it.j + 1) (length (nth s.lists it.i)) (inl inside))
          (refl, omega arith, inl (at.0, inside))
    | inr last ↦
        let at_end : it.j + 1 ≡ length (nth s.lists it.i) = omega (arith, at.1) in
        elim (lt_or_le (it.i + 1) (length s.lists)) [
          | inl more ↦
              rw
                (
                  equal (it.j + 1) (length (nth s.lists it.i)) at_end,
                  ltb-true (it.i + 1) (length s.lists) more,
                  unequal (it.i + 1) (length s.lists) (inl more),
                )
                (
                  refl,
                  omega (arith, offset_suc s.lists it.i at.0, at_end),
                  inl (more, nth_nonempty load s.lists (it.i + 1) v.sizes more),
                )
          | inr none ↦
              let last_list : it.i + 1 ≡ length s.lists = omega (arith, at.0) in
              let here : it.i ≡ length s.lists - 1 = omega arith in
              let there : it.j + 1 ≡ length (nth s.lists (length s.lists - 1)) =
                rw (sym here) at_end in
              rw
                (
                  equal (it.j + 1) (length (nth s.lists it.i)) at_end,
                  ltb-false (it.i + 1) (length s.lists) none,
                  equal (it.i + 1) (length s.lists) last_list,
                  not_zero (length s.lists) (omega arith),
                )
                (Position_eq here there, omega arith, inr (Position_eq here there))
        ]
  ]

  -- From an extent that is not the first, `operator--` and `operator-` both go to the extent before it.
  pub prev-minus_one :
      0 < index s it
      → (prev s it ≡ minus_one s it)
        × (index s (prev s it) + 1 ≡ index s it)
        × AtExtent s (prev s it)
  unfolding prev minus_one
  prev-minus_one h = elim (lt_or_le 0 it.j) [
    | inl inside ↦ rw (not_zero it.j inside) (refl, omega arith, (at.0, omega (arith, at.1)))
    | inr first ↦
        let none : it.j ≡ 0 = omega arith in
        elim (lt_or_le 0 it.i) [
          | inl second ↦
              let some : 0 < length (nth s.lists (it.i - 1)) =
                nth_nonempty load s.lists (it.i - 1) v.sizes (omega (arith, at.0)) in
              let before : offset s.lists it.i
                  ≡ offset s.lists (it.i - 1) + length (nth s.lists (it.i - 1)) =
                rw (sub_add it.i second) at (offset_suc s.lists (it.i - 1) (omega (arith, at.0))) in
              rw (equal it.j 0 none, ltb-true 0 it.i second, not_zero it.i second)
                (refl, omega (arith, before), (omega (arith, at.0), omega arith))
          | inr start ↦
              let zeroth : offset s.lists it.i ≡ 0 = offset_zero s.lists it.i (omega arith) in
              absurd (omega arith)
        ]
  ]
