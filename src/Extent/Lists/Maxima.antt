-- ===== src/Extent/Lists/Maxima.antt =====
-- src/extent.h, `lower_bound`: which list is the first to reach past a base, by the maxima.
use lsvd_rbd.Base.{
  suc_add, equal, not_equal, ℕ, suc, ◌+◌, ◌≤◌, ◌<◌, ◌≡◌, ◌⊎◌, refl, sym, ap, inl, inr, Bool-cases,
  lt_or_le, ltb, ltb-true, ltb-false, if◌then◌else◌, List, [], ◌∷◌, map, length, arith,
}
use lsvd_rbd.Extent.{Extent}
use lsvd_rbd.Extent.Order.{Above, Above-mono, IsSorted}
use lsvd_rbd.Extent.Lists.{nth, last_limit, seek_max, max_is}
use lsvd_rbd.Extent.Lists.Split.{flat, offset}
use lsvd_rbd.Extent.Lists.Shape.{Sizes}
use lsvd_rbd.Extent.Lists.Passed.{passed, Above-after, Above-left, passed-whole, passed-inside}

-- The search in the maxima, with the step over a maximum that is `b` itself.
unfoldable pub pick_list : ℕ → List ℕ → ℕ
pick_list b ms = if max_is b ms (seek_max b ms) then seek_max b ms + 1 else seek_max b ms

module _ {P : Type 0} where
  -- The first list that reaches past `b`.
  pub lists_passed : ℕ → List (List (Extent P)) → ℕ
  lists_passed b [] = 0
  lists_passed b (l ∷ ls) = let on = lists_passed b ls in if ltb b (last_limit l) then 0 else suc on

  lists_passed-none :
      (load b lo : ℕ) (ls : List (List (Extent P)))
      → Sizes load ls
      → Above lo (flat ls)
      → b ≤ lo
      → lists_passed b ls ≡ 0
  unfolding lists_passed
  lists_passed-none load b lo [] w v h = refl
  lists_passed-none load b lo (l ∷ ls) w v h =
      let past : Above (last_limit l) (flat ls) × (lo < last_limit l) =
        Above-after lo l (flat ls) v w.0 in
      rw (ltb-true b (last_limit l) (omega (arith, past.1))) refl

  pub pick_list-passed :
      (load b lo : ℕ) (ls : List (List (Extent P)))
      → Sizes load ls
      → Above lo (flat ls)
      → pick_list b (map last_limit ls) ≡ lists_passed b ls
  unfolding pick_list lists_passed seek_max max_is
  pick_list-passed load b lo [] w v = refl
  pick_list-passed load b lo (l ∷ ls) w v =
      let past : Above (last_limit l) (flat ls) × (lo < last_limit l) =
        Above-after lo l (flat ls) v w.0 in
      elim (lt_or_le b (last_limit l)) [
        | inl over ↦
            rw
              (
                ltb-true b (last_limit l) over,
                ltb-false (last_limit l) b (omega arith),
                not_equal b (last_limit l) over,
              )
              refl
        | inr under ↦ elim (lt_or_le (last_limit l) b) [
          | inl below ↦
              rw
                (
                  ltb-false b (last_limit l) under,
                  ltb-true (last_limit l) b below,
                  sym (pick_list-passed load b (last_limit l) ls w.2 past.0),
                )
                (elim (Bool-cases (max_is b (map last_limit ls) (seek_max b (map last_limit ls)))) [
                  | inl t ↦ rw t (suc_add (seek_max b (map last_limit ls)) 1)
                  | inr f ↦ rw f refl
                ])
          | inr at_least ↦
              rw
                (
                  ltb-false b (last_limit l) under,
                  ltb-false (last_limit l) b at_least,
                  equal b (last_limit l) (omega arith),
                  lists_passed-none load b (last_limit l) ls w.2 past.0 (omega arith),
                )
                refl
        ]
      ]

  -- The place among all extents is in the list that the maxima give.
  pub passed-offset :
      (load b lo : ℕ) (ls : List (List (Extent P)))
      → Sizes load ls
      → Above lo (flat ls)
      → passed b (flat ls) ≡ offset ls (lists_passed b ls) + passed b (nth ls (lists_passed b ls))
  unfolding lists_passed passed
  passed-offset load b lo [] w v = omega arith
  passed-offset load b lo (l ∷ ls) w v =
      let past : Above (last_limit l) (flat ls) × (lo < last_limit l) =
        Above-after lo l (flat ls) v w.0 in
      elim (lt_or_le b (last_limit l)) [
        | inl over ↦
            rw (ltb-true b (last_limit l) over)
              (omega (arith, (passed-inside b lo l (flat ls) v w.0 over).0))
        | inr under ↦ rw (ltb-false b (last_limit l) under) (
            omega (
              arith,
              passed-whole b lo l (flat ls) v under,
              passed-offset load b (last_limit l) ls w.2 past.0,
            ))
      ]

  pub passed-within :
      (load b lo : ℕ) (ls : List (List (Extent P)))
      → Sizes load ls
      → Above lo (flat ls)
      → (lists_passed b ls ≡ length ls)
        ⊎ ((lists_passed b ls < length ls)
            × (passed b (nth ls (lists_passed b ls)) < length (nth ls (lists_passed b ls)))
            × IsSorted (nth ls (lists_passed b ls)))
  unfolding lists_passed
  passed-within load b lo [] w v = inl refl
  passed-within load b lo (l ∷ ls) w v =
      let past : Above (last_limit l) (flat ls) × (lo < last_limit l) =
        Above-after lo l (flat ls) v w.0 in
      elim (lt_or_le b (last_limit l)) [
        | inl over ↦ rw (ltb-true b (last_limit l) over) (
            inr (
              omega arith,
              (passed-inside b lo l (flat ls) v w.0 over).1,
              Above-mono l (omega arith) (Above-left lo l (flat ls) v),
            ))
        | inr under ↦
            rw (ltb-false b (last_limit l) under)
              (elim (passed-within load b (last_limit l) ls w.2 past.0) [
                | inl all ↦ inl (ap suc all)
                | inr h ↦ inr (omega (arith, h.0), h.1, h.2)
              ])
      ]
