-- ===== src/Extent/Lists/Bound.antt =====
-- src/extent.h, `lower_bound`: the search over two levels finds what one over all extents finds.
use lsvd_rbd.Base.{
  add_zero, sub_add, equal, not_equal, not_zero, ℕ, ◌+◌, ◌-◌, ◌≤◌, ◌<◌, ◌≡◌, refl, sym, inl, inr,
  Bool-cases, and_false, ◌∙◌, lt_or_le, ltb, ◌&&◌, ◌==◌, if◌then◌else◌, List, [], ◌∷◌, map, length,
  length-map, length-append, arith,
}
use lsvd_rbd.Extent.{Extent}
use lsvd_rbd.Extent.Order.{IsSorted}
use lsvd_rbd.Extent.Map
use lsvd_rbd.Extent.Lists.{
  Lists, nth, last_limit, end, seek_base, reaches_over, bound_in, lower_bound,
}
use lsvd_rbd.Extent.Lists.Split.{flat, offset}
use lsvd_rbd.Extent.Lists.Shape.{WellFormed, index}
use lsvd_rbd.Extent.Lists.Settle.{Rests, offset_suc}
use lsvd_rbd.Extent.Lists.Passed.{passed, pick, pick-passed, lower_bound-passed}
use lsvd_rbd.Extent.Lists.Maxima.{
  lists_passed, pick_list, pick_list-passed, passed-offset, passed-within,
}

passed_none : (P : Type 0) (b : ℕ) → passed {P = P} b [] ≡ 0
unfolding passed
passed_none P b = refl

module _ {P : Type 0} where
  -- In the list that the maxima give, the search ends at an extent.
  bound_in-pick :
      (s : Lists P) (b i : ℕ)
      → pick b (nth s.lists i) < length (nth s.lists i)
      → bound_in s b i ≡ record { i = i; j = pick b (nth s.lists i) }
  unfolding bound_in pick
  bound_in-pick s b i h =
      let l : List (Extent P) = nth s.lists i in
      elim (Bool-cases (ltb 0 (seek_base b l) && reaches_over b l (seek_base b l - 1))) [
        | inl t ↦ rw t refl
        | inr f ↦
            let here : seek_base b l < length l = rw f at h in
            rw
              (f, not_equal (seek_base b l) (length l) here, and_false (ltb i (length s.lists - 1)))
              refl
      ]

  offset_all : (ls : List (List (Extent P))) → offset ls (length ls) ≡ length (flat ls)
  offset_all [] = refl
  offset_all (l ∷ ls) = rw (length-append l (flat ls), offset_all ls) refl

  nth_past : (ls : List (List (Extent P))) → nth ls (length ls) ≡ []
  nth_past [] = refl
  nth_past (l ∷ ls) = nth_past ls

  no_lists : (ls : List (List (Extent P))) → length ls ≤ 0 → ls ≡ []
  no_lists [] h = refl
  no_lists (l ∷ ls) h = absurd (omega arith)

  end_index : (s : Lists P) → 0 < length s.lists → index s (end s) ≡ length (flat s.lists)
  unfolding end
  end_index s h =
      let all : offset s.lists (length s.lists - 1 + 1) ≡ length (flat s.lists) =
        rw (sub_add (length s.lists) h) (offset_all s.lists) in
      let one_more : offset s.lists (length s.lists - 1 + 1)
          ≡ offset s.lists (length s.lists - 1) + length (nth s.lists (length s.lists - 1)) =
        offset_suc s.lists (length s.lists - 1) (omega arith) in
      rw (not_zero (length s.lists) h) (omega (arith, all, one_more))

  lower_bound_none : (s : Lists P) (b : ℕ) → s.lists ≡ [] → lower_bound s b ≡ end s
  unfolding lower_bound
  lower_bound_none s b h = rw h refl

  end_none : (s : Lists P) → s.lists ≡ [] → end s ≡ record { i = 0; j = 0 }
  unfolding end
  end_none s h = rw h refl

  module _ (load : ℕ) (s : Lists P) (b : ℕ) (v : WellFormed load s)
      (sorted : IsSorted (flat s.lists)) where
    lower_bound_steps :
        0 < length s.lists
        → lower_bound s b ≡ (
            if lists_passed b s.lists == length s.lists
            then end s
            else bound_in s b (lists_passed b s.lists))
    unfolding lower_bound pick_list
    lower_bound_steps h =
        let first : pick_list b (map last_limit s.lists) ≡ lists_passed b s.lists =
          pick_list-passed load b 0 s.lists v.sizes sorted in
        rw (not_zero (length s.lists) h, v.maxima, length-map last_limit s.lists, first) refl

    flat_place :
        length (Map.lower_bound (flat s.lists) b).done
        ≡ offset s.lists (lists_passed b s.lists) + passed b (nth s.lists (lists_passed b s.lists))
    flat_place =
        lower_bound-passed (flat s.lists) b sorted ∙ passed-offset load b 0 s.lists v.sizes sorted

    -- `lower_bound` gives an iterator to an extent or to the end, at the place where the search in the
    -- sequence of all extents ends.
    pub lower_bound-Lists :
        (index s (lower_bound s b) ≡ length (Map.lower_bound (flat s.lists) b).done)
        × Rests s (lower_bound s b)
    lower_bound-Lists = elim (lt_or_le 0 (length s.lists)) [
      | inl some ↦
          rw (lower_bound_steps some, flat_place)
            (elim (passed-within load b 0 s.lists v.sizes sorted) [
              | inl all ↦
                  rw (equal (lists_passed b s.lists) (length s.lists) all, all, nth_past s.lists)
                    (
                      end_index s some
                          ∙ sym (
                              rw (passed_none P b, offset_all s.lists)
                                (add_zero (length (flat s.lists)))),
                      inr refl,
                    )
              | inr (i, j, sorted_i) ↦
                  let picked : pick b (nth s.lists (lists_passed b s.lists))
                      ≡ passed b (nth s.lists (lists_passed b s.lists)) =
                    pick-passed b 0 (nth s.lists (lists_passed b s.lists)) sorted_i in
                  rw
                    (
                      not_equal (lists_passed b s.lists) (length s.lists) i,
                      bound_in-pick s b (lists_passed b s.lists) (rw picked j),
                      picked,
                    )
                    (refl, inl (i, j))
            ])
      | inr none ↦
          let empty : s.lists ≡ [] = no_lists s.lists none in
          rw (lower_bound_none s b empty) (
            rw (end_none s empty, empty) (sym (lower_bound-passed [] b tt ∙ passed_none P b)),
            inr refl,
          )
    ]
