-- ===== src/Extent/Map/Discard.antt =====
-- src/extent.h, `_update`: the discarded extents (`del`), as a map.
use lsvd_rbd.Base.{
  ℕ, ◌-◌, ◌≤◌, ◌<◌, ◌≡◌, ◌⊎◌, refl, sym, ap, ◌∙◌, true, false, ◌&&◌, leb, ltb, ltb-true, ltb-false,
  if◌then◌else◌, Bool-cases, inl, inr, lt_or_le, test-pos, test-neg, test-below, Option, none, some,
  or_else, List, [], ◌∷◌, ◌++◌, arith,
}
use lsvd_rbd.Extent.{Target, Extent, limit, new_extent, at}
use lsvd_rbd.Extent.Order.{Above, IsSorted}
use lsvd_rbd.Extent.Map.{lower_bound, cut_left, erase_covered, cut_right, clear, update, trim}
use lsvd_rbd.Extent.Map.Position.{Reaches, lower_bound-Found}
use lsvd_rbd.Extent.Map.View.{at-Above, at-append, at-skip, at-hit, at-miss}
use lsvd_rbd.Extent.Map.Clear.{
  cut_left-LeftCut, erase_covered-Above, erase_covered-Reaches, Found-high,
}

earlier : (x b l l' : ℕ) → l' ≤ l → (x < b) ⊎ (l ≤ x) → (x < b) ⊎ (l' ≤ x)
earlier x b l l' h (inl low) = inl low
earlier x b l l' h (inr past) = inr (omega arith)

module _ {P : Type 0} ⦃t : Target P⦄ where
  -- A map in a range alone.
  abbrev pub within : List (Extent P) → ℕ → ℕ → ℕ → Option P
  within m b l x = if leb b x && ltb x l then at m x else none

  -- One discarded extent is the part of the extent it was cut from.
  at-cut :
      (e : Extent P) (es : List (Extent P)) (b l x : ℕ)
      → e.base ≤ b
      → l ≤ limit e
      → b ≤ x
      → x < l
      → at (new_extent b (l - b) (t.plus e.ptr (b - e.base)) ∷ []) x ≡ at (e ∷ es) x
  at-cut e es b l x h k from inside =
      rw
        (
          at-hit (new_extent b (l - b) (t.plus e.ptr (b - e.base))) [] x from (omega arith),
          at-hit e es x (omega arith) (omega arith),
          t.plus-plus e.ptr (b - e.base) (x - b),
        )
        (ap (λ k. some (t.plus e.ptr k)) (omega arith))

  at-outside :
      (b l x : ℕ) (p : P) → (x < b) ⊎ (l ≤ x) → b < l → at (new_extent b (l - b) p ∷ []) x ≡ none
  at-outside b l x p (inl low) h = at-miss (new_extent b (l - b) p) [] x low
  at-outside b l x p (inr past) h = at-skip (new_extent b (l - b) p) [] x (omega arith)

  record LeftDiscard (b l : ℕ) (es es' del : List (Extent P)) : Type 0 where
    outside : (x : ℕ) → (x < b) ⊎ (l ≤ x) → at del x ≡ none
    inside : (x : ℕ) → b ≤ x → x < l → or_else (at del x) (at es' x) ≡ at es x

  cut_left-LeftDiscard :
      (b l hi : ℕ) (ds es : List (Extent P))
      → b < l
      → Above hi es
      → Reaches b es
      → let (it, del) = cut_left b l ds es in LeftDiscard b l es it.rest del
  unfolding cut_left
  cut_left-LeftDiscard b l hi ds [] h v r = record { outside = λ x o. refl; inside = λ x i j. refl }
  cut_left-LeftDiscard b l hi ds (e ∷ es) h v r = elim (lt_or_le e.base b) [
    | inr from ↦
        let first : (ltb e.base b && ltb l (limit e)) ≡ false = ground arith in
        let second : (ltb e.base b && ltb b (limit e)) ≡ false = ground arith in
        rw (first, second, cut_left) (record { outside = λ x o. refl; inside = λ x i j. refl })
    | inl over ↦ elim (lt_or_le l (limit e)) [
      | inl inside ↦
          let first : (ltb e.base b && ltb l (limit e)) ≡ true = ground arith in
          rw (first, cut_left)
            (record {
              outside = λ x o. at-outside b l x (t.plus e.ptr (b - e.base)) o h;
              inside = λ x i j. rw (
                at-cut e es b l x (omega arith) (omega arith) i j,
                at-hit e es x (omega arith) (omega arith),
              );
            })
      | inr beyond ↦
          let first : (ltb e.base b && ltb l (limit e)) ≡ false = ground arith in
          let second : (ltb e.base b && ltb b (limit e)) ≡ true = ground arith in
          rw (first, second, cut_left)
            (record {
              outside = λ x o.
                  at-outside b (limit e) x (t.plus e.ptr (b - e.base))
                    (earlier x b l (limit e) beyond o) r;
              inside = λ x i j. elim (lt_or_le x (limit e)) [
                | inl on ↦ rw (
                  at-cut e es b (limit e) x (omega arith) (omega arith) i on,
                  at-hit e es x (omega arith) on,
                )
                | inr off ↦ rw (
                  at-outside b (limit e) x (t.plus e.ptr (b - e.base)) (inr off) r,
                  at-skip e es x off,
                )
              ];
            })
    ]
  ]

  -- The erased extents are the first ones.
  erase_covered-append :
      (b l : ℕ) (es : List (Extent P)) → (erase_covered b l es).1 ++ (erase_covered b l es).0 ≡ es
  unfolding erase_covered
  erase_covered-append b l [] = refl
  erase_covered-append b l (e ∷ es) = elim (Bool-cases (leb b e.base && leb (limit e) l)) [
    | inl h ↦ rw (h, erase_covered) (ap (λ k. e ∷ k) (erase_covered-append b l es))
    | inr h ↦ rw (h, erase_covered)
  ]

  erase_covered-outside :
      (b l : ℕ) (es : List (Extent P)) (x : ℕ)
      → (x < b) ⊎ (l ≤ x)
      → at (erase_covered b l es).1 x ≡ none
  unfolding erase_covered
  erase_covered-outside b l [] x o = refl
  erase_covered-outside b l (e ∷ es) x o = elim (Bool-cases (leb b e.base && leb (limit e) l)) [
    | inl h ↦
        let miss : (leb e.base x && ltb x (limit e)) ≡ false = ground arith in
        rw (h, erase_covered) (rw miss (erase_covered-outside b l es x o))
    | inr h ↦ rw (h, erase_covered)
  ]

  at-cut_right_discard :
      (b l : ℕ) (es : List (Extent P)) (x : ℕ)
      → Above b es
      → Reaches l es
      → at (cut_right l es).1 x ≡ (if ltb x l then at es x else none)
  unfolding cut_right
  at-cut_right_discard b l [] x v r = ground arith
  at-cut_right_discard b l (e ∷ es) x v r = elim (lt_or_le x l) [
    | inl low ↦ rw (ltb-true x l low) (elim (lt_or_le e.base l) [
      | inl over ↦
          rw (ltb-true e.base l over, cut_right)
            (elim (lt_or_le x e.base) [
              | inl under ↦ rw (
                at-outside e.base l x e.ptr (inl under) over,
                at-miss e es x under,
                at-Above es (limit e) x v.2 (omega arith),
              )
              | inr on ↦ rw (
                at-hit (new_extent e.base (l - e.base) e.ptr) [] x on (omega arith),
                at-hit e es x on (omega arith),
              )
            ])
      | inr from ↦
          rw (ltb-false e.base l from, cut_right) (sym (at-Above (e ∷ es) l x (from, v.1, v.2) low))
    ])
    | inr past ↦ rw (ltb-false x l past) (elim (lt_or_le e.base l) [
      | inl over ↦
          rw (ltb-true e.base l over, cut_right) (at-outside e.base l x e.ptr (inr past) over)
      | inr from ↦ rw (ltb-false e.base l from, cut_right)
    ])
  ]

  last_part :
      (b l x : ℕ) (es : List (Extent P))
      → Above b es
      → (x < b) ⊎ (l ≤ x)
      → (if ltb x l then at es x else none) ≡ none
  last_part b l x es v (inl low) = ground (arith, at-Above es b x v low)
  last_part b l x es v (inr past) = rw (ltb-false x l past)

  module _ (m : List (Extent P)) (b l : ℕ) (v : IsSorted m) (bl : b < l) where
    discard-inside : (x : ℕ) → b ≤ x → x < l → at (clear m b l).1 x ≡ at m x
    unfolding clear
    discard-inside x i j =
        let f = lower_bound-Found m b v in
        let it = lower_bound m b in
        let c = cut_left-LeftCut b l f.hi it.done it.rest bl f.hi-le f.before f.after f.reaches in
        let d = cut_left-LeftDiscard b l f.hi it.done it.rest bl f.after f.reaches in
        let es₁ = (cut_left b l it.done it.rest).0.rest in
        let del₁ = (cut_left b l it.done it.rest).1 in
        let (es₂, del₂) = erase_covered b l es₁ in
        let v₂ = erase_covered-Above b l es₁ c.after in
        let r₂ = erase_covered-Reaches b l es₁ c.after in
        rw
          (
            at-append del₁ (del₂ ++ (cut_right l es₂).1) x,
            at-append del₂ (cut_right l es₂).1 x,
            at-cut_right_discard b l es₂ x v₂ r₂,
            ltb-true x l j,
          )
          (ap (or_else (at del₁ x))
              (sym (at-append del₂ es₂ x) ∙ ap (λ k. at k x) (erase_covered-append b l es₁))
            ∙ (d.inside x i j ∙ Found-high m b x it f i))

    discard-outside : (x : ℕ) → (x < b) ⊎ (l ≤ x) → at (clear m b l).1 x ≡ none
    unfolding clear
    discard-outside x o =
        let f = lower_bound-Found m b v in
        let it = lower_bound m b in
        let c = cut_left-LeftCut b l f.hi it.done it.rest bl f.hi-le f.before f.after f.reaches in
        let d = cut_left-LeftDiscard b l f.hi it.done it.rest bl f.after f.reaches in
        let es₁ = (cut_left b l it.done it.rest).0.rest in
        let del₁ = (cut_left b l it.done it.rest).1 in
        let (es₂, del₂) = erase_covered b l es₁ in
        let v₂ = erase_covered-Above b l es₁ c.after in
        let r₂ = erase_covered-Reaches b l es₁ c.after in
        rw
          (
            at-append del₁ (del₂ ++ (cut_right l es₂).1) x,
            at-append del₂ (cut_right l es₂).1 x,
            d.outside x o,
            erase_covered-outside b l es₁ x o,
            at-cut_right_discard b l es₂ x v₂ r₂,
          )
          (last_part b l x es₂ v₂ o)

    discard-within : (x : ℕ) → at (clear m b l).1 x ≡ within m b l x
    discard-within x = elim (lt_or_le x b) [
      | inl low ↦ rw (test-below b x l low) (discard-outside x (inl low))
      | inr from ↦ elim (lt_or_le x l) [
        | inl inside ↦ rw (test-pos b x l from inside) (discard-inside x from inside)
        | inr past ↦ rw (test-neg b x l past) (discard-outside x (inr past))
      ]
    ]

  -- For a map in order and a nonempty range: what `update` discards maps the sectors of the range as
  -- the map did, and no other sector.
  pub at-update_discard :
      (m : List (Extent P)) (b l : ℕ) (p : P) (x : ℕ)
      → IsSorted m
      → b < l
      → at (update m b l p).1 x ≡ within m b l x
  unfolding update
  at-update_discard [] b l p x v h = ground arith
  at-update_discard (e ∷ es) b l p x v h = discard-within (e ∷ es) b l v h x

  -- So does what `trim` discards.
  pub at-trim_discard :
      (m : List (Extent P)) (b l x : ℕ) → IsSorted m → b < l → at (trim m b l).1 x ≡ within m b l x
  unfolding trim
  at-trim_discard [] b l x v h = ground arith
  at-trim_discard (e ∷ es) b l x v h = discard-within (e ∷ es) b l v h x
