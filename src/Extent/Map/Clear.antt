-- ===== src/Extent/Map/Clear.antt =====
-- src/extent.h, `_update`: what the three cuts leave of a map.
use lsvd_rbd.Base.{
  ℕ, ◌-◌, ap, ◌≤◌, ◌<◌, ◌≡◌, refl, sym, inl, inr, lt_or_le, Bool-cases, ltb-true, ltb-false,
  leb-true, ◌∙◌, ltb, leb, ◌&&◌, true, false, or_else, or_else-none, List, [], ◌∷◌, arith,
}
use native.Mathlib.Nat.{le_trans}
use lsvd_rbd.Extent.{Target, Extent, limit, new_extent, at}
use lsvd_rbd.Extent.Order.{Above, Below, Above-mono, Below-mono, IsSorted}
use lsvd_rbd.Extent.Map.{Iterator, cut_left, erase_covered, cut_right, lower_bound, clear}
use lsvd_rbd.Extent.Map.Position.{Reaches, Found, lower_bound-Found}
use lsvd_rbd.Extent.Map.View.{at-Below, at-Above, at-whole, at-skip, at-cut_before, at-cut_after}

module _ {P : Type 0} ⦃t : Target P⦄ where
  -- After the left cut: the map below `b` is before the position, the map from `l` on behind it.
  pub record LeftCut (b l : ℕ) (ds es : List (Extent P)) (it : Iterator P) : Type 0 where
    pub before : Below b it.done
    pub after : Above b it.rest
    pub left : (x : ℕ) → x < b → at it.done x ≡ or_else (at ds x) (at es x)
    pub right : (x : ℕ) → l ≤ x → at it.rest x ≡ at es x

  pub cut_left-LeftCut :
      (b l hi : ℕ) (ds es : List (Extent P))
      → b < l
      → hi ≤ b
      → Below hi ds
      → Above hi es
      → Reaches b es
      → LeftCut b l ds es (cut_left b l ds es).0
  unfolding cut_left
  cut_left-LeftCut b l hi ds [] bl h v w r = record {
    before = Below-mono ds h v;
    after = tt;
    left = λ x k. sym (or_else-none (at ds x));
    right = λ x k. refl;
  }
  cut_left-LeftCut b l hi ds (e ∷ es) bl h v w r = elim (lt_or_le e.base b) [
    | inr from ↦
        let first : (ltb e.base b && ltb l (limit e)) ≡ false = ground arith in
        let second : (ltb e.base b && ltb b (limit e)) ≡ false = ground arith in
        rw (first, second, cut_left)
          (record {
            before = Below-mono ds h v;
            after = (from, w.1, w.2);
            left =
                λ x k. rw (at-Above (e ∷ es) b x (from, w.1, w.2) k) (sym (or_else-none (at ds x)));
            right = λ x k. refl;
          })
    | inl over ↦
        let below = Below-mono ds w.0 v in
        elim (lt_or_le l (limit e)) [
          | inl inside ↦
              let first : (ltb e.base b && ltb l (limit e)) ≡ true = ground arith in
              rw (first, cut_left)
                (record {
                  before = (omega arith, omega arith, below);
                  after = (omega arith, omega arith, Above-mono es (omega arith) w.2);
                  left = λ x k. at-cut_before e ds es b x (below) w.2 over (omega arith) k;
                  right = λ x k.
                      at-cut_after e es l x (new_extent l (limit e - l) (t.plus e.ptr (l - e.base)))
                        (omega arith) refl (omega arith) refl k;
                })
          | inr beyond ↦
              let first : (ltb e.base b && ltb l (limit e)) ≡ false = ground arith in
              let second : (ltb e.base b && ltb b (limit e)) ≡ true = ground arith in
              rw (first, second, cut_left)
                (record {
                  before = (omega arith, omega arith, below);
                  after = Above-mono es (omega arith) w.2;
                  left = λ x k. at-cut_before e ds es b x (below) w.2 over (omega arith) k;
                  right = λ x k. sym (at-skip e es x (omega arith));
                })
        ]
  ]

  pub erase_covered-Above :
      (b l : ℕ) (es : List (Extent P)) → Above b es → Above b (erase_covered b l es).0
  unfolding erase_covered
  erase_covered-Above b l [] v = tt
  erase_covered-Above b l (e ∷ es) v =
      ground (arith, erase_covered-Above b l es, Above-mono {m = b} {n = limit e} es)

  at-erase_covered :
      (b l : ℕ) (es : List (Extent P)) (x : ℕ) → l ≤ x → at (erase_covered b l es).0 x ≡ at es x
  unfolding erase_covered
  at-erase_covered b l [] x h = refl
  at-erase_covered b l (e ∷ es) x h = elim (Bool-cases (leb b e.base && leb (limit e) l)) [
    | inl hit ↦
        rw (hit, erase_covered) (at-erase_covered b l es x h ∙ sym (at-skip e es x (ground arith)))
    | inr miss ↦ rw (miss, erase_covered)
  ]

  -- After the loop the first extent reaches past the range.
  pub erase_covered-Reaches :
      (b l : ℕ) (es : List (Extent P)) → Above b es → Reaches l (erase_covered b l es).0
  unfolding erase_covered
  erase_covered-Reaches b l [] v = tt
  erase_covered-Reaches b l (e ∷ es) v = elim (Bool-cases (leb b e.base && leb (limit e) l)) [
    | inl hit ↦
        rw (hit, erase_covered) (erase_covered-Reaches b l es (Above-mono es (omega arith) v.2))
    | inr miss ↦ rw (miss, erase_covered) (ground arith)
  ]

  cut_right-Above :
      (b l : ℕ) (es : List (Extent P)) → Above b es → Reaches l es → Above l (cut_right l es).0
  unfolding cut_right
  cut_right-Above b l [] v r = tt
  cut_right-Above b l (e ∷ es) v r = elim (lt_or_le e.base l) [
    | inl over ↦
        rw (ltb-true e.base l over, leb-true e.base l (omega arith), cut_right)
          (omega arith, omega arith, Above-mono es (omega arith) v.2)
    | inr from ↦ rw (ltb-false e.base l from, cut_right) (from, v.1, v.2)
  ]

  at-cut_right :
      (l : ℕ) (es : List (Extent P)) (x : ℕ)
      → Reaches l es
      → l ≤ x
      → at (cut_right l es).0 x ≡ at es x
  unfolding cut_right
  at-cut_right l [] x r h = refl
  at-cut_right l (e ∷ es) x r h = elim (lt_or_le e.base l) [
    | inl over ↦
        rw (ltb-true e.base l over, leb-true e.base l (omega arith), cut_right)
          (at-cut_after e es l x
            (record e {
              base = l;
              len = e.len - (l - e.base);
              ptr = t.plus e.ptr (l - e.base);
              d = true;
            })
            (omega arith) refl (omega arith) refl h)
    | inr from ↦ rw (ltb-false e.base l from, cut_right)
  ]

  -- What `_update` has before it inserts: the map without its part in the range, as the extents
  -- below the range and those from its end on.
  pub record Cleared (m : List (Extent P)) (b l : ℕ) (it : Iterator P) : Type 0 where
    pub before : Below b it.done
    pub after : Above l it.rest
    pub low : (x : ℕ) → x < b → at it.done x ≡ at m x
    pub high : (x : ℕ) → l ≤ x → at it.rest x ≡ at m x

  pub Found-high :
      (m : List (Extent P)) (b x : ℕ) (it : Iterator P)
      → Found m b it
      → b ≤ x
      → at it.rest x ≡ at m x
  Found-high m b x it f h = rw (
    ← f.same,
    at-whole it.done it.rest f.hi x f.before,
    at-Below it.done f.hi x f.before (le_trans f.hi-le h),
  )

  pub clear-Cleared :
      (m : List (Extent P)) (b l : ℕ) → IsSorted m → b < l → Cleared m b l (clear m b l).0
  unfolding clear
  clear-Cleared m b l v bl =
      let f = lower_bound-Found m b v in
      let it = lower_bound m b in
      let c = cut_left-LeftCut b l f.hi it.done it.rest bl f.hi-le f.before f.after f.reaches in
      let es₁ = (cut_left b l it.done it.rest).0.rest in
      let es₂ = (erase_covered b l es₁).0 in
      let reach = erase_covered-Reaches b l es₁ c.after in
      record {
        before = c.before;
        after = cut_right-Above b l es₂ (erase_covered-Above b l es₁ c.after) reach;
        low = λ x k.
            c.left x k ∙ (sym (at-whole it.done it.rest f.hi x f.before) ∙ ap (λ n. at n x) f.same);
        high = λ x k.
            at-cut_right l es₂ x reach k
            ∙ (at-erase_covered b l es₁ x k ∙ (c.right x k ∙ Found-high m b x it f (omega arith)));
      }
