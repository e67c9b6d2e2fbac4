-- ===== src/Extent/Map/View.antt =====
-- src/extent.h: the abstract view of a map at a position and on either side of it.
use lsvd_rbd.Base.{
  ℕ, ◌-◌, ◌≤◌, ◌<◌, ◌≡◌, refl, ap, ◌∙◌, none, some, or_else, or_else-none, List, [], ◌∷◌, ◌++◌,
  rev_append, test-pos, test-neg, test-below, leb, ltb, ◌&&◌, Bool-cases, lt_or_le, inl, inr, arith,
}
use lsvd_rbd.Extent.{Target, Extent, limit, relimit, at}
use lsvd_rbd.Extent.Order.{Above, Below}

module _ {P : Type 0} ⦃t : Target P⦄ where
  -- Nothing is mapped past the extents before a position.
  pub at-Below : (ds : List (Extent P)) (hi x : ℕ) → Below hi ds → hi ≤ x → at ds x ≡ none
  at-Below [] hi x v h = refl
  at-Below (d ∷ ds) hi x v h =
      rw (test-neg d.base x (limit d) (omega arith)) (at-Below ds d.base x v.2 (omega arith))

  -- Nor is anything mapped below the extents from a position on.
  pub at-Above : (es : List (Extent P)) (lo x : ℕ) → Above lo es → x < lo → at es x ≡ none
  at-Above [] lo x v h = refl
  at-Above (e ∷ es) lo x v h =
      rw (test-below e.base x (limit e) (omega arith)) (at-Above es (limit e) x v.2 (omega arith))

  at-swap :
      (d : Extent P) (ds es : List (Extent P)) (x : ℕ)
      → Below d.base ds
      → or_else (at ds x) (at (d ∷ es) x) ≡ or_else (at (d ∷ ds) x) (at es x)
  at-swap d ds es x v = elim (Bool-cases (leb d.base x && ltb x (limit d))) [
    | inl hit ↦ rw (hit, at-Below ds d.base x v (ground arith))
    | inr miss ↦ rw miss
  ]

  -- The whole map is what stands before the position, or else what stands from it on.
  pub at-whole :
      (ds es : List (Extent P)) (hi x : ℕ)
      → Below hi ds
      → at (rev_append ds es) x ≡ or_else (at ds x) (at es x)
  at-whole [] es hi x v = refl
  at-whole (d ∷ ds) es hi x v = at-whole ds (d ∷ es) d.base x v.2 ∙ at-swap d ds es x v.2

  pub at-append : (xs ys : List (Extent P)) (x : ℕ) → at (xs ++ ys) x ≡ or_else (at xs x) (at ys x)
  at-append [] ys x = refl
  at-append (e ∷ xs) ys x = elim (Bool-cases (leb e.base x && ltb x (limit e))) [
    | inl hit ↦ rw hit
    | inr miss ↦ rw miss (at-append xs ys x)
  ]

  -- An extent that ends at or below a sector does not map it.
  pub at-skip :
      (e : Extent P) (es : List (Extent P)) (x : ℕ) → limit e ≤ x → at (e ∷ es) x ≡ at es x
  at-skip e es x h = rw (test-neg e.base x (limit e) h)

  pub at-hit :
      (e : Extent P) (es : List (Extent P)) (x : ℕ)
      → e.base ≤ x
      → x < limit e
      → at (e ∷ es) x ≡ some (t.plus e.ptr (x - e.base))
  at-hit e es x h k = rw (test-pos e.base x (limit e) h k)

  pub at-miss : (e : Extent P) (es : List (Extent P)) (x : ℕ) → x < e.base → at (e ∷ es) x ≡ at es x
  at-miss e es x h = rw (test-below e.base x (limit e) h)

  -- What is left of an extent below `b` maps what it did.
  pub at-cut_before :
      (e : Extent P) (ds es : List (Extent P)) (b x : ℕ)
      → Below e.base ds
      → Above (limit e) es
      → e.base < b
      → b ≤ limit e
      → x < b
      → at (relimit e b ∷ ds) x ≡ or_else (at ds x) (at (e ∷ es) x)
  at-cut_before e ds es b x v w h k xb = elim (lt_or_le x e.base) [
    | inl low ↦ rw (
      at-miss (relimit e b) ds x low,
      at-miss e es x low,
      at-Above es (limit e) x w (omega arith),
      or_else-none (at ds x),
    )
    | inr high ↦ rw (
      at-hit (relimit e b) ds x high (omega arith),
      at-hit e es x high (omega arith),
      at-Below ds e.base x v high,
    )
  ]

  -- What is left of an extent from `l` on maps what it did.
  pub at-cut_after :
      (e : Extent P) (es : List (Extent P)) (l x : ℕ) (y : Extent P)
      → e.base ≤ l
      → y.base ≡ l
      → limit y ≡ limit e
      → y.ptr ≡ t.plus e.ptr (l - e.base)
      → l ≤ x
      → at (y ∷ es) x ≡ at (e ∷ es) x
  at-cut_after e es l x y h yb yl yp lx = elim (lt_or_le x (limit e)) [
    | inl inside ↦
        rw
          (
            at-hit y es x (omega arith) (omega arith),
            at-hit e es x (omega arith) inside,
            yp,
            yb,
            t.plus-plus e.ptr (l - e.base) (x - l),
          )
          (ap (λ k. some (t.plus e.ptr k)) (omega arith))
    | inr past ↦ rw (at-skip y es x (omega arith), at-skip e es x past)
  ]

  at-cut_second :
      (p n y : Extent P) (es : List (Extent P)) (x : ℕ)
      → y.base ≡ p.base
      → limit y ≡ limit n
      → y.ptr ≡ p.ptr
      → limit p ≡ n.base
      → t.plus p.ptr (limit p - p.base) ≡ n.ptr
      → limit p ≤ x
      → at (y ∷ es) x ≡ at (n ∷ es) x
  at-cut_second p n y es x yb yl yp touch follow past = elim (lt_or_le x (limit n)) [
    | inl second ↦
        rw
          (
            at-hit y es x (omega arith) (omega arith),
            at-hit n es x (omega arith) second,
            ← follow,
            yp,
            yb,
            t.plus-plus p.ptr (limit p - p.base) (x - n.base),
          )
          (ap (λ k. some (t.plus p.ptr k)) (omega arith))
    | inr beyond ↦ rw (at-skip y es x (omega arith), at-skip n es x beyond)
  ]

  -- One extent in place of two that are adjacent, inside the file and in what they map to.
  pub at-join :
      (p n y : Extent P) (es : List (Extent P)) (x : ℕ)
      → y.base ≡ p.base
      → limit y ≡ limit n
      → y.ptr ≡ p.ptr
      → limit p ≡ n.base
      → t.plus p.ptr (limit p - p.base) ≡ n.ptr
      → at (y ∷ es) x ≡ at (p ∷ n ∷ es) x
  at-join p n y es x yb yl yp touch follow = elim (lt_or_le x p.base) [
    | inl low ↦
        rw (at-miss y es x (omega arith), at-miss p (n ∷ es) x low, at-miss n es x (omega arith))
    | inr from ↦ elim (lt_or_le x (limit p)) [
      | inl first ↦
          rw (at-hit y es x (omega arith) (omega arith), at-hit p (n ∷ es) x from first, yp, yb)
      | inr past ↦
          rw (at-skip p (n ∷ es) x past) (at-cut_second p n y es x yb yl yp touch follow past)
    ]
  ]
