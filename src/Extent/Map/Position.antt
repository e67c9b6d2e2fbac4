-- ===== src/Extent/Map/Position.antt =====
-- src/extent.h, `lower_bound`: which position it finds.
use lsvd_rbd.Base.{
  ℕ, suc, ◌≤◌, ◌<◌, ◌≡◌, refl, inl, inr, lt_or_le, ltb-true, ltb-false, test-pos, test-neg, List,
  [], ◌∷◌, rev_append, arith,
}
use lsvd_rbd.Extent.{Extent, limit}
use lsvd_rbd.Extent.Order.{Above, Below, Above-mono, Below-mono, IsSorted}
use lsvd_rbd.Extent.Map.{Iterator, whole, seek, back_up, lower_bound}

module _ {P : Type 0} where
  -- The first extent from the position on reaches past `b`.
  abbrev pub Reaches : ℕ → List (Extent P) → Type 0
  Reaches b [] = Unit {0}
  Reaches b (e ∷ es) = b < limit e

  -- The position splits the map where the extents begin to reach past `b`.
  pub record Found (m : List (Extent P)) (b : ℕ) (it : Iterator P) : Type 0 where
    pub hi : ℕ
    pub hi-le : hi ≤ b
    pub before : Below hi it.done
    pub after : Above hi it.rest
    pub reaches : Reaches b it.rest
    pub same : whole it ≡ m

  abbrev StartsAt : ℕ → List (Extent P) → Type 0
  StartsAt b [] = Unit {0}
  StartsAt b (e ∷ es) = b ≤ e.base

  abbrev StartsBelow : ℕ → List (Extent P) → Type 0
  StartsBelow b [] = Unit {0}
  StartsBelow b (e ∷ ds) = e.base < b

  StartsAt-Above : (b top : ℕ) (es : List (Extent P)) → StartsAt b es → Above top es → Above b es
  StartsAt-Above b top [] h v = tt
  StartsAt-Above b top (e ∷ es) h v = (h, v.1, v.2)

  StartsAt-Reaches :
      (b top : ℕ) (es : List (Extent P)) → StartsAt b es → Above top es → Reaches b es
  StartsAt-Reaches b top [] h v = tt
  StartsAt-Reaches b top (e ∷ es) h v = omega arith

  back_up-Found :
      (b top : ℕ) (ds es : List (Extent P))
      → Below top ds
      → Above top es
      → StartsBelow b ds
      → StartsAt b es
      → Found (rev_append ds es) b (back_up b ds es)
  unfolding back_up
  back_up-Found b top [] es v w low h = record {
    hi = b;
    hi-le = omega arith;
    before = tt;
    after = StartsAt-Above b top es h w;
    reaches = StartsAt-Reaches b top es h w;
    same = refl;
  }
  back_up-Found b top (p ∷ ds) es v w low h = elim (lt_or_le b (limit p)) [
    | inl over ↦
        rw (test-pos p.base b (limit p) (omega arith) over, back_up)
          (record {
            hi = p.base;
            hi-le = omega arith;
            before = v.2;
            after = (omega arith, v.1, Above-mono es v.0 w);
            reaches = over;
            same = refl;
          })
    | inr under ↦
        rw (test-neg p.base b (limit p) under, back_up)
          (record {
            hi = b;
            hi-le = omega arith;
            before = (under, v.1, v.2);
            after = StartsAt-Above b top es h w;
            reaches = StartsAt-Reaches b top es h w;
            same = refl;
          })
  ]

  seek-Found :
      (b top : ℕ) (ds es : List (Extent P))
      → Below top ds
      → Above top es
      → StartsBelow b ds
      → Found (rev_append ds es) b (back_up b (seek b ds es).done (seek b ds es).rest)
  unfolding seek
  seek-Found b top ds [] v w low = back_up-Found b top ds [] v w low tt
  seek-Found b top ds (e ∷ es) v w low = elim (lt_or_le b (suc e.base)) [
    | inl at_or_past ↦
        rw (ltb-false e.base b (omega arith), seek)
          (back_up-Found b top ds (e ∷ es) v w low (omega arith))
    | inr under ↦
        rw (ltb-true e.base b under, seek)
          (seek-Found b (limit e) (e ∷ ds) es (omega arith, w.1, Below-mono ds w.0 v) w.2 under)
  ]

  -- `lower_bound` splits a map in order where its extents begin to reach past `b`.
  pub lower_bound-Found : (m : List (Extent P)) (b : ℕ) → IsSorted m → Found m b (lower_bound m b)
  unfolding lower_bound
  lower_bound-Found m b v = seek-Found b 0 [] m tt v tt
