-- ===== src/Extent/Lists/Passed.antt =====
-- src/extent.h, `lower_bound`: which extent of a list is the first to reach past a base.
use lsvd_rbd.Base.{
  suc_sub_one, ℕ, zero, suc, ◌+◌, ◌-◌, ◌≤◌, ◌<◌, ◌≡◌, refl, sym, ap, inl, inr, Bool-cases, lt_or_le,
  ltb, ltb-true, ltb-false, test-pos, test-neg, ◌&&◌, if◌then◌else◌, List, [], ◌∷◌, ◌++◌, length,
  rev_append, arith,
}
use lsvd_rbd.Extent.{Extent, limit}
use lsvd_rbd.Extent.Order.{Above, Below, IsSorted}
use lsvd_rbd.Extent.Map
use lsvd_rbd.Extent.Map.Position.{Found, Reaches, lower_bound-Found}
use lsvd_rbd.Extent.Lists.{last_limit, seek_base, reaches_over}

module _ {P : Type 0} where
  -- The place of the first extent that reaches past `b`.
  unfoldable pub passed : ℕ → List (Extent P) → ℕ
  passed b [] = 0
  passed b (e ∷ es) = let on = passed b es in if ltb b (limit e) then 0 else suc on

  passed-over :
      (b : ℕ) (e : Extent P) (es : List (Extent P))
      → limit e ≤ b
      → passed b (e ∷ es) ≡ suc (passed b es)
  unfolding passed
  passed-over b e es h = rw (ltb-false b (limit e) h) refl

  passed-rev :
      (b hi : ℕ) (ds es : List (Extent P))
      → Below hi ds
      → hi ≤ b
      → passed b (rev_append ds es) ≡ length ds + passed b es
  passed-rev b hi [] es v h = omega arith
  passed-rev b hi (d ∷ ds) es v h =
      rw (passed-rev b d.base ds (d ∷ es) v.2 (omega arith), passed-over b d es (omega arith))
        (omega arith)

  passed-here : (b : ℕ) (es : List (Extent P)) → Reaches b es → passed b es ≡ 0
  unfolding passed
  passed-here b [] h = refl
  passed-here b (e ∷ es) h = rw (ltb-true b (limit e) h) refl

  pub lower_bound-passed :
      (m : List (Extent P)) (b : ℕ) → IsSorted m → length (Map.lower_bound m b).done ≡ passed b m
  lower_bound-passed m b v =
      let f : Found m b (Map.lower_bound m b) = lower_bound-Found m b v in
      let it : Map.Iterator P = Map.lower_bound m b in
      let split : passed b (rev_append it.done it.rest) ≡ length it.done + passed b it.rest =
        passed-rev b f.hi it.done it.rest f.before f.hi-le in
      let same : passed b m ≡ passed b (rev_append it.done it.rest) =
        ap (λ t. passed b t) (sym f.same) in
      omega (arith, same, split, passed-here b it.rest f.reaches)

  seek_base-none : (b lo : ℕ) (es : List (Extent P)) → b ≤ lo → Above lo es → seek_base b es ≡ 0
  unfolding seek_base
  seek_base-none b lo [] h v = refl
  seek_base-none b lo (e ∷ es) h v = rw (ltb-false e.base b (omega arith)) refl

  -- The place that the search by base and the look at the extent before find in a list.
  unfoldable pub pick : ℕ → List (Extent P) → ℕ
  pick b l =
      if ltb 0 (seek_base b l) && reaches_over b l (seek_base b l - 1)
      then seek_base b l - 1
      else seek_base b l

  pick_under :
      (b : ℕ) (e : Extent P) (es : List (Extent P))
      → limit e ≤ b
      → (j : ℕ)
      → (if ltb 0 (suc j) && reaches_over b (e ∷ es) (suc j - 1) then suc j - 1 else suc j)
        ≡ suc (if ltb 0 j && reaches_over b es (j - 1) then j - 1 else j)
  unfolding reaches_over
  pick_under b e es h zero = rw (test-neg e.base b (limit e) h) refl
  pick_under b e es h (suc k) =
      rw
        (
          suc_sub_one (suc k),
          suc_sub_one k,
          ltb-true 0 (suc (suc k)) (omega arith),
          ltb-true 0 (suc k) (omega arith),
        )
        (elim (Bool-cases (reaches_over b es k)) [ inl t ↦ rw t refl | inr f ↦ rw f refl ])

  pub pick-passed : (b lo : ℕ) (l : List (Extent P)) → Above lo l → pick b l ≡ passed b l
  unfolding pick passed seek_base reaches_over
  pick-passed b lo [] v = refl
  pick-passed b lo (e ∷ es) v = elim (lt_or_le b (limit e)) [
    | inl over ↦ elim (lt_or_le e.base b) [
      | inl low ↦
          rw
            (
              ltb-true b (limit e) over,
              ltb-true e.base b low,
              seek_base-none b (limit e) es (omega arith) v.2,
            )
            (rw (test-pos e.base b (limit e) (omega arith) over) refl)
      | inr high ↦ rw (ltb-true b (limit e) over, ltb-false e.base b high) refl
    ]
    | inr under ↦
        rw
          (
            ltb-false b (limit e) under,
            ltb-true e.base b (omega arith),
            sym (pick-passed b (limit e) es v.2),
          )
          (pick_under b e es under (seek_base b es))
  ]

  pub Above-after :
      (lo : ℕ) (l zs : List (Extent P))
      → Above lo (l ++ zs)
      → 0 < length l
      → Above (last_limit l) zs × (lo < last_limit l)
  Above-after lo [] zs v some = absurd (omega arith)
  Above-after lo (e ∷ []) zs v some = (v.2, omega arith)
  Above-after lo (e ∷ f ∷ es) zs v some =
      let rest : Above (last_limit (f ∷ es)) zs × (limit e < last_limit (f ∷ es)) =
        Above-after (limit e) (f ∷ es) zs v.2 (omega arith) in
      (rest.0, omega arith)

  pub Above-left : (lo : ℕ) (l zs : List (Extent P)) → Above lo (l ++ zs) → Above lo l
  Above-left lo [] zs v = tt
  Above-left lo (e ∷ l) zs v = (v.0, v.1, Above-left (limit e) l zs v.2)

  -- A list that does not reach past `b` is passed as a whole; the one that does ends the search.
  pub passed-whole :
      (b lo : ℕ) (l zs : List (Extent P))
      → Above lo (l ++ zs)
      → last_limit l ≤ b
      → passed b (l ++ zs) ≡ length l + passed b zs
  passed-whole b lo [] zs v h = omega arith
  passed-whole b lo (e ∷ []) zs v h = rw (passed-over b e zs h) (omega arith)
  passed-whole b lo (e ∷ f ∷ es) zs v h =
      let under : limit e ≤ b =
        let past : Above (last_limit (f ∷ es)) zs × (limit e < last_limit (f ∷ es)) =
          Above-after (limit e) (f ∷ es) zs v.2 (omega arith) in
        omega (arith, past.1, h) in
      rw (passed-over b e (f ∷ (es ++ zs)) under)
        (omega (arith, passed-whole b (limit e) (f ∷ es) zs v.2 h))

  pub passed-inside :
      (b lo : ℕ) (l zs : List (Extent P))
      → Above lo (l ++ zs)
      → 0 < length l
      → b < last_limit l
      → (passed b (l ++ zs) ≡ passed b l) × (passed b l < length l)
  unfolding passed
  passed-inside b lo [] zs v some h = absurd (omega arith)
  passed-inside b lo (e ∷ []) zs v some h = rw (ltb-true b (limit e) h) (refl, omega arith)
  passed-inside b lo (e ∷ f ∷ es) zs v some h =
      let rest : (passed b ((f ∷ es) ++ zs) ≡ passed b (f ∷ es))
          × (passed b (f ∷ es) < length (f ∷ es)) =
        passed-inside b (limit e) (f ∷ es) zs v.2 (omega arith) h in
      elim (lt_or_le b (limit e)) [
        | inl over ↦ rw (ltb-true b (limit e) over) (refl, omega arith)
        | inr under ↦ rw (ltb-false b (limit e) under) (ap suc rest.0, omega (arith, rest.1))
      ]
