-- ===== src/Extent/Map/Weight.antt =====
-- src/extent.h, `_update`: how many sectors point where, before and after, and in what is discarded.
use lsvd_rbd.Base.{
  ℕ, ◌+◌, ◌-◌, ◌<◌, ◌≡◌, refl, ap, Bool, ◌&&◌, leb, ltb-true, ltb-false, leb-true, leb-false,
  if◌then◌else◌, Bool-cases, inl, inr, lt_or_le, List, [], ◌∷◌, ◌++◌, rev_append, arith,
}
use lsvd_rbd.Extent.{Target, Extent, limit, new_extent, relimit, adjacent}
use lsvd_rbd.Extent.Order.{IsSorted}
use lsvd_rbd.Extent.Map.{
  lower_bound, cut_left, erase_covered, cut_right, clear, merge_next, insert_or_next, place, update,
  trim,
}
use lsvd_rbd.Extent.Map.Position.{Reaches, lower_bound-Found}
use lsvd_rbd.Extent.Map.Clear.{cut_left-LeftCut, erase_covered-Reaches}
use lsvd_rbd.Extent.Map.Place.{adjacent_parts}

-- The sectors of the extents whose targets pass a test.
abbrev pub weight : {P : Type 0} → (P → Bool) → List (Extent P) → ℕ
weight f [] = 0
weight f (e ∷ es) = (if f e.ptr then e.len else 0) + weight f es

module _ {P : Type 0} (f : P → Bool) where
  pub weight-append : (xs ys : List (Extent P)) → weight f (xs ++ ys) ≡ weight f xs + weight f ys
  weight-append [] ys = omega arith
  weight-append (e ∷ xs) ys = omega (arith, weight-append xs ys)

  pub weight-rev_append :
      (ds es : List (Extent P)) → weight f (rev_append ds es) ≡ weight f ds + weight f es
  weight-rev_append [] es = omega arith
  weight-rev_append (d ∷ ds) es = omega (arith, weight-rev_append ds (d ∷ es))

-- A test that does not tell the sectors of one object apart.
module _ {P : Type 0} ⦃t : Target P⦄ (f : P → Bool)
    (stable : (p : P) (n : ℕ) → f (t.plus p n) ≡ f p) where
  weight-cut_left :
      (b l : ℕ) (ds es : List (Extent P))
      → b < l
      → let (it, del) = cut_left b l ds es in
        weight f it.done + weight f it.rest + weight f del ≡ weight f ds + weight f es
  unfolding cut_left
  weight-cut_left b l ds [] h = omega arith
  weight-cut_left b l ds (e ∷ es) h =
      ground (arith, stable e.ptr (l - e.base), stable e.ptr (b - e.base))

  weight-erase_covered :
      (b l : ℕ) (es : List (Extent P))
      → weight f (erase_covered b l es).0 + weight f (erase_covered b l es).1 ≡ weight f es
  unfolding erase_covered
  weight-erase_covered b l [] = omega arith
  weight-erase_covered b l (e ∷ es) = elim (Bool-cases (leb b e.base && leb (limit e) l)) [
    | inl h ↦ rw (h, erase_covered) (omega (arith, weight-erase_covered b l es))
    | inr h ↦ rw (h, erase_covered) (omega arith)
  ]

  weight-cut_right :
      (l : ℕ) (es : List (Extent P))
      → Reaches l es
      → weight f (cut_right l es).0 + weight f (cut_right l es).1 ≡ weight f es
  unfolding cut_right
  weight-cut_right l [] r = omega arith
  weight-cut_right l (e ∷ es) r = elim (lt_or_le e.base l) [
    | inl over ↦
        rw (ltb-true e.base l over, leb-true e.base l (omega arith), cut_right)
          (rw stable (ground arith))
    | inr from ↦ rw (ltb-false e.base l from, cut_right) (omega arith)
  ]

  weight-merge_next :
      (p : Extent P) (es : List (Extent P)) → weight f (merge_next p es) ≡ weight f (p ∷ es)
  unfolding merge_next
  weight-merge_next p [] = refl
  weight-merge_next p (n ∷ es) = elim (Bool-cases (adjacent p n)) [
    | inl h ↦
        let (touch, follow) = adjacent_parts p n h in
        rw (h, ← follow, stable, merge_next) (ground arith)
    | inr h ↦ rw (h, merge_next)
  ]

  weight-insert_or_next :
      (e : Extent P) (es : List (Extent P))
      → 0 < e.len
      → weight f (insert_or_next e es) ≡ weight f (e ∷ es)
  unfolding insert_or_next
  weight-insert_or_next e [] h = refl
  weight-insert_or_next e (n ∷ es) h = elim (Bool-cases (adjacent e n)) [
    | inl k ↦
        let (touch, follow) = adjacent_parts e n k in
        rw (k, leb-false n.base e.base (omega arith), insert_or_next)
          (rw (← follow, ← touch, t.minus-plus e.ptr (limit e - e.base), stable) (ground arith))
    | inr k ↦ rw (k, insert_or_next)
  ]

  weight-place :
      (e : Extent P) (ds es : List (Extent P))
      → 0 < e.len
      → weight f (place e ds es) ≡ weight f ds + weight f (e ∷ es)
  unfolding place
  weight-place e [] es h = omega (arith, weight-insert_or_next e es h)
  weight-place e (p ∷ ds) es h = elim (Bool-cases (adjacent p e)) [
    | inl k ↦
        let (touch, follow) = adjacent_parts p e k in
        let p' = relimit p (limit e) in
        rw
          (
            k,
            place,
            weight-rev_append f ds (merge_next p' es),
            weight-merge_next p' es,
            ← follow,
            stable,
          )
          (ground arith)
    | inr k ↦
        rw (k, place)
          (omega
            (arith, weight-rev_append f ds (p ∷ insert_or_next e es), weight-insert_or_next e es h))
  ]

  weight-clear :
      (m : List (Extent P)) (b l : ℕ)
      → IsSorted m
      → b < l
      → let (it, del) = clear m b l in
        weight f it.done + weight f it.rest + weight f del ≡ weight f m
  unfolding clear
  weight-clear m b l v bl =
      let q = lower_bound-Found m b v in
      let it = lower_bound m b in
      let c = cut_left-LeftCut b l q.hi it.done it.rest bl q.hi-le q.before q.after q.reaches in
      let it₁ = (cut_left b l it.done it.rest).0 in
      let del₁ = (cut_left b l it.done it.rest).1 in
      let (es₂, del₂) = erase_covered b l it₁.rest in
      let (es₃, del₃) = cut_right l es₂ in
      omega (
        arith,
        weight-cut_left b l it.done it.rest bl,
        weight-erase_covered b l it₁.rest,
        weight-cut_right l es₂ (erase_covered-Reaches b l it₁.rest c.after),
        weight-append f del₁ (del₂ ++ del₃),
        weight-append f del₂ del₃,
        weight-rev_append f it.done it.rest,
        ap (weight f) q.same,
      )

  -- For a map in order, a nonempty range, and a test of targets that the next sectors of a target pass
  -- as it does (to lie in one object): the sectors that pass it after `update`, with those discarded,
  -- are those that passed it before, and the range if its target passes.
  pub weight-update :
      (m : List (Extent P)) (b l : ℕ) (p : P)
      → IsSorted m
      → b < l
      → let (m', del) = update m b l p in
        weight f m' + weight f del ≡ weight f m + (if f p then l - b else 0)
  unfolding update
  weight-update [] b l p v h = omega arith
  weight-update (e ∷ es) b l p v h =
      let (it, del) = clear (e ∷ es) b l in
      omega (
        arith,
        weight-clear (e ∷ es) b l v h,
        weight-place (new_extent b (l - b) p) it.done it.rest (omega arith),
      )

  -- The sectors that point to an object after `trim`, with those discarded, are those before.
  pub weight-trim :
      (m : List (Extent P)) (b l : ℕ)
      → IsSorted m
      → b < l
      → let (m', del) = trim m b l in weight f m' + weight f del ≡ weight f m
  unfolding trim
  weight-trim [] b l v h = omega arith
  weight-trim (e ∷ es) b l v h =
      let (it, del) = clear (e ∷ es) b l in
      omega (arith, weight-clear (e ∷ es) b l v h, weight-rev_append f it.done it.rest)
