-- ===== src/Extent/Map/Place.antt =====
-- src/extent.h, `_update`: inserting the new extent, merged with its neighbours or not.
use lsvd_rbd.Base.{
  ℕ, ◌+◌, ◌-◌, ◌≤◌, ◌<◌, ◌≡◌, refl, ap, true, ◌&&◌, leb, ltb, leb-false, if◌then◌else◌, some,
  Bool-cases, inl, inr, or_else, List, [], ◌∷◌, rev_append, arith,
}
use lsvd_rbd.Extent.{Target, Extent, limit, relimit, adjacent, at}
use lsvd_rbd.Extent.Order.{Above, Below, Above-mono, IsSorted, rev_append-IsSorted}
use lsvd_rbd.Extent.Map.{merge_next, insert_or_next, place}
use lsvd_rbd.Extent.Map.View.{at-whole, at-join}

module _ {P : Type 0} ⦃t : Target P⦄ where
  pub adjacent_parts :
      (p n : Extent P)
      → adjacent p n ≡ true
      → (limit p ≡ n.base) × (t.plus p.ptr (limit p - p.base) ≡ n.ptr)
  adjacent_parts p n h =
      (ground arith, t.beq→eq (t.plus p.ptr (limit p - p.base)) n.ptr (ground arith))

  at-merge_next :
      (p : Extent P) (es : List (Extent P)) (x : ℕ) → at (merge_next p es) x ≡ at (p ∷ es) x
  unfolding merge_next
  at-merge_next p [] x = refl
  at-merge_next p (n ∷ es) x = elim (Bool-cases (adjacent p n)) [
    | inl h ↦
        let (touch, follow) = adjacent_parts p n h in
        rw (h, merge_next)
          (at-join p n (relimit p (limit n)) es x refl (omega arith) refl touch follow)
    | inr h ↦ rw (h, merge_next)
  ]

  merge_next-Above :
      (lo : ℕ) (p : Extent P) (es : List (Extent P))
      → lo ≤ p.base
      → 0 < p.len
      → Above (limit p) es
      → Above lo (merge_next p es)
  unfolding merge_next
  merge_next-Above lo p [] h k v = (h, k, tt)
  merge_next-Above lo p (n ∷ es) h k v = elim (Bool-cases (adjacent p n)) [
    | inl e ↦ rw (e, merge_next) (h, omega arith, Above-mono es (omega arith) v.2)
    | inr e ↦ rw (e, merge_next) (h, k, v)
  ]

  at-insert_or_next :
      (e : Extent P) (es : List (Extent P)) (x : ℕ)
      → 0 < e.len
      → at (insert_or_next e es) x ≡ at (e ∷ es) x
  unfolding insert_or_next
  at-insert_or_next e [] x h = refl
  at-insert_or_next e (n ∷ es) x h = elim (Bool-cases (adjacent e n)) [
    | inl k ↦
        let (touch, follow) = adjacent_parts e n k in
        rw (k, leb-false n.base e.base (omega arith), insert_or_next)
          (at-join e n
            (record n {
              base = e.base;
              len = n.len + (n.base - e.base);
              ptr = t.minus n.ptr (n.base - e.base);
              d = true;
            })
            es x refl (omega arith) (rw (← follow, ← touch) (t.minus-plus e.ptr (limit e - e.base)))
            touch follow)
    | inr k ↦ rw (k, insert_or_next)
  ]

  insert_or_next-Above :
      (lo : ℕ) (e : Extent P) (es : List (Extent P))
      → lo ≤ e.base
      → 0 < e.len
      → Above (limit e) es
      → Above lo (insert_or_next e es)
  unfolding insert_or_next
  insert_or_next-Above lo e [] h k v = (h, k, tt)
  insert_or_next-Above lo e (n ∷ es) h k v = elim (Bool-cases (adjacent e n)) [
    | inl a ↦
        rw (a, leb-false n.base e.base (omega arith), insert_or_next)
          (h, omega arith, Above-mono es (omega arith) v.2)
    | inr a ↦ rw (a, insert_or_next) (h, k, v)
  ]

  -- Whichever way the extent is put in, it maps what it would map as an extent of its own.
  pub at-place :
      (e : Extent P) (ds es : List (Extent P)) (x : ℕ)
      → 0 < e.len
      → Below e.base ds
      → at (place e ds es) x ≡ at (rev_append ds (e ∷ es)) x
  unfolding place
  at-place e [] es x h v = at-insert_or_next e es x h
  at-place e (p ∷ ds) es x h v = elim (Bool-cases (adjacent p e)) [
    | inl k ↦
        let (touch, follow) = adjacent_parts p e k in
        let p' = relimit p (limit e) in
        rw
          (
            k,
            place,
            at-whole ds (merge_next p' es) p.base x v.2,
            at-whole ds (p ∷ e ∷ es) p.base x v.2,
            at-merge_next p' es x,
          )
          (ap (or_else (at ds x)) (at-join p e p' es x refl (omega arith) refl touch follow))
    | inr k ↦
        rw
          (
            k,
            place,
            at-whole ds (p ∷ insert_or_next e es) p.base x v.2,
            at-whole ds (p ∷ e ∷ es) p.base x v.2,
          )
          (ap
            (λ o.
              or_else (at ds x)
                (if leb p.base x && ltb x (limit p) then some (t.plus p.ptr (x - p.base)) else o))
            (at-insert_or_next e es x h))
  ]

  pub place-IsSorted :
      (e : Extent P) (ds es : List (Extent P))
      → 0 < e.len
      → Below e.base ds
      → Above (limit e) es
      → IsSorted (place e ds es)
  unfolding place
  place-IsSorted e [] es h v w = insert_or_next-Above 0 e es (omega arith) h w
  place-IsSorted e (p ∷ ds) es h v w = elim (Bool-cases (adjacent p e)) [
    | inl k ↦
        rw (k, place)
          (rev_append-IsSorted ds _ p.base v.2 (
            merge_next-Above p.base (relimit p (limit e)) es (omega arith) (ground arith)
              (Above-mono es (ground arith) w)))
    | inr k ↦
        rw (k, place)
          (rev_append-IsSorted (p ∷ ds) _ e.base v
            (insert_or_next-Above e.base e es (omega arith) h w))
  ]
