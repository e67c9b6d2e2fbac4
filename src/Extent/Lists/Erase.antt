-- ===== src/Extent/Lists/Erase.antt =====
-- src/extent.h, `_erase`: it takes out the extent at an iterator.
use lsvd_rbd.Base.{
  not_zero, ℕ, ◌+◌, ◌-◌, ◌*◌, ◌/◌, ◌≤◌, ◌<◌, ◌≡◌, refl, sym, ap, subst, ◌∙◌, inl, inr, lt_or_le,
  ltb-true, ltb-false, List, [], ◌∷◌, ◌++◌, map, length, length-append, arith,
}
use lsvd_rbd.Extent.{Extent}
use lsvd_rbd.Extent.Lists.{
  Lists, Position, nth, erase_at, last_limit, end, take_out, rebalance, settle, erase,
}
use lsvd_rbd.Extent.Lists.Split.{
  flat, parts, Parts, flat-append, nth-append, offset-append, set-append, erase_at-append,
  erase_at-middle, length-erase_at, map-set, map-erase_at,
}
use lsvd_rbd.Extent.Lists.Shape.{
  Sizes, Halves, Sizes-left, Sizes-right, Sizes-append, Halves-left, Halves-right, WellFormed,
  index, AtExtent,
}
use lsvd_rbd.Extent.Lists.Join.{Balanced}
use lsvd_rbd.Extent.Lists.Rebalance.{rebalance-Balanced}
use lsvd_rbd.Extent.Lists.Settle.{Rests, Settled, settle-Settled}

nothing : {A : Type 0} (xs : List A) → length xs ≤ 0 → xs ≡ []
nothing [] h = refl
nothing (x ∷ xs) h = absurd (omega arith)

module _ {P : Type 0} where
  -- The extents without the one at the place of the iterator, and an iterator to the next or to the
  -- end.
  pub record Erased (load : ℕ) (s : Lists P) (it : Position) (r : Lists P × Position) : Type 0 where
    pub well : WellFormed load r.0
    pub extents : flat r.0.lists ≡ erase_at (flat s.lists) (index s it)
    pub kept : index r.0 r.1 ≡ index s it
    pub rests : Rests r.0 r.1

  -- The lists without the extent, before they are balanced.
  thinned : Lists P → List (List (Extent P)) → Lists P
  thinned s ls = record { lists = ls; maxes = map last_limit ls; count = s.count - 1 }

  thinned_lists : (s : Lists P) (ls : List (List (Extent P))) → (thinned s ls).lists ≡ ls
  unfolding thinned
  thinned_lists s ls = refl

  thinned_more :
      (s : Lists P) (xs : List (List (Extent P))) (l : List (Extent P))
      (ys : List (List (Extent P)))
      → 0 < length (thinned s (xs ++ (l ∷ ys))).lists
  unfolding thinned
  thinned_more s xs l ys = rw (length-append xs (l ∷ ys)) (omega arith)

  erase_more :
      (load : ℕ) (s : Lists P) (it : Position)
      → 0 < length (take_out s it).lists
      → erase load s it ≡ (
        (rebalance load (take_out s it) it).0,
        settle (rebalance load (take_out s it) it).0 (rebalance load (take_out s it) it).1,
      )
  unfolding erase
  erase_more load s it h = rw (not_zero (length (take_out s it).lists) h) refl

  erase_last :
      (load : ℕ) (s : Lists P) (it : Position)
      → length (take_out s it).lists ≡ 0
      → erase load s it ≡ (take_out s it, end (take_out s it))
  unfolding erase
  erase_last load s it h = rw h refl

  module _ (load : ℕ) (some_load : 1 < load) (s : Lists P) (v : WellFormed load s)
      (xs : List (List (Extent P))) (l : List (Extent P)) (ys : List (List (Extent P))) (j : ℕ)
      (whole : s.lists ≡ (xs ++ (l ∷ ys))) (k : j < length l) where
    sizes : Sizes load (xs ++ (l ∷ ys))
    sizes = rw (whole) at v.sizes

    here : Sizes load (l ∷ ys)
    here = Sizes-right load xs (l ∷ ys) sizes

    counted : s.count ≡ length (flat xs) + (length l + length (flat ys))
    counted =
        rw
          (
            v.counted,
            whole,
            flat-append xs (l ∷ ys),
            length-append (flat xs) (l ++ flat ys),
            length-append l (flat ys),
          )
          refl

    take_out_some :
        0 < length (erase_at l j)
        → take_out s (record { i = length xs; j = j }) ≡ thinned s (xs ++ (erase_at l j ∷ ys))
    unfolding take_out thinned
    take_out_some h =
        rw
          (
            v.maxima,
            whole,
            nth-append xs l ys,
            ltb-true 0 (length (erase_at l j)) h,
            set-append xs l ys (erase_at l j),
            sym (map-set last_limit (xs ++ (l ∷ ys)) (length xs) (erase_at l j)),
            set-append xs l ys (erase_at l j),
          )
          refl

    take_out_all :
        length (erase_at l j) ≤ 0
        → take_out s (record { i = length xs; j = j }) ≡ thinned s (xs ++ ys)
    unfolding take_out thinned
    take_out_all h =
        rw
          (
            v.maxima,
            whole,
            nth-append xs l ys,
            ltb-false 0 (length (erase_at l j)) h,
            erase_at-append xs l ys,
            sym (map-erase_at last_limit (xs ++ (l ∷ ys)) (length xs)),
            erase_at-append xs l ys,
          )
          refl

    -- Of several lists, the others are not short.
    others : 1 < length (xs ++ (l ∷ ys)) → (load / 2 < length l) × Halves load xs × Halves load ys
    others h =
        let all : Halves load (xs ++ (l ∷ ys)) = rw (whole) at (v.halves (rw whole h)) in
        let right : Halves load (l ∷ ys) = Halves-right load xs (l ∷ ys) all in
        (right.0, Halves-left load xs (l ∷ ys) all, right.1)

    thinned-Balanced :
        0 < length (erase_at l j)
        → Balanced load (thinned s (xs ++ (erase_at l j ∷ ys))) (length (flat xs) + j) (
            rebalance load
              (thinned s (xs ++ (erase_at l j ∷ ys)))
              (record { i = length xs; j = j }))
    unfolding thinned
    thinned-Balanced h =
        let less : length (erase_at l j) + 1 ≡ length l = length-erase_at l j k in
        let short : length l < load * 2 = here.1 in
        rebalance-Balanced load (thinned s (xs ++ (erase_at l j ∷ ys))) (omega arith) refl
          (Sizes-append load xs (erase_at l j ∷ ys) (Sizes-left load xs (l ∷ ys) sizes)
            (h, omega arith, here.2))
          (rw
            (
              flat-append xs (erase_at l j ∷ ys),
              length-append (flat xs) (erase_at l j ++ flat ys),
              length-append (erase_at l j) (flat ys),
            )
            (omega (arith, counted, less)))
          xs (erase_at l j) ys j refl (omega arith)
          (λ several.
            let rest : (load / 2 < length l) × Halves load xs × Halves load ys = others (
              rw (length-append xs (l ∷ ys))
                (rw (length-append xs (erase_at l j ∷ ys)) at several)) in
            (rest.1, rest.2))

    erase_some :
        0 < length (erase_at l j)
        → Erased load s
            (record { i = length xs; j = j })
            (erase load s (record { i = length xs; j = j }))
    erase_some h =
        let s₁ : Lists P = thinned s (xs ++ (erase_at l j ∷ ys)) in
        let r : Lists P × Position = rebalance load s₁ (record { i = length xs; j = j }) in
        let b : Balanced load s₁ (length (flat xs) + j) r = thinned-Balanced h in
        let t : Settled r.0 r.1 (settle r.0 r.1) =
          settle-Settled load r.0 r.1 b.well.sizes b.within in
        rw
          (
            erase_more load s (record { i = length xs; j = j })
                (rw (take_out_some h) (thinned_more s xs (erase_at l j) ys)),
            take_out_some h,
          )
          (record {
            well = b.well;
            extents =
                rw
                  (
                    b.same,
                    thinned_lists s (xs ++ (erase_at l j ∷ ys)),
                    whole,
                    flat-append xs (l ∷ ys),
                    flat-append xs (erase_at l j ∷ ys),
                    offset-append xs (l ∷ ys),
                  )
                  (sym (erase_at-middle (flat xs) l (flat ys) j k));
            kept = rw (t.kept, b.kept, whole, offset-append xs (l ∷ ys)) refl;
            rests = t.rests;
          })

  erase_alone :
      (load : ℕ) (some_load : 1 < load) (s : Lists P) (v : WellFormed load s) (l : List (Extent P))
      (j : ℕ) (whole : s.lists ≡ (l ∷ [])) (k : j < length l)
      → length (erase_at l j) ≤ 0
      → Erased load s (record { i = 0; j = j }) (erase load s (record { i = 0; j = j }))
  unfolding thinned end
  erase_alone load some_load s v l j whole k h =
      let less : length (erase_at l j) + 1 ≡ length l = length-erase_at l j k in
      let out : take_out s (record { i = 0; j = j }) ≡ thinned s [] =
        take_out_all load some_load s v [] l [] j whole k h in
      let only : j ≡ 0 = omega arith in
      let none : s.count ≡ 1 = omega (arith, counted load some_load s v [] l [] j whole k, less) in
      rw (erase_last load s (record { i = 0; j = j }) (rw out refl), out)
        (record {
          well = record {
            maxima = refl;
            sizes = tt;
            halves = λ h. absurd (omega arith);
            counted = rw none refl;
          };
          extents =
              rw whole
                (sym (erase_at-middle [] l [] j k ∙ ap (λ t. t ++ []) (nothing (erase_at l j) h)));
          kept = rw (only) refl;
          rests = inr refl;
        })

  erase_all :
      (load : ℕ) (some_load : 1 < load) (s : Lists P) (v : WellFormed load s)
      (xs : List (List (Extent P))) (l : List (Extent P)) (ys : List (List (Extent P))) (j : ℕ)
      (whole : s.lists ≡ (xs ++ (l ∷ ys))) (k : j < length l)
      → length (erase_at l j) ≤ 0
      → Erased load s
          (record { i = length xs; j = j })
          (erase load s (record { i = length xs; j = j }))
  erase_all load some_load s v [] l [] j whole k h = erase_alone load some_load s v l j whole k h
  erase_all load some_load s v [] l (y ∷ ys) j whole k h =
      let less : length (erase_at l j) + 1 ≡ length l = length-erase_at l j k in
      let half : load / 2 < length l =
        (others load some_load s v [] l (y ∷ ys) j whole k (omega arith)).0 in
      absurd (omega arith)
  erase_all load some_load s v (x ∷ xs) l ys j whole k h =
      let less : length (erase_at l j) + 1 ≡ length l = length-erase_at l j k in
      let half : load / 2 < length l =
        (others load some_load s v (x ∷ xs) l ys j whole k
          (rw (length-append xs (l ∷ ys)) (omega arith))).0 in
      absurd (omega arith)

  -- `_erase` at an extent of a well-formed map gives a well-formed map without the extent at the place of
  -- the iterator, and returns an iterator to that place, at the next extent or the end of the map.
  pub erase-Erased :
      (load : ℕ) (s : Lists P) (it : Position)
      → 1 < load
      → WellFormed load s
      → AtExtent s it
      → Erased load s it (erase load s it)
  erase-Erased load s it some_load v (i, j) =
      let p : Parts s.lists it.i = parts s.lists it.i i in
      let at : nth s.lists it.i ≡ p.here =
        rw (p.whole, sym p.index) (nth-append p.before p.here p.after) in
      let k : it.j < length p.here = rw (at) at j in
      subst
        (λ i.
          Erased load s (record { i = i; j = it.j }) (erase load s (record { i = i; j = it.j })))
        p.index
        (elim (lt_or_le 0 (length (erase_at p.here it.j))) [
          | inl some ↦ erase_some load some_load s v p.before p.here p.after it.j p.whole k some
          | inr all ↦ erase_all load some_load s v p.before p.here p.after it.j p.whole k all
        ])
