-- ===== src/Extent/Lists/Rebalance.antt =====
-- src/extent.h, the part of `_erase` that joins a short list with a neighbour.
use lsvd_rbd.Base.{
  zero_add, add_sub, equal, ℕ, ◌+◌, ◌*◌, ◌/◌, ◌≤◌, ◌<◌, ◌≡◌, refl, sym, ap, subst, ◌∙◌, inl, inr,
  lt_or_le, ltb-true, ltb-false, List, [], ◌∷◌, ◌++◌, map, length, length-append, append_assoc,
  append_nil, arith,
}
use lsvd_rbd.Extent.{Extent}
use lsvd_rbd.Extent.Lists.{Lists, Position, nth, last_limit, expand, join, rebalance}
use lsvd_rbd.Extent.Lists.Split.{flat, flat-append, nth-append, offset-append}
use lsvd_rbd.Extent.Lists.Shape.{
  Sizes, Halves, Sizes-left, Sizes-right, Halves-left, Halves-right, Halves-append,
}
use lsvd_rbd.Extent.Lists.Expand.{nth_after}
use lsvd_rbd.Extent.Lists.Join.{Balanced, join-Balanced}

-- A list is empty or has a last element.
record Last {A : Type 0} (xs : List A) : Type 0 where
  start : List A
  final : A
  whole : xs ≡ (start ++ (final ∷ []))

last : {A : Type 0} (x : A) (xs : List A) → Last (x ∷ xs)
last x [] = record { start = []; final = x; whole = refl }
last x (y ∷ ys) =
    let l : Last (y ∷ ys) = last y ys in
    record { start = x ∷ l.start; final = l.final; whole = ap (λ t. x ∷ t) l.whole }

flat_last :
    {A : Type 0} (xs : List (List A)) (a : List A)
    → length (flat (xs ++ (a ∷ []))) ≡ length (flat xs) + length a
flat_last xs a = rw (flat-append xs (a ∷ []), append_nil a, length-append (flat xs) a) refl

module _ {P : Type 0} (load : ℕ) (s : Lists P) where
  rebalance_keeps :
      (it : Position) → load / 2 < length (nth s.lists it.i) → rebalance load s it ≡ (s, it)
  unfolding rebalance
  rebalance_keeps it h = rw (ltb-true (load / 2) (length (nth s.lists it.i)) h) refl

  rebalance_first :
      (j : ℕ)
      → length (nth s.lists 0) ≤ load / 2
      → 1 < length s.lists
      → rebalance load s (record { i = 0; j = j })
        ≡ expand load (join s (0 + 1)) (record { i = 0; j = j })
  unfolding rebalance
  rebalance_first j short several =
      rw (ltb-false (load / 2) (length (nth s.lists 0)) short, ltb-true 1 (length s.lists) several)
        refl

  rebalance_next :
      (k j : ℕ)
      → length (nth s.lists (k + 1)) ≤ load / 2
      → 1 < length s.lists
      → rebalance load s (record { i = k + 1; j = j })
        ≡ expand load (join s (k + 1)) (record { i = k; j = j + length (nth s.lists k) })
  unfolding rebalance
  rebalance_next k j short several =
      rw
        (
          ltb-false (load / 2) (length (nth s.lists (k + 1))) short,
          ltb-true 1 (length s.lists) several,
          ltb-true 0 (k + 1) (omega arith),
          equal (k + 1) (k + 1) refl,
          add_sub k,
        )
        refl

  module _ (some_load : 0 < load) (maxima : s.maxes ≡ map last_limit s.lists)
      (sizes : Sizes load s.lists) (counted : s.count ≡ length (flat s.lists)) where
    rebalance_only :
        (l : List (Extent P)) (j : ℕ)
        → s.lists ≡ (l ∷ [])
        → length l ≤ load / 2
        → j ≤ length l
        → Balanced load s j (rebalance load s (record { i = 0; j = j }))
    unfolding rebalance
    rebalance_only l j whole short k =
        let sized : Sizes load (l ∷ []) = rw (whole) at sizes in
        rw
          (
            whole,
            maxima,
            whole,
            ltb-false (load / 2) (length l) short,
            ltb-true 0 (length l) sized.0,
          )
          (record {
            same = refl;
            kept = zero_add j;
            well = record {
              maxima = refl;
              sizes = sized;
              halves = λ h. absurd (omega arith);
              counted = rw (whole) at counted;
            };
            within = (omega arith, k);
          })

    -- A short first list is joined with the second.
    first-Balanced :
        (l b : List (Extent P)) (ys : List (List (Extent P))) (j : ℕ)
        → s.lists ≡ (l ∷ b ∷ ys)
        → length l ≤ load / 2
        → j ≤ length l
        → Halves load (b ∷ ys)
        → Balanced load s j (rebalance load s (record { i = 0; j = j }))
    first-Balanced l b ys j whole short k half =
        let sized : Sizes load (l ∷ b ∷ ys) = rw (whole) at sizes in
        let some_l : 0 < length l = sized.0 in
        let few : length b < load * 2 = sized.2.1 in
        let long : load / 2 < length b = half.0 in
        subst (λ n. Balanced load s n (rebalance load s (record { i = 0; j = j }))) (zero_add j)
          (rw (rebalance_first j (rw whole short) (rw whole (omega arith))) (
            join-Balanced load s [] l b ys whole maxima j some_load (omega arith) (omega arith)
              (omega arith) tt sized.2.2 tt half.1 counted (omega arith)))

    -- Any other is joined with the one before it.
    next-Balanced :
        (xs : List (List (Extent P))) (a l : List (Extent P)) (ys : List (List (Extent P))) (j : ℕ)
        → s.lists ≡ (xs ++ (a ∷ l ∷ ys))
        → length l ≤ load / 2
        → j ≤ length l
        → Halves load (xs ++ (a ∷ []))
        → Halves load ys
        → Balanced load s
            (length (flat xs) + (j + length a))
            (rebalance load s (record { i = length xs + 1; j = j }))
    next-Balanced xs a l ys j whole short k half others =
        let right : Sizes load (a ∷ l ∷ ys) =
          Sizes-right load xs (a ∷ l ∷ ys) (rw (whole) at sizes) in
        let some_l : 0 < length l = right.2.0 in
        let few : length a < load * 2 = right.1 in
        let half_a : Halves load (a ∷ []) = Halves-right load xs (a ∷ []) half in
        let long : load / 2 < length a = half_a.0 in
        let here : nth s.lists (length xs) ≡ a = rw whole (nth-append xs a (l ∷ ys)) in
        rw
          (
            rebalance_next (length xs) j (rw (whole, nth_after xs a l ys) short)
                (rw (whole, length-append xs (a ∷ l ∷ ys)) (omega arith)),
            here,
          )
          (join-Balanced load s xs a l ys whole maxima (j + length a) some_load (omega arith)
            (omega arith) (omega arith) (Sizes-left load xs (a ∷ l ∷ ys) (rw (whole) at sizes))
            right.2.2 (Halves-left load xs (a ∷ []) half) others counted (omega arith))

    short-Balanced :
        (xs : List (List (Extent P))) (l : List (Extent P)) (ys : List (List (Extent P))) (j : ℕ)
        → s.lists ≡ (xs ++ (l ∷ ys))
        → length l ≤ load / 2
        → j ≤ length l
        → (1 < length s.lists → Halves load xs × Halves load ys)
        → Balanced load s
            (length (flat xs) + j)
            (rebalance load s (record { i = length xs; j = j }))
    short-Balanced [] l [] j whole short k others =
        rw (zero_add j) (rebalance_only l j whole short k)
    short-Balanced [] l (b ∷ ys) j whole short k others =
        let half : Halves {P = P} load [] × Halves load (b ∷ ys) =
          others (rw whole (omega arith)) in
        rw (zero_add j) (first-Balanced l b ys j whole short k half.1)
    short-Balanced (x ∷ xs) l ys j whole short k others =
        let half : Halves load (x ∷ xs) × Halves load ys =
          others (rw (whole, length-append (x ∷ xs) (l ∷ ys)) (omega arith)) in
        let e : Last (x ∷ xs) = last x xs in
        let shape : s.lists ≡ (e.start ++ (e.final ∷ l ∷ ys)) =
          rw (whole, sym (append_assoc e.start (e.final ∷ []) (l ∷ ys)))
            (ap (λ t. t ++ (l ∷ ys)) e.whole) in
        let flat_whole : length (flat (x ∷ xs)) ≡ length (flat e.start) + length e.final =
          ap (λ t. length (flat t)) e.whole ∙ flat_last e.start e.final in
        let place : length (flat e.start) + (j + length e.final) ≡ length (flat (x ∷ xs)) + j =
          omega (arith, flat_whole) in
        let at : length e.start + 1 ≡ length (x ∷ xs) =
          sym (ap length e.whole ∙ length-append e.start (e.final ∷ [])) in
        subst (λ n. Balanced load s n (rebalance load s (record { i = length (x ∷ xs); j = j })))
          place
          (subst
            (λ i.
              Balanced load s (length (flat e.start) + (j + length e.final))
                (rebalance load s (record { i = i; j = j })))
            at
            (next-Balanced e.start e.final l ys j shape short k
              (subst (λ t. Halves load t) e.whole half.0) half.1))

    pub rebalance-Balanced :
        (xs : List (List (Extent P))) (l : List (Extent P)) (ys : List (List (Extent P))) (j : ℕ)
        → s.lists ≡ (xs ++ (l ∷ ys))
        → j ≤ length l
        → (1 < length s.lists → Halves load xs × Halves load ys)
        → Balanced load s
            (length (flat xs) + j)
            (rebalance load s (record { i = length xs; j = j }))
    rebalance-Balanced xs l ys j whole k others = elim (lt_or_le (load / 2) (length l)) [
      | inl enough ↦
          rw
            (rebalance_keeps (record { i = length xs; j = j })
              (rw (whole, nth-append xs l ys) enough))
            (record {
              same = refl;
              kept = rw (whole, offset-append xs (l ∷ ys)) refl;
              well = record {
                maxima = maxima;
                sizes = sizes;
                halves = λ several. rw whole (
                    Halves-append load xs (l ∷ ys) (others several).0 (enough, (others several).1));
                counted = counted;
              };
              within = (
                rw (whole, length-append xs (l ∷ ys)) (omega arith),
                rw (whole, nth-append xs l ys) k,
              );
            })
      | inr short ↦ short-Balanced xs l ys j whole short k others
    ]
