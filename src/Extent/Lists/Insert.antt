-- ===== src/Extent/Lists/Insert.antt =====
-- src/extent.h, `_insert`: it puts an extent before an iterator.
use lsvd_rbd.Base.{
  not_zero, ℕ, ◌+◌, ◌*◌, ◌≤◌, ◌<◌, ◌≡◌, ◌⊎◌, refl, sym, subst, inl, inr, List, [], ◌∷◌, ◌++◌, map,
  length, length-append, arith,
}
use lsvd_rbd.Extent.{Extent, limit}
use lsvd_rbd.Extent.Lists.{Lists, Position, nth, insert_at, last_limit, expand, first, insert}
use lsvd_rbd.Extent.Lists.Split.{
  flat, parts, Parts, flat-append, offset-append, nth-append, set-append, insert_at-middle,
  length-insert_at, map-set,
}
use lsvd_rbd.Extent.Lists.Shape.{
  Sizes, Halves, Sizes-left, Sizes-right, Halves-left, Halves-right, Halves-append, WellFormed,
  index, AtExtent, InLists,
}
use lsvd_rbd.Extent.Lists.Expand.{Expanded, expand-Expanded, expand-Several}

module _ {P : Type 0} where
  -- The iterator of an empty map, or one in its lists.
  abbrev pub InMap : Lists P → Position → Type 0
  InMap s it = ((s.lists ≡ []) × (it.i ≡ 0) × (it.j ≡ 0)) ⊎ InLists s it

  -- The extents with one more at the place of the iterator, and an iterator to it.
  pub record Inserted (load : ℕ) (s : Lists P) (it : Position) (e : Extent P)
      (r : Lists P × Position) : Type 0 where
    pub well : WellFormed load r.0
    pub extents : flat r.0.lists ≡ insert_at (flat s.lists) (index s it) e
    pub kept : index r.0 r.1 ≡ index s it
    pub on_extent : AtExtent r.0 r.1

  -- The lists with the extent in one of them, before `expand`.
  grown : Lists P → List (List (Extent P)) → List (Extent P) → List (List (Extent P)) → Lists P
  grown s xs l ys = record {
    lists = xs ++ (l ∷ ys);
    maxes = map last_limit (xs ++ (l ∷ ys));
    count = s.count + 1;
  }

  module _ (load : ℕ) (some_load : 0 < load) (s : Lists P) (e : Extent P)
      (v : WellFormed load s) where
    insert_only :
        (it : Position)
        → s.lists ≡ []
        → insert load s it e ≡ (
          record { lists = (e ∷ []) ∷ []; maxes = limit e ∷ []; count = 1 },
          record { i = 0; j = 0 },
        )
    unfolding insert first
    insert_only it none =
        let no_max : s.maxes ≡ [] = rw (none) at v.maxima in
        let no_count : s.count ≡ 0 = rw (none) at v.counted in rw (no_count, no_max, none) refl

    insert-first :
        (it : Position)
        → s.lists ≡ []
        → it.i ≡ 0
        → it.j ≡ 0
        → Inserted load s it e (insert load s it e)
    insert-first it none i j = rw (insert_only it none) (record {
      well = record {
        maxima = refl;
        sizes = (omega arith, omega arith, tt);
        halves = λ h. absurd (omega arith);
        counted = refl;
      };
      extents = rw (none, i, j) refl;
      kept = rw (none, i, j) refl;
      on_extent = (omega arith, omega arith);
    })

    module _ (xs : List (List (Extent P))) (l : List (Extent P)) (ys : List (List (Extent P)))
        (j : ℕ) (whole : s.lists ≡ (xs ++ (l ∷ ys))) (k : j ≤ length l) where
      counted : s.count ≡ length (flat xs) + (length l + length (flat ys))
      counted =
          rw
            (
              v.counted,
              whole,
              flat-append xs (l ∷ ys),
              length-append (flat xs) (l ++ flat ys),
              length-append l (flat ys),
            )
            refl

      sizes : Sizes load (l ∷ ys)
      sizes = Sizes-right load xs (l ∷ ys) (rw (whole) at v.sizes)

      insert_grows :
          insert load s (record { i = length xs; j = j }) e
          ≡ expand load (grown s xs (insert_at l j e) ys) (record { i = length xs; j = j })
      unfolding insert grown
      insert_grows =
          let some : 0 < s.count = omega (arith, counted, sizes.0) in
          rw
            (
              not_zero s.count some,
              v.maxima,
              whole,
              nth-append xs l ys,
              set-append xs l ys (insert_at l j e),
              sym (map-set last_limit (xs ++ (l ∷ ys)) (length xs) (insert_at l j e)),
              set-append xs l ys (insert_at l j e),
            )
            refl

      expanded :
          Expanded load
            (grown s xs (insert_at l j e) ys)
            (record { i = length xs; j = j })
            (expand load (grown s xs (insert_at l j e) ys) (record { i = length xs; j = j }))
      unfolding grown
      expanded =
          let short : length l < load * 2 = sizes.1 in
          let more : length (insert_at l j e) ≡ length l + 1 = length-insert_at l j e k in
          expand-Expanded load (grown s xs (insert_at l j e) ys) xs (insert_at l j e) ys refl refl j
            some_load (omega arith) (omega arith)
            (Sizes-left load xs (l ∷ ys) (rw (whole) at v.sizes)) sizes.2 (omega arith)

      several_before :
          1 < length (xs ++ (insert_at l j e ∷ ys)) → Halves load (xs ++ (insert_at l j e ∷ ys))
      several_before h =
          let more : length (insert_at l j e) ≡ length l + 1 = length-insert_at l j e k in
          let all : Halves load (xs ++ (l ∷ ys)) = rw (whole) at (
            v.halves (
              rw (whole, length-append xs (l ∷ ys))
                (rw (length-append xs (insert_at l j e ∷ ys)) at h))) in
          let right : Halves load (l ∷ ys) = Halves-right load xs (l ∷ ys) all in
          Halves-append load xs (insert_at l j e ∷ ys) (Halves-left load xs (l ∷ ys) all)
            (omega (arith, right.0, more), right.1)

      insert_parts :
          Inserted load s
            (record { i = length xs; j = j })
            e
            (insert load s (record { i = length xs; j = j }) e)
      unfolding grown
      insert_parts =
          let r : Expanded load (grown s xs (insert_at l j e) ys) (record { i = length xs; j = j })
              (expand load (grown s xs (insert_at l j e) ys) (record { i = length xs; j = j })) =
            expanded in
          let more : length (insert_at l j e) ≡ length l + 1 = length-insert_at l j e k in
          let short : length l < load * 2 = sizes.1 in
          rw insert_grows (record {
            well = record {
              maxima = r.maxima;
              sizes = r.sized;
              halves = λ several.
                  expand-Several load (grown s xs (insert_at l j e) ys) xs (insert_at l j e) ys refl
                    refl j some_load (omega arith) several_before several;
              counted =
                  rw
                    (
                      r.count,
                      r.same,
                      flat-append xs (insert_at l j e ∷ ys),
                      length-append (flat xs) (insert_at l j e ++ flat ys),
                      length-append (insert_at l j e) (flat ys),
                    )
                    (omega (arith, counted, more));
            };
            extents =
                rw
                  (
                    r.same,
                    whole,
                    flat-append xs (l ∷ ys),
                    flat-append xs (insert_at l j e ∷ ys),
                    offset-append xs (l ∷ ys),
                  )
                  (sym (insert_at-middle (flat xs) l (flat ys) j e k));
            kept =
                rw
                  (
                    r.kept,
                    whole,
                    offset-append xs (l ∷ ys),
                    offset-append xs (insert_at l j e ∷ ys),
                  )
                  refl;
            on_extent =
                (r.within.0, r.on_extent (rw (nth-append xs (insert_at l j e) ys) (omega arith)));
          })

    -- `_insert` at an iterator of a well-formed map gives a well-formed map with the extent at the place
    -- of the iterator among all extents, and returns an iterator to it.
    pub insert-Inserted : (it : Position) → InMap s it → Inserted load s it e (insert load s it e)
    insert-Inserted it (inl (none, i, j)) = insert-first it none i j
    insert-Inserted it (inr (i, j)) =
        let p : Parts s.lists it.i = parts s.lists it.i i in
        let here : nth s.lists it.i ≡ p.here =
          rw (p.whole, sym p.index) (nth-append p.before p.here p.after) in
        subst
          (λ k.
            Inserted load s (record { i = k; j = it.j }) e
              (insert load s (record { i = k; j = it.j }) e))
          p.index (insert_parts p.before p.here p.after it.j p.whole (rw (here) at j))
