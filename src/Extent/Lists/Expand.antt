-- ===== src/Extent/Lists/Expand.antt =====
-- src/extent.h, `_expand`: a list that has become too long is split in two.
use lsvd_rbd.Base.{
  suc_add, ℕ, suc, ◌+◌, ◌-◌, ◌*◌, ◌/◌, ◌≤◌, ◌<◌, ◌≡◌, refl, sym, ap, inl, inr, lt_or_le, leb,
  leb-true, leb-false, if◌then◌else◌, List, [], ◌∷◌, ◌++◌, map, length, take, drop, length-append,
  length-take, length-drop, append_assoc, arith,
}
use lsvd_rbd.Extent.{Extent}
use lsvd_rbd.Extent.Lists.{Lists, Position, nth, insert_at, last_limit, expand}
use lsvd_rbd.Extent.Lists.Split.{
  flat, offset, flat-append, offset-append, nth-append, set-append, take-drop, map-set,
  map-insert_at,
}
use lsvd_rbd.Extent.Lists.Shape.{
  Sizes, Halves, Sizes-append, Halves-append, Halves-left, Halves-right, index, InLists,
}

module _ {P : Type 0} where
  insert_after :
      (xs : List (List (Extent P))) (l : List (Extent P)) (ys : List (List (Extent P)))
      (v : List (Extent P))
      → insert_at (xs ++ (l ∷ ys)) (length xs + 1) v ≡ (xs ++ (l ∷ v ∷ ys))
  insert_after [] l ys v = refl
  insert_after (x ∷ xs) l ys v =
      rw (suc_add (length xs) 1) (ap (λ t. x ∷ t) (insert_after xs l ys v))

  pub nth_after :
      (xs : List (List (Extent P))) (l v : List (Extent P)) (ys : List (List (Extent P)))
      → nth (xs ++ (l ∷ v ∷ ys)) (length xs + 1) ≡ v
  nth_after [] l v ys = refl
  nth_after (x ∷ xs) l v ys = rw (suc_add (length xs) 1) (nth_after xs l v ys)

  pub offset_after :
      (xs : List (List (Extent P))) (l : List (Extent P)) (ys : List (List (Extent P)))
      → offset (xs ++ (l ∷ ys)) (length xs + 1) ≡ length (flat xs) + length l
  offset_after [] l ys = omega arith
  offset_after (x ∷ xs) l ys =
      rw (suc_add (length xs) 1, offset_after xs l ys, length-append x (flat xs)) (omega arith)

  no_others :
      (load : ℕ) (xs ys : List (List (Extent P)))
      → length xs + suc (length ys) ≤ 1
      → Halves load xs × Halves load ys
  no_others load [] [] h = (tt, tt)
  no_others load [] (y ∷ ys) h = absurd (omega arith)
  no_others load (x ∷ xs) ys h = absurd (omega arith)

  -- What `expand` does to lists whose parts are known.
  pub record Expanded (load : ℕ) (s : Lists P) (it : Position) (r : Lists P × Position)
      : Type 0 where
    pub same : flat r.0.lists ≡ flat s.lists
    pub kept : index r.0 r.1 ≡ index s it
    pub maxima : r.0.maxes ≡ map last_limit r.0.lists
    pub sized : Sizes load r.0.lists
    pub count : r.0.count ≡ s.count
    pub within : InLists r.0 r.1
    pub on_extent : it.j < length (nth s.lists it.i) → r.1.j < length (nth r.0.lists r.1.i)

  module _ (load : ℕ) (s : Lists P) (xs : List (List (Extent P))) (l : List (Extent P))
      (ys : List (List (Extent P))) (whole : s.lists ≡ (xs ++ (l ∷ ys)))
      (maxima : s.maxes ≡ map last_limit s.lists) (j : ℕ) where
    expand_keeps :
        length l < load * 2
        → expand load s (record { i = length xs; j = j }) ≡ (s, record { i = length xs; j = j })
    unfolding expand
    expand_keeps h = rw (whole, nth-append xs l ys, leb-false (load * 2) (length l) h) refl

    split_lists :
        load * 2 ≤ length l
        → (expand load s (record { i = length xs; j = j })).0.lists
          ≡ (xs ++ (take load l ∷ drop load l ∷ ys))
    unfolding expand
    split_lists h =
        rw
          (
            whole,
            nth-append xs l ys,
            leb-true (load * 2) (length l) h,
            set-append xs l ys (take load l),
            insert_after xs (take load l) ys (drop load l),
          )
          refl

    split_maxes :
        load * 2 ≤ length l
        → (expand load s (record { i = length xs; j = j })).0.maxes
          ≡ map last_limit (xs ++ (take load l ∷ drop load l ∷ ys))
    unfolding expand
    split_maxes h =
        rw
          (
            maxima,
            whole,
            nth-append xs l ys,
            leb-true (load * 2) (length l) h,
            sym (map-set last_limit (xs ++ (l ∷ ys)) (length xs) (take load l)),
            set-append xs l ys (take load l),
            sym (map-insert_at last_limit (xs ++ (take load l ∷ ys)) (length xs + 1) (drop load l)),
            insert_after xs (take load l) ys (drop load l),
          )
          refl

    split_at :
        load * 2 ≤ length l
        → (expand load s (record { i = length xs; j = j })).1 ≡ (
            if leb load j
            then record { i = length xs + 1; j = j - load }
            else record { i = length xs; j = j })
    unfolding expand
    split_at h = rw (whole, nth-append xs l ys, leb-true (load * 2) (length l) h) refl

    split_count :
        load * 2 ≤ length l → (expand load s (record { i = length xs; j = j })).0.count ≡ s.count
    unfolding expand
    split_count h = rw (whole, nth-append xs l ys, leb-true (load * 2) (length l) h) refl

    expand_split :
        load * 2 ≤ length l
        → 0 < load
        → length l < load * 3
        → Sizes load xs
        → Sizes load ys
        → j ≤ length l
        → Expanded load s
            (record { i = length xs; j = j })
            (expand load s (record { i = length xs; j = j }))
    expand_split h some_load few v w k = record {
      same =
          rw
            (
              split_lists h,
              whole,
              flat-append xs (take load l ∷ drop load l ∷ ys),
              flat-append xs (l ∷ ys),
              sym (append_assoc (take load l) (drop load l) (flat ys)),
              take-drop load l,
            )
            refl;
      kept = elim (lt_or_le j load) [
        | inl left ↦
            rw
              (
                split_at h,
                leb-false load j left,
                split_lists h,
                whole,
                offset-append xs (take load l ∷ drop load l ∷ ys),
                offset-append xs (l ∷ ys),
              )
              refl
        | inr right ↦
            rw
              (
                split_at h,
                leb-true load j right,
                split_lists h,
                whole,
                offset_after xs (take load l) (drop load l ∷ ys),
                offset-append xs (l ∷ ys),
                length-take load l (omega arith),
              )
              (omega arith)
      ];
      maxima = rw (split_maxes h, split_lists h) refl;
      sized = rw (split_lists h) (
          Sizes-append load xs (take load l ∷ drop load l ∷ ys) v (
            rw (length-take load l (omega arith), length-drop load l)
              (some_load, omega arith, (omega arith, omega arith, w))));
      count = split_count h;
      within = elim (lt_or_le j load) [
        | inl left ↦
            rw
              (
                split_at h,
                leb-false load j left,
                split_lists h,
                nth-append xs (take load l) (drop load l ∷ ys),
                length-take load l (omega arith),
                length-append xs (take load l ∷ drop load l ∷ ys),
              )
              (omega arith, omega arith)
        | inr right ↦
            rw
              (
                split_at h,
                leb-true load j right,
                split_lists h,
                nth_after xs (take load l) (drop load l) ys,
                length-drop load l,
                length-append xs (take load l ∷ drop load l ∷ ys),
              )
              (omega arith, omega arith)
      ];
      on_extent = λ below.
          let inside : j < length l = rw (whole, nth-append xs l ys) at below in
          elim (lt_or_le j load) [
            | inl left ↦
                rw
                  (
                    split_at h,
                    leb-false load j left,
                    split_lists h,
                    nth-append xs (take load l) (drop load l ∷ ys),
                    length-take load l (omega arith),
                  )
                  (omega arith)
            | inr right ↦
                rw
                  (
                    split_at h,
                    leb-true load j right,
                    split_lists h,
                    nth_after xs (take load l) (drop load l) ys,
                    length-drop load l,
                  )
                  (omega arith)
          ];
    }

    -- A list of less than three times `load` is split when it is twice as long as that or longer: the
    -- extents and the place of the iterator are the same, and the sizes are right.
    pub expand-Expanded :
        0 < load
        → 0 < length l
        → length l < load * 3
        → Sizes load xs
        → Sizes load ys
        → j ≤ length l
        → Expanded load s
            (record { i = length xs; j = j })
            (expand load s (record { i = length xs; j = j }))
    expand-Expanded some_load some few v w k = elim (lt_or_le (length l) (load * 2)) [
      | inl short ↦ rw (expand_keeps short) (record {
        same = refl;
        kept = refl;
        maxima = maxima;
        sized = rw whole (Sizes-append load xs (l ∷ ys) v (some, short, w));
        count = refl;
        within = rw (whole, nth-append xs l ys, length-append xs (l ∷ ys)) (omega arith, k);
        on_extent = λ below. below;
      })
      | inr long ↦ expand_split long some_load few v w k
    ]

    -- Then no list is short either, if none was.
    pub expand-Halves :
        0 < load
        → load / 2 < length l
        → length l < load * 3
        → Halves load xs
        → Halves load ys
        → Halves load (expand load s (record { i = length xs; j = j })).0.lists
    expand-Halves some_load half few v w = elim (lt_or_le (length l) (load * 2)) [
      | inl short ↦ rw (expand_keeps short, whole) (Halves-append load xs (l ∷ ys) v (half, w))
      | inr long ↦ rw (split_lists long) (
          Halves-append load xs (take load l ∷ drop load l ∷ ys) v (
            rw (length-take load l (omega arith), length-drop load l)
              (omega arith, (omega arith, w))))
    ]

    one_list : length (xs ++ (l ∷ ys)) ≤ 1 → Halves load xs × Halves load ys
    one_list h = no_others load xs ys (rw (length-append xs (l ∷ ys)) at h)

    pub expand-Several :
        0 < load
        → length l < load * 3
        → (1 < length (xs ++ (l ∷ ys)) → Halves load (xs ++ (l ∷ ys)))
        → 1 < length (expand load s (record { i = length xs; j = j })).0.lists
        → Halves load (expand load s (record { i = length xs; j = j })).0.lists
    expand-Several some_load few v more = elim (lt_or_le 1 (length (xs ++ (l ∷ ys)))) [
      | inl several ↦
          let all : Halves load (xs ++ (l ∷ ys)) = v several in
          let right : Halves load (l ∷ ys) = Halves-right load xs (l ∷ ys) all in
          expand-Halves some_load right.0 few (Halves-left load xs (l ∷ ys) all) right.1
      | inr one ↦
          let others : Halves load xs × Halves load ys = one_list one in
          elim (lt_or_le (load / 2) (length l)) [
            | inl half ↦ expand-Halves some_load half few others.0 others.1
            | inr short ↦
                let none : 1 < length (xs ++ (l ∷ ys)) =
                  rw (expand_keeps (omega arith), whole) at more in
                absurd (omega arith)
          ]
    ]
