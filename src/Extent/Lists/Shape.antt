-- ===== src/Extent/Lists/Shape.antt =====
-- src/extent.h, `extmap`: how long its lists are, and the maxima and the count that belong to them.
use lsvd_rbd.Base.{ℕ, ◌+◌, ◌*◌, ◌/◌, ◌≤◌, ◌<◌, ◌≡◌, List, [], ◌∷◌, ◌++◌, map, length}
use lsvd_rbd.Extent.{Extent}
use lsvd_rbd.Extent.Lists.{Lists, Position, nth, last_limit}
use lsvd_rbd.Extent.Lists.Split.{flat, offset}

module _ {P : Type 0} (load : ℕ) where
  -- No list is empty or as long as twice `load`.
  abbrev pub Sizes : List (List (Extent P)) → Type 0
  Sizes [] = Unit {0}
  Sizes (l ∷ ls) = (0 < length l) × (length l < load * 2) × Sizes ls

  -- Every list is longer than half of `load`.
  abbrev pub Halves : List (List (Extent P)) → Type 0
  Halves [] = Unit {0}
  Halves (l ∷ ls) = (load / 2 < length l) × Halves ls

  pub Sizes-left : (xs ys : List (List (Extent P))) → Sizes (xs ++ ys) → Sizes xs
  Sizes-left [] ys h = tt
  Sizes-left (x ∷ xs) ys h = (h.0, h.1, Sizes-left xs ys h.2)

  pub Sizes-right : (xs ys : List (List (Extent P))) → Sizes (xs ++ ys) → Sizes ys
  Sizes-right [] ys h = h
  Sizes-right (x ∷ xs) ys h = Sizes-right xs ys h.2

  pub Sizes-append : (xs ys : List (List (Extent P))) → Sizes xs → Sizes ys → Sizes (xs ++ ys)
  Sizes-append [] ys h k = k
  Sizes-append (x ∷ xs) ys h k = (h.0, h.1, Sizes-append xs ys h.2 k)

  pub Halves-left : (xs ys : List (List (Extent P))) → Halves (xs ++ ys) → Halves xs
  Halves-left [] ys h = tt
  Halves-left (x ∷ xs) ys h = (h.0, Halves-left xs ys h.1)

  pub Halves-right : (xs ys : List (List (Extent P))) → Halves (xs ++ ys) → Halves ys
  Halves-right [] ys h = h
  Halves-right (x ∷ xs) ys h = Halves-right xs ys h.1

  pub Halves-append : (xs ys : List (List (Extent P))) → Halves xs → Halves ys → Halves (xs ++ ys)
  Halves-append [] ys h k = k
  Halves-append (x ∷ xs) ys h k = (h.0, Halves-append xs ys h.1 k)

  -- The maxima are the limits of the lists and the count that of the extents; no list is empty or too
  -- long, and none of several is short.
  pub record WellFormed (s : Lists P) : Type 0 where
    pub maxima : s.maxes ≡ map last_limit s.lists
    pub sizes : Sizes s.lists
    pub halves : 1 < length s.lists → Halves s.lists
    pub counted : s.count ≡ length (flat s.lists)

module _ {P : Type 0} where
  -- The place of an iterator among all extents.
  abbrev pub index : Lists P → Position → ℕ
  index s it = offset s.lists it.i + it.j

  -- An iterator at an extent, and one at an extent or at the end of a list.
  abbrev pub AtExtent : Lists P → Position → Type 0
  AtExtent s it = (it.i < length s.lists) × (it.j < length (nth s.lists it.i))

  abbrev pub InLists : Lists P → Position → Type 0
  InLists s it = (it.i < length s.lists) × (it.j ≤ length (nth s.lists it.i))
