-- ===== src/Extent/Lists/Tests.antt =====
-- Runs of the two levels of arrays of src/extent.h, with lists of two, and the theorems at them.
use lsvd_rbd.Base.{ℕ, ◌*◌, ◌≡◌, refl, inr, [], ◌∷◌, length, arith}
use lsvd_rbd.Extent.{Extent, new_extent}
use lsvd_rbd.Extent.Order.{IsSorted}
use lsvd_rbd.Extent.Map
use lsvd_rbd.Extent.Lists.{Lists, Position, insert, erase, lower_bound, minus}
use lsvd_rbd.Extent.Lists.Split.{flat}
use lsvd_rbd.Extent.Lists.Shape.{WellFormed, index}
use lsvd_rbd.Extent.Lists.Insert.{Inserted, insert-Inserted}
use lsvd_rbd.Extent.Lists.Erase.{Erased, erase-Erased}
use lsvd_rbd.Extent.Lists.Bound.{lower_bound-Lists}
use lsvd_rbd.Extent.Lists.Settle.{Rests}

abbrev ext : ℕ → Extent ℕ
ext b = new_extent b 5 (b * 100)

abbrev pos : ℕ → ℕ → Position
pos i j = record { i = i; j = j }

-- Five extents in two lists; with `load` 2 the second can take no more.
abbrev five : Lists ℕ
five = record {
  lists = (ext 0 ∷ ext 10 ∷ []) ∷ (ext 20 ∷ ext 30 ∷ ext 40 ∷ []) ∷ [];
  maxes = 15 ∷ 45 ∷ [];
  count = 5;
}

five-WellFormed : WellFormed 2 five
five-WellFormed = record {
  maxima = refl;
  sizes = (omega arith, omega arith, (omega arith, omega arith, tt));
  halves = λ h. (omega arith, (omega arith, tt));
  counted = refl;
}

five-IsSorted : IsSorted (flat five.lists)
five-IsSorted = (
  omega arith,
  omega arith,
  (
    omega arith,
    omega arith,
    (omega arith, omega arith, (omega arith, omega arith, (omega arith, omega arith, tt))),
  ),
)

-- The second list is split, and the iterator moves with its extent.
insert_runs : insert 2 five (pos 1 3) (ext 50) ≡ (
  record {
    lists = (ext 0 ∷ ext 10 ∷ []) ∷ (ext 20 ∷ ext 30 ∷ []) ∷ (ext 40 ∷ ext 50 ∷ []) ∷ [];
    maxes = 15 ∷ 35 ∷ 55 ∷ [];
    count = 6;
  },
  pos 2 1,
)
unfolding insert
insert_runs = refl

-- The first list becomes short, is joined with the second and split again.
erase_runs : erase 2 five (pos 0 1) ≡ (
  record {
    lists = (ext 0 ∷ ext 20 ∷ []) ∷ (ext 30 ∷ ext 40 ∷ []) ∷ [];
    maxes = 25 ∷ 45 ∷ [];
    count = 4;
  },
  pos 0 1,
)
unfolding erase
erase_runs = refl

lower_bound_runs : lower_bound five 15 ≡ pos 1 0
unfolding lower_bound
lower_bound_runs = refl

-- By two, the iterator moves forward.
minus_runs : minus five (pos 1 0) 2 ≡ pos 1 2
unfolding minus
minus_runs = refl

insert-Inserted_example : Inserted 2 five (pos 1 3) (ext 50) (insert 2 five (pos 1 3) (ext 50))
insert-Inserted_example =
    insert-Inserted 2 (omega arith) five (ext 50) five-WellFormed (pos 1 3)
      (inr (omega arith, omega arith))

erase-Erased_example : Erased 2 five (pos 0 1) (erase 2 five (pos 0 1))
erase-Erased_example =
    erase-Erased 2 five (pos 0 1) (omega arith) five-WellFormed (omega arith, omega arith)

lower_bound-Lists_example :
    (index five (lower_bound five 15) ≡ length (Map.lower_bound (flat five.lists) 15).done)
    × Rests five (lower_bound five 15)
lower_bound-Lists_example = lower_bound-Lists 2 five 15 five-WellFormed five-IsSorted
