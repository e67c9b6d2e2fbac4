-- ===== src/Extent/Tests.antt =====
-- src/extent.h: the map on concrete extents.
use lsvd_rbd.Base.{ℕ, ◌+◌, ◌≡◌, refl, Bool, ◌==◌, some, List, [], ◌∷◌, arith}
use lsvd_rbd.Extent.{Extent, new_extent, at}
use lsvd_rbd.Extent.Order.{IsSorted}
use lsvd_rbd.Extent.Pointers.{ObjOffset, obj_target}
use lsvd_rbd.Extent.Map.{update, trim}
use lsvd_rbd.Extent.Map.Update.{at-update, trim-IsSorted}
use lsvd_rbd.Extent.Map.Discard.{at-update_discard}
use lsvd_rbd.Extent.Map.Weight.{weight, weight-update}

abbrev place_in : ℕ → ℕ → ObjOffset
place_in o k = record { obj = o; offset = k }

-- [0 .. 8) in object 1, a hole, [10 .. 14) in object 2.
abbrev two : List (Extent ObjOffset)
two = new_extent 0 8 (place_in 1 8) ∷ new_extent 10 4 (place_in 2 0) ∷ []

two-IsSorted : IsSorted two
two-IsSorted = omega arith

abbrev third : List (Extent ObjOffset)
third = (update two 6 12 (place_in 3 0)).0

update_overlaps :
    third
    ≡ new_extent 0 6 (place_in 1 8)
      ∷ new_extent 6 6 (place_in 3 0)
      ∷ new_extent 12 2 (place_in 2 2)
      ∷ []
unfolding update
update_overlaps = refl

update_discards :
    (update two 6 12 (place_in 3 0)).1
    ≡ new_extent 6 2 (place_in 1 14) ∷ new_extent 10 2 (place_in 2 0) ∷ []
unfolding update
update_discards = refl

update_bisects :
    (update two 2 4 (place_in 3 0)).0
    ≡ new_extent 0 2 (place_in 1 8)
      ∷ new_extent 2 2 (place_in 3 0)
      ∷ new_extent 4 4 (place_in 1 12)
      ∷ new_extent 10 4 (place_in 2 0)
      ∷ []
unfolding update
update_bisects = refl

-- The hole is plugged and both neighbours merged into one.
update_merges :
    (update
      (new_extent 0 8 (place_in 1 8) ∷ new_extent 10 4 (place_in 1 18) ∷ [])
      8
      10
      (place_in 1 16)).0
    ≡ new_extent 0 14 (place_in 1 8) ∷ []
unfolding update
update_merges = refl

abbrev in_one : ObjOffset → Bool
in_one p = p.obj == 1

at-update_example : at third 11 ≡ some (place_in 3 5)
at-update_example = at-update two 6 12 (place_in 3 0) 11 two-IsSorted (omega arith)

trim-IsSorted_example : IsSorted (trim two 6 12).0
trim-IsSorted_example = trim-IsSorted two 6 12 two-IsSorted (omega arith)

at-update_discard_example : at (update two 6 12 (place_in 3 0)).1 7 ≡ some (place_in 1 15)
at-update_discard_example = at-update_discard two 6 12 (place_in 3 0) 7 two-IsSorted (omega arith)

weight-update_example : weight in_one third + weight in_one (update two 6 12 (place_in 3 0)).1 ≡ 8
weight-update_example =
    weight-update in_one (λ p n. refl) two 6 12 (place_in 3 0) two-IsSorted (omega arith)
