-- ===== src/Extent/Map.antt =====
-- src/extent.h, `extmap`: lookup and update. The sequence of extents that `lists` holds is one
-- list here; an iterator is a position in it, the extents before it (nearest first) and those from
-- it on.
pub mod Position
pub mod View
pub mod Clear
pub mod Place
pub mod Update
pub mod Weight
pub mod Discard
use lsvd_rbd.Base.{ℕ, ◌-◌, ◌&&◌, leb, ltb, if◌then◌else◌, List, [], ◌∷◌, ◌++◌, rev_append}
use lsvd_rbd.Extent.{Target, Extent, limit, new_extent, relimit, rebase, adjacent}

pub record Iterator (P : Type 0) : Type 0 where
  pub done : List (Extent P)
  pub rest : List (Extent P)

module _ {P : Type 0} where
  abbrev pub whole : Iterator P → List (Extent P)
  whole it = rev_append it.done it.rest

  -- `std::lower_bound` by base: past every extent whose base is lower.
  pub seek : ℕ → List (Extent P) → List (Extent P) → Iterator P
  seek b ds [] = record { done = ds; rest = [] }
  seek b ds (e ∷ es) =
      let on = seek b (e ∷ ds) es in
      if ltb e.base b then on else record { done = ds; rest = e ∷ es }

  -- The extent before may still reach over `base`: then it is the one.
  pub back_up : ℕ → List (Extent P) → List (Extent P) → Iterator P
  back_up b [] es = record { done = []; rest = es }
  back_up b (p ∷ ds) es =
      if leb p.base b && ltb b (limit p)
      then record { done = ds; rest = p ∷ es }
      else record { done = p ∷ ds; rest = es }

  unfoldable pub lower_bound : List (Extent P) → ℕ → Iterator P
  unfolding seek back_up
  lower_bound m b = let it = seek b [] m in back_up b it.done it.rest

module _ {P : Type 0} ⦃t : Target P⦄ where
  -- The extent at the iterator, if it begins before `base`, is bisected or loses its right part.
  -- Beside the new position stand the discarded extents (`del`).
  pub cut_left : ℕ → ℕ → List (Extent P) → List (Extent P) → Iterator P × List (Extent P)
  cut_left b l ds [] = (record { done = ds; rest = [] }, [])
  cut_left b l ds (e ∷ es) =
      if ltb e.base b && ltb l (limit e)
      then (
        record {
          done = relimit e b ∷ ds;
          rest = new_extent l (limit e - l) (t.plus e.ptr (l - e.base)) ∷ es;
        },
        new_extent b (l - b) (t.plus e.ptr (b - e.base)) ∷ [],
      )
      else if ltb e.base b && ltb b (limit e)
      then (
        record { done = relimit e b ∷ ds; rest = es },
        new_extent b (limit e - b) (t.plus e.ptr (b - e.base)) ∷ [],
      )
      else (record { done = ds; rest = e ∷ es }, [])

  -- The loop that erases the extents fully inside the range.
  pub erase_covered : ℕ → ℕ → List (Extent P) → List (Extent P) × List (Extent P)
  erase_covered b l [] = ([], [])
  erase_covered b l (e ∷ es) =
      let rest = erase_covered b l es in
      if leb b e.base && leb (limit e) l then (rest.0, e ∷ rest.1) else (e ∷ es, [])

  -- The extent that reaches past the range loses its left part.
  pub cut_right : ℕ → List (Extent P) → List (Extent P) × List (Extent P)
  cut_right l [] = ([], [])
  cut_right l (e ∷ es) =
      if ltb e.base l
      then (rebase e l ∷ es, new_extent e.base (l - e.base) e.ptr ∷ [])
      else (e ∷ es, [])

  -- The extent is merged with the one before, the one after or both, or inserted.
  pub merge_next : Extent P → List (Extent P) → List (Extent P)
  merge_next p [] = p ∷ []
  merge_next p (n ∷ es) = if adjacent p n then relimit p (limit n) ∷ es else p ∷ n ∷ es

  pub insert_or_next : Extent P → List (Extent P) → List (Extent P)
  insert_or_next e [] = e ∷ []
  insert_or_next e (n ∷ es) = if adjacent e n then rebase n e.base ∷ es else e ∷ n ∷ es

  pub place : Extent P → List (Extent P) → List (Extent P) → List (Extent P)
  unfolding merge_next insert_or_next
  place e [] es = insert_or_next e es
  place e (p ∷ ds) es =
      if adjacent p e
      then rev_append ds (merge_next (relimit p (limit e)) es)
      else rev_append (p ∷ ds) (insert_or_next e es)

  -- What is left of the map beside the range, at the position of the range, and what is discarded.
  unfoldable pub clear : List (Extent P) → ℕ → ℕ → Iterator P × List (Extent P)
  unfolding lower_bound cut_left erase_covered cut_right
  clear m b l =
      let it = lower_bound m b in
      let (it₁, del₁) = cut_left b l it.done it.rest in
      let (es₂, del₂) = erase_covered b l it₁.rest in
      let (es₃, del₃) = cut_right l es₂ in
      (record { done = it₁.done; rest = es₃ }, del₁ ++ (del₂ ++ del₃))

  -- `update`: maps `[b .. l)` to `p` onwards; the discarded extents are the second component.
  unfoldable pub update : List (Extent P) → ℕ → ℕ → P → List (Extent P) × List (Extent P)
  unfolding clear place
  update [] b l p = (new_extent b (l - b) p ∷ [], [])
  update (e ∷ es) b l p =
      let (it, del) = clear (e ∷ es) b l in (place (new_extent b (l - b) p) it.done it.rest, del)

  -- `trim`: unmaps `[b .. l)`.
  unfoldable pub trim : List (Extent P) → ℕ → ℕ → List (Extent P) × List (Extent P)
  unfolding clear
  trim [] b l = ([], [])
  trim (e ∷ es) b l = let (it, del) = clear (e ∷ es) b l in (whole it, del)

-- `lookup`: where the iteration over a range begins.
unfoldable pub lookup : {P : Type 0} → List (Extent P) → ℕ → Iterator P
unfolding lower_bound
lookup m b = lower_bound m b
