-- ===== src/Extent/Lists.antt =====
-- src/extent.h, `extmap`: the two levels of arrays that hold the extents, `lists` and `maxes`, with
-- the iterators over them. A reference out of range, undefined in the source, gives an empty list.
pub mod Split
pub mod Shape
pub mod Expand
pub mod Insert
pub mod Join
pub mod Settle
pub mod Rebalance
pub mod Erase
pub mod Passed
pub mod Maxima
pub mod Bound
pub mod Walk
mod Tests
use lsvd_rbd.Base.{
  ℕ, zero, suc, ◌+◌, ◌-◌, ◌*◌, ◌/◌, Bool, true, false, ◌&&◌, not, leb, ltb, ◌==◌, if◌then◌else◌,
  Option, none, some, List, [], ◌∷◌, ◌++◌, length, set, take, drop,
}
use lsvd_rbd.Extent.{Extent, limit}

-- Vectors: the operator [], `insert` before a position and `erase` at one.
module _ {ℓ} {A : Type ℓ} where
  abbrev pub nth : List (List A) → ℕ → List A
  nth [] i = []
  nth (x ∷ xs) zero = x
  nth (x ∷ xs) (suc i) = nth xs i

  abbrev pub insert_at : List A → ℕ → A → List A
  insert_at xs zero v = v ∷ xs
  insert_at [] (suc i) v = []
  insert_at (x ∷ xs) (suc i) v = x ∷ insert_at xs i v

  abbrev pub erase_at : List A → ℕ → List A
  erase_at [] i = []
  erase_at (x ∷ xs) zero = xs
  erase_at (x ∷ xs) (suc i) = x ∷ erase_at xs i

pub record Lists (P : Type 0) : Type 0 where
  pub lists : List (List (Extent P))
  pub maxes : List ℕ
  pub count : ℕ

-- `iterator`: a list and a position in it.
pub record Position : Type 0 where
  pub i : ℕ
  pub j : ℕ

-- `std::lower_bound` in `maxes`.
pub seek_max : ℕ → List ℕ → ℕ
seek_max b [] = 0
seek_max b (m ∷ ms) = let on = seek_max b ms in if ltb m b then suc on else 0

-- Whether the maximum there is `b` itself.
pub max_is : ℕ → List ℕ → ℕ → Bool
max_is b [] k = false
max_is b (m ∷ ms) zero = b == m
max_is b (m ∷ ms) (suc k) = max_is b ms k

module _ {P : Type 0} where
  -- The limit of `back()`.
  abbrev pub last_limit : List (Extent P) → ℕ
  last_limit [] = 0
  last_limit (e ∷ []) = limit e
  last_limit (e ∷ f ∷ es) = last_limit (f ∷ es)

  unfoldable pub empty : Lists P
  empty = record { lists = []; maxes = []; count = 0 }

  pub first : Lists P → Extent P → Lists P
  first s e = record {
    lists = s.lists ++ ((e ∷ []) ∷ []);
    maxes = s.maxes ++ (limit e ∷ []);
    count = 1;
  }

  abbrev pub begin : Lists P → Position
  begin s = record { i = 0; j = 0 }

  pub end : Lists P → Position
  end s =
      if length s.lists == 0
      then record { i = 0; j = 0 }
      else record { i = length s.lists - 1; j = length (nth s.lists (length s.lists - 1)) }

  -- `operator++`
  unfoldable pub next : Lists P → Position → Position
  next s it =
      if (it.j + 1 == length (nth s.lists it.i)) && ltb (it.i + 1) (length s.lists)
      then record { i = it.i + 1; j = 0 }
      else record { i = it.i; j = it.j + 1 }

  -- `operator--`
  unfoldable pub prev : Lists P → Position → Position
  prev s it =
      if it.j == 0
      then if ltb 0 it.i
        then record { i = it.i - 1; j = length (nth s.lists (it.i - 1)) - 1 }
        else it
      else record { i = it.i; j = it.j - 1 }

  -- `operator+` and `operator-`, by one.
  pub plus_one : Lists P → Position → Position
  unfolding end
  plus_one s it =
      if it.j + 1 == length (nth s.lists it.i)
      then if it.i + 1 == length s.lists then end s else record { i = it.i + 1; j = 0 }
      else record { i = it.i; j = it.j + 1 }

  pub minus_one : Lists P → Position → Position
  minus_one s it =
      if (it.j == 0) && (it.i == 0)
      then begin s
      else if it.j == 0
      then record { i = it.i - 1; j = length (nth s.lists (it.i - 1)) - 1 }
      else record { i = it.i; j = it.j - 1 }

  unfoldable pub plus : Lists P → Position → ℕ → Position
  unfolding plus_one
  plus s it zero = plus_one s it
  plus s it (suc zero) = plus_one s it
  plus s it (suc (suc n)) = plus s (plus_one s it) (suc n)

  -- By more than one, the source adds.
  unfoldable pub minus : Lists P → Position → ℕ → Position
  unfolding plus_one plus minus_one
  minus s it zero = minus_one s it
  minus s it (suc zero) = minus_one s it
  minus s it (suc (suc n)) = plus s (plus_one s it) (suc n)

  -- `std::lower_bound` in a list, by base.
  pub seek_base : ℕ → List (Extent P) → ℕ
  seek_base b [] = 0
  seek_base b (e ∷ es) = let on = seek_base b es in if ltb e.base b then suc on else 0

  -- Whether the extent there begins at or before `b` and reaches over it.
  pub reaches_over : ℕ → List (Extent P) → ℕ → Bool
  reaches_over b [] k = false
  reaches_over b (e ∷ es) zero = leb e.base b && ltb b (limit e)
  reaches_over b (e ∷ es) (suc k) = reaches_over b es k

  -- The position in the list that `maxes` names.
  pub bound_in : Lists P → ℕ → ℕ → Position
  unfolding seek_base reaches_over
  bound_in s b i =
      let l = nth s.lists i in
      let j = seek_base b l in
      if ltb 0 j && reaches_over b l (j - 1)
      then record { i = i; j = j - 1 }
      else if ltb i (length s.lists - 1) && (j == length l)
      then record { i = i + 1; j = 0 }
      else record { i = i; j = j }

  unfoldable pub lower_bound : Lists P → ℕ → Position
  unfolding seek_max max_is bound_in end
  lower_bound s b =
      let k = seek_max b s.maxes in
      let i = if max_is b s.maxes k then k + 1 else k in
      if length s.lists == 0 then end s else if i == length s.maxes then end s else bound_in s b i

  -- `_expand`, with `_slice`, for the number `load`.
  pub expand : ℕ → Lists P → Position → Lists P × Position
  expand load s it =
      let l = nth s.lists it.i in
      if leb (load * 2) (length l)
      then (
        record {
          lists = insert_at (set s.lists it.i (take load l)) (it.i + 1) (drop load l);
          maxes =
              insert_at (set s.maxes it.i (last_limit (take load l))) (it.i + 1)
                (last_limit (drop load l));
          count = s.count;
        },
        if leb load it.j
            then record { i = it.i + 1; j = it.j - load }
            else record { i = it.i; j = it.j },
      )
      else (s, it)

  -- `_insert`
  unfoldable pub insert : ℕ → Lists P → Position → Extent P → Lists P × Position
  unfolding expand first
  insert load s it e =
      let l = insert_at (nth s.lists it.i) it.j e in
      if s.count == 0
      then (first s e, begin (first s e))
      else expand load
          (record {
            lists = set s.lists it.i l;
            maxes = set s.maxes it.i (last_limit l);
            count = s.count + 1;
          })
          it

  -- The part of `_erase` that takes the extent out, and the list if nothing is left of it.
  pub take_out : Lists P → Position → Lists P
  take_out s it =
      let l = erase_at (nth s.lists it.i) it.j in
      if ltb 0 (length l)
      then record {
        lists = set s.lists it.i l;
        maxes = set s.maxes it.i (last_limit l);
        count = s.count - 1;
      }
      else record {
        lists = erase_at s.lists it.i;
        maxes = erase_at s.maxes it.i;
        count = s.count - 1;
      }

  -- The list at `pos` is added to the end of the one before it.
  pub join : Lists P → ℕ → Lists P
  join s pos =
      let l = nth s.lists (pos - 1) ++ nth s.lists pos in
      record {
        lists = erase_at (set s.lists (pos - 1) l) pos;
        maxes = erase_at (set s.maxes (pos - 1) (last_limit l)) pos;
        count = s.count;
      }

  -- A list that has become short is joined with a neighbour.
  pub rebalance : ℕ → Lists P → Position → Lists P × Position
  unfolding expand join
  rebalance load s it =
      let l = nth s.lists it.i in
      let pos = if ltb 0 it.i then it.i else it.i + 1 in
      let j = if pos == it.i then it.j + length (nth s.lists (pos - 1)) else it.j in
      if ltb (load / 2) (length l)
      then (s, it)
      else if ltb 1 (length s.lists)
      then expand load (join s pos) (record { i = pos - 1; j = j })
      else if ltb 0 (length l)
      then (record s { maxes = set s.maxes it.i (last_limit l) }, it)
      else (s, it)

  -- From the end of a list, unless it is the last, on to the next.
  pub settle : Lists P → Position → Position
  settle s it =
      if (it.j == length (nth s.lists it.i)) && not (it.i == length s.lists - 1)
      then record { i = it.i + 1; j = 0 }
      else it

  -- `_erase`
  unfoldable pub erase : ℕ → Lists P → Position → Lists P × Position
  unfolding take_out rebalance settle end
  erase load s it =
      let s₁ = take_out s it in
      if length s₁.lists == 0
      then (s₁, end s₁)
      else let (s₂, it₂) = rebalance load s₁ it in (s₂, settle s₂ it₂)
