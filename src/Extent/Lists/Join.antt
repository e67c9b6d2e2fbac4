-- ===== src/Extent/Lists/Join.antt =====
-- src/extent.h, the part of `_erase` that joins a list with the one before it.
use lsvd_rbd.Base.{
  suc_add, add_sub, ℕ, ◌+◌, ◌*◌, ◌/◌, ◌≤◌, ◌<◌, ◌≡◌, refl, sym, ap, List, [], ◌∷◌, ◌++◌, map,
  length, length-append, append_assoc, arith,
}
use lsvd_rbd.Extent.{Extent}
use lsvd_rbd.Extent.Lists.{Lists, Position, erase_at, last_limit, expand, join}
use lsvd_rbd.Extent.Lists.Split.{
  flat, flat-append, offset-append, nth-append, set-append, map-set, map-erase_at,
}
use lsvd_rbd.Extent.Lists.Shape.{Sizes, Halves, WellFormed, index, InLists}
use lsvd_rbd.Extent.Lists.Expand.{Expanded, expand-Expanded, expand-Halves, nth_after}

erase_after :
    {A : Type 0} (xs : List A) (a b : A) (ys : List A)
    → erase_at (xs ++ (a ∷ b ∷ ys)) (length xs + 1) ≡ (xs ++ (a ∷ ys))
erase_after [] a b ys = refl
erase_after (x ∷ xs) a b ys = rw (suc_add (length xs) 1) (ap (λ t. x ∷ t) (erase_after xs a b ys))

module _ {P : Type 0} where
  -- The same extents in well-formed lists, and an iterator to place `n` among them.
  pub record Balanced (load : ℕ) (s : Lists P) (n : ℕ) (r : Lists P × Position) : Type 0 where
    pub same : flat r.0.lists ≡ flat s.lists
    pub kept : index r.0 r.1 ≡ n
    pub well : WellFormed load r.0
    pub within : InLists r.0 r.1

  joined : Lists P → List (List (Extent P)) → List (Extent P) → List (List (Extent P)) → Lists P
  joined s xs l ys = record {
    lists = xs ++ (l ∷ ys);
    maxes = map last_limit (xs ++ (l ∷ ys));
    count = s.count;
  }

  module _ (load : ℕ) (s : Lists P) (xs : List (List (Extent P))) (a b : List (Extent P))
      (ys : List (List (Extent P))) (whole : s.lists ≡ (xs ++ (a ∷ b ∷ ys)))
      (maxima : s.maxes ≡ map last_limit s.lists) where
    join_parts : join s (length xs + 1) ≡ joined s xs (a ++ b) ys
    unfolding join joined
    join_parts =
        rw
          (
            maxima,
            whole,
            add_sub (length xs),
            nth-append xs a (b ∷ ys),
            nth_after xs a b ys,
            set-append xs a (b ∷ ys) (a ++ b),
            erase_after xs (a ++ b) b ys,
            sym (map-set last_limit (xs ++ (a ∷ b ∷ ys)) (length xs) (a ++ b)),
            set-append xs a (b ∷ ys) (a ++ b),
            sym (map-erase_at last_limit (xs ++ ((a ++ b) ∷ b ∷ ys)) (length xs + 1)),
            erase_after xs (a ++ b) b ys,
          )
          refl

    same_extents : flat (xs ++ ((a ++ b) ∷ ys)) ≡ flat s.lists
    same_extents =
        rw
          (
            whole,
            flat-append xs ((a ++ b) ∷ ys),
            flat-append xs (a ∷ b ∷ ys),
            append_assoc a b (flat ys),
          )
          refl

    -- Joined with its neighbour, a list is split again if it has become too long.
    pub join-Balanced :
        (j : ℕ)
        → 0 < load
        → 0 < length a + length b
        → length a + length b < load * 3
        → load / 2 < length a + length b
        → Sizes load xs
        → Sizes load ys
        → Halves load xs
        → Halves load ys
        → s.count ≡ length (flat s.lists)
        → j ≤ length a + length b
        → Balanced load s
            (length (flat xs) + j)
            (expand load (join s (length xs + 1)) (record { i = length xs; j = j }))
    unfolding joined
    join-Balanced j some_load some few half v w hv hw counted k =
        let total : length (a ++ b) ≡ length a + length b = length-append a b in
        let r : Expanded load (joined s xs (a ++ b) ys) (record { i = length xs; j = j })
            (expand load (joined s xs (a ++ b) ys) (record { i = length xs; j = j })) =
          expand-Expanded load (joined s xs (a ++ b) ys) xs (a ++ b) ys refl refl j some_load
            (omega arith) (omega arith) v w (omega arith) in
        rw join_parts (record {
          same = rw (r.same) same_extents;
          kept = rw (r.kept) (rw (offset-append xs ((a ++ b) ∷ ys)) refl);
          well = record {
            maxima = r.maxima;
            sizes = r.sized;
            halves = λ several.
                expand-Halves load (joined s xs (a ++ b) ys) xs (a ++ b) ys refl refl j some_load
                  (omega arith) (omega arith) hv hw;
            counted = rw (r.count, r.same, same_extents) counted;
          };
          within = r.within;
        })
