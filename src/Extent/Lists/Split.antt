-- ===== src/Extent/Lists/Split.antt =====
-- src/extent.h, `extmap`: the lists before, at and after an index, and what the operations on vectors
-- do there.
use lsvd_rbd.Base.{
  zero_add, suc_add, ℕ, zero, suc, ◌+◌, ◌≤◌, ◌<◌, ◌≡◌, refl, sym, ap, List, [], ◌∷◌, ◌++◌, map,
  length, set, take, drop, length-append, append_assoc, arith,
}
use lsvd_rbd.Extent.Lists.{nth, insert_at, erase_at}

module _ {ℓ} {A : Type ℓ} where
  abbrev pub flat : List (List A) → List A
  flat [] = []
  flat (l ∷ ls) = l ++ flat ls

  -- How many entries stand before a list.
  abbrev pub offset : List (List A) → ℕ → ℕ
  offset ls zero = 0
  offset [] (suc i) = 0
  offset (l ∷ ls) (suc i) = length l + offset ls i

  -- The lists before, at and after an index.
  pub record Parts (ls : List (List A)) (i : ℕ) : Type ℓ where
    pub before : List (List A)
    pub here : List A
    pub after : List (List A)
    pub whole : ls ≡ before ++ (here ∷ after)
    pub index : length before ≡ i

  pub parts : (ls : List (List A)) (i : ℕ) → i < length ls → Parts ls i
  parts [] i h = absurd (omega arith)
  parts (l ∷ ls) zero h = record { before = []; here = l; after = ls; whole = refl; index = refl }
  parts (l ∷ ls) (suc i) h =
      let p : Parts ls i = parts ls i (omega arith) in
      record {
        before = l ∷ p.before;
        here = p.here;
        after = p.after;
        whole = ap (λ t. l ∷ t) p.whole;
        index = ap suc p.index;
      }

  pub flat-append : (xs ys : List (List A)) → flat (xs ++ ys) ≡ (flat xs ++ flat ys)
  flat-append [] ys = refl
  flat-append (x ∷ xs) ys = rw (flat-append xs ys) (sym (append_assoc x (flat xs) (flat ys)))

  pub offset-append : (xs ys : List (List A)) → offset (xs ++ ys) (length xs) ≡ length (flat xs)
  offset-append [] ys = refl
  offset-append (x ∷ xs) ys = rw (offset-append xs ys, length-append x (flat xs)) refl

  pub nth-append :
      (xs : List (List A)) (l : List A) (ys : List (List A)) → nth (xs ++ (l ∷ ys)) (length xs) ≡ l
  nth-append [] l ys = refl
  nth-append (x ∷ xs) l ys = nth-append xs l ys

module _ {ℓ} {A : Type ℓ} where
  pub set-append :
      (xs : List A) (l : A) (ys : List A) (v : A)
      → set (xs ++ (l ∷ ys)) (length xs) v ≡ (xs ++ (v ∷ ys))
  set-append [] l ys v = refl
  set-append (x ∷ xs) l ys v = ap (λ t. x ∷ t) (set-append xs l ys v)

  pub insert_at-append :
      (xs : List A) (ys : List A) (v : A) → insert_at (xs ++ ys) (length xs) v ≡ (xs ++ (v ∷ ys))
  insert_at-append [] ys v = refl
  insert_at-append (x ∷ xs) ys v = ap (λ t. x ∷ t) (insert_at-append xs ys v)

  pub erase_at-append :
      (xs : List A) (l : A) (ys : List A) → erase_at (xs ++ (l ∷ ys)) (length xs) ≡ (xs ++ ys)
  erase_at-append [] l ys = refl
  erase_at-append (x ∷ xs) l ys = ap (λ t. x ∷ t) (erase_at-append xs l ys)

  -- Inside the middle one of three lists.
  pub insert_at-middle :
      (xs l ys : List A) (j : ℕ) (v : A)
      → j ≤ length l
      → insert_at (xs ++ (l ++ ys)) (length xs + j) v ≡ (xs ++ (insert_at l j v ++ ys))
  insert_at-middle (x ∷ xs) l ys j v h =
      rw (suc_add (length xs) j) (ap (λ t. x ∷ t) (insert_at-middle xs l ys j v h))
  insert_at-middle [] l ys zero v h = refl
  insert_at-middle [] [] ys (suc j) v h = absurd (omega arith)
  insert_at-middle [] (y ∷ l) ys (suc j) v h =
      rw (zero_add (suc j))
        (ap (λ t. y ∷ t) (rw (zero_add j) at (insert_at-middle [] l ys j v (omega arith))))

  pub erase_at-middle :
      (xs l ys : List A) (j : ℕ)
      → j < length l
      → erase_at (xs ++ (l ++ ys)) (length xs + j) ≡ (xs ++ (erase_at l j ++ ys))
  erase_at-middle (x ∷ xs) l ys j h =
      rw (suc_add (length xs) j) (ap (λ t. x ∷ t) (erase_at-middle xs l ys j h))
  erase_at-middle [] [] ys j h = absurd (omega arith)
  erase_at-middle [] (y ∷ l) ys zero h = refl
  erase_at-middle [] (y ∷ l) ys (suc j) h =
      rw (zero_add (suc j))
        (ap (λ t. y ∷ t) (rw (zero_add j) at (erase_at-middle [] l ys j (omega arith))))

  pub length-insert_at :
      (l : List A) (j : ℕ) (v : A) → j ≤ length l → length (insert_at l j v) ≡ length l + 1
  length-insert_at l zero v h = omega arith
  length-insert_at [] (suc j) v h = absurd (omega arith)
  length-insert_at (y ∷ l) (suc j) v h = omega (arith, length-insert_at l j v (omega arith))

  pub length-erase_at : (l : List A) (j : ℕ) → j < length l → length (erase_at l j) + 1 ≡ length l
  length-erase_at [] j h = absurd (omega arith)
  length-erase_at (y ∷ l) zero h = omega arith
  length-erase_at (y ∷ l) (suc j) h = omega (arith, length-erase_at l j (omega arith))

  pub take-drop : (n : ℕ) (l : List A) → (take n l ++ drop n l) ≡ l
  take-drop zero l = refl
  take-drop (suc n) [] = refl
  take-drop (suc n) (x ∷ l) = ap (λ t. x ∷ t) (take-drop n l)

-- The vectors of lists and of maxima change alike.
module _ {ℓ κ} {A : Type ℓ} {B : Type κ} (f : A → B) where
  pub map-append : (xs ys : List A) → map f (xs ++ ys) ≡ (map f xs ++ map f ys)
  map-append [] ys = refl
  map-append (x ∷ xs) ys = ap (λ t. f x ∷ t) (map-append xs ys)

  pub map-set : (xs : List A) (i : ℕ) (v : A) → map f (set xs i v) ≡ set (map f xs) i (f v)
  map-set [] i v = refl
  map-set (x ∷ xs) zero v = refl
  map-set (x ∷ xs) (suc i) v = ap (λ t. f x ∷ t) (map-set xs i v)

  pub map-insert_at :
      (xs : List A) (i : ℕ) (v : A) → map f (insert_at xs i v) ≡ insert_at (map f xs) i (f v)
  map-insert_at xs zero v = refl
  map-insert_at [] (suc i) v = refl
  map-insert_at (x ∷ xs) (suc i) v = ap (λ t. f x ∷ t) (map-insert_at xs i v)

  pub map-erase_at : (xs : List A) (i : ℕ) → map f (erase_at xs i) ≡ erase_at (map f xs) i
  map-erase_at [] i = refl
  map-erase_at (x ∷ xs) zero = refl
  map-erase_at (x ∷ xs) (suc i) = ap (λ t. f x ∷ t) (map-erase_at xs i)
