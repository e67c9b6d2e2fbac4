-- ===== src/Base/Lists.antt =====
-- Lists measured by native numbers, reversal onto a list, and the first of two options.
use Prim.Native.Nat.{ℕ, zero, suc, ◌+◌, ◌-◌, ◌≤◌}
use mathlib.Core.Path.{◌≡◌, refl, ap}
use mathlib.Core.List.{List, [], ◌∷◌, ◌++◌, map}
use mathlib.Core.Option.{Option, none, some}
use lsvd_rbd.Base.Numbers.{zero_sub, sub_zero, suc_sub, zero_add, suc_add}
use native.Mathlib.Omega.{arith}

module _ {ℓ} {A : Type ℓ} where
  abbrev pub length : List A → ℕ
  length [] = 0
  length (x ∷ xs) = suc (length xs)

  abbrev pub get_elem? : List A → ℕ → Option A
  get_elem? [] i = none
  get_elem? (x ∷ xs) zero = some x
  get_elem? (x ∷ xs) (suc i) = get_elem? xs i

  abbrev pub set : List A → ℕ → A → List A
  set [] i v = []
  set (x ∷ xs) zero v = v ∷ xs
  set (x ∷ xs) (suc i) v = x ∷ set xs i v

  abbrev pub take : ℕ → List A → List A
  take zero xs = []
  take (suc n) [] = []
  take (suc n) (x ∷ xs) = x ∷ take n xs

  abbrev pub drop : ℕ → List A → List A
  drop zero xs = xs
  drop (suc n) [] = []
  drop (suc n) (x ∷ xs) = drop n xs

  pub length-append : (xs ys : List A) → length (xs ++ ys) ≡ length xs + length ys
  length-append [] ys = omega arith
  length-append (x ∷ xs) ys = omega (arith, length-append xs ys)

  -- The first list reversed, in front of the second.
  abbrev pub rev_append : List A → List A → List A
  rev_append [] ys = ys
  rev_append (x ∷ xs) ys = rev_append xs (x ∷ ys)

  abbrev pub or_else : Option A → Option A → Option A
  or_else none b = b
  or_else (some a) b = some a

  pub or_else-none : (a : Option A) → or_else a none ≡ a
  or_else-none none = refl
  or_else-none (some a) = refl

  pub or_else_assoc : (a b c : Option A) → or_else a (or_else b c) ≡ or_else (or_else a b) c
  or_else_assoc none b c = refl
  or_else_assoc (some a) b c = refl

pub length-map {ℓ κ} :
    {A : Type ℓ} {B : Type κ} (f : A → B) (xs : List A) → length (map f xs) ≡ length xs
length-map f [] = refl
length-map f (x ∷ xs) = ap suc (length-map f xs)

module _ {ℓ} {A : Type ℓ} where
  pub take_nil : (n : ℕ) → take {A = A} n [] ≡ []
  take_nil zero = refl
  take_nil (suc n) = refl

  pub drop_nil : (n : ℕ) → drop {A = A} n [] ≡ []
  drop_nil zero = refl
  drop_nil (suc n) = refl

  pub append_nil : (xs : List A) → (xs ++ []) ≡ xs
  append_nil [] = refl
  append_nil (x ∷ xs) = ap (λ t. x ∷ t) (append_nil xs)

  pub append_assoc : (xs ys zs : List A) → ((xs ++ ys) ++ zs) ≡ (xs ++ (ys ++ zs))
  append_assoc [] ys zs = refl
  append_assoc (x ∷ xs) ys zs = ap (λ t. x ∷ t) (append_assoc xs ys zs)

  pub take-append :
      (n : ℕ) (xs ys : List A) → take n (xs ++ ys) ≡ (take n xs ++ take (n - length xs) ys)
  take-append zero xs ys = rw (zero_sub (length xs)) refl
  take-append (suc n) [] ys = rw (sub_zero (suc n)) refl
  take-append (suc n) (x ∷ xs) ys =
      rw (suc_sub n (length xs)) (ap (λ t. x ∷ t) (take-append n xs ys))

  pub drop-append :
      (n : ℕ) (xs ys : List A) → drop n (xs ++ ys) ≡ (drop n xs ++ drop (n - length xs) ys)
  drop-append zero xs ys = rw (zero_sub (length xs)) refl
  drop-append (suc n) [] ys = rw (sub_zero (suc n)) refl
  drop-append (suc n) (x ∷ xs) ys = rw (suc_sub n (length xs)) (drop-append n xs ys)

  pub take_all : (n : ℕ) (xs : List A) → length xs ≤ n → take n xs ≡ xs
  take_all zero [] h = refl
  take_all (suc n) [] h = refl
  take_all zero (x ∷ xs) h = absurd (omega arith)
  take_all (suc n) (x ∷ xs) h = ap (λ t. x ∷ t) (take_all n xs (omega arith))

  pub length-take : (n : ℕ) (xs : List A) → n ≤ length xs → length (take n xs) ≡ n
  length-take zero xs h = refl
  length-take (suc n) [] h = absurd (omega arith)
  length-take (suc n) (x ∷ xs) h = ap suc (length-take n xs (omega arith))

  pub length-drop : (n : ℕ) (xs : List A) → length (drop n xs) ≡ length xs - n
  length-drop zero xs = omega arith
  length-drop (suc n) [] = omega arith
  length-drop (suc n) (x ∷ xs) = omega (arith, length-drop n xs)

module _ {ℓ} {A : Type ℓ} where
  pub drop-drop : (m n : ℕ) (xs : List A) → drop m (drop n xs) ≡ drop (n + m) xs
  drop-drop m zero xs = rw (zero_add m) refl
  drop-drop m (suc n) [] = rw (suc_add n m) (drop_nil m)
  drop-drop m (suc n) (x ∷ xs) = rw (suc_add n m) (drop-drop m n xs)

  -- Two stretches, one after the other.
  pub take_add : (m n : ℕ) (xs : List A) → (take m xs ++ take n (drop m xs)) ≡ take (m + n) xs
  take_add zero n xs = rw (zero_add n) refl
  take_add (suc m) n [] = rw (suc_add m n) (take_nil n)
  take_add (suc m) n (x ∷ xs) = rw (suc_add m n) (ap (λ t. x ∷ t) (take_add m n xs))
