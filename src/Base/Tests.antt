-- ===== src/Base/Tests.antt =====
-- Boolean tests on the native numbers and the conditional.
use Prim.Native.Nat.{ℕ, ◌≤◌, ◌<◌, compare, Ordering}
use mathlib.Core.Path.{◌≡◌, refl}
use mathlib.Core.Logic.{◌⊎◌, inl, inr}
use mathlib.Core.Bool.{Bool, true, false, ◌&&◌}
use mathlib.Core.Option.{Option, none, some}
use native.Mathlib.Omega.{arith}

abbrev pub ltb : ℕ → ℕ → Bool
ltb a b = elim (compare a b) [ Ordering.lt ↦ true | _ ↦ false ]

abbrev pub leb : ℕ → ℕ → Bool
leb a b = elim (compare a b) [ Ordering.gt ↦ false | _ ↦ true ]

infix 50 ◌==◌
abbrev pub ◌==◌ : ℕ → ℕ → Bool
a == b = elim (compare a b) [ Ordering.eq ↦ true | _ ↦ false ]

infix 1 if◌then◌else◌
abbrev pub if◌then◌else◌ {ℓ} : {A : Type ℓ} → Bool → A → A → A
if true then x else y = x
if false then x else y = y

pub Bool-cases : (b : Bool) → (b ≡ true) ⊎ (b ≡ false)
Bool-cases true = inl refl
Bool-cases false = inr refl

pub Option-cases {ℓ} : {A : Type ℓ} (o : Option A) → (o ≡ none) ⊎ ((a : A) × (o ≡ some a))
Option-cases none = inl refl
Option-cases (some a) = inr (a, refl)

pub lt_or_le : (a b : ℕ) → (a < b) ⊎ (b ≤ a)
lt_or_le a b = grind arith

pub ltb-true : (a b : ℕ) → a < b → ltb a b ≡ true
ltb-true a b h = ground arith

pub ltb-false : (a b : ℕ) → b ≤ a → ltb a b ≡ false
ltb-false a b h = ground arith

pub leb-true : (a b : ℕ) → a ≤ b → leb a b ≡ true
leb-true a b h = ground arith

pub leb-false : (a b : ℕ) → b < a → leb a b ≡ false
leb-false a b h = ground arith

pub leb→le : (a b : ℕ) → leb a b ≡ true → a ≤ b
leb→le a b h = ground arith

-- The test that a number lies in a range, both ways.
pub test-pos : (a x b : ℕ) → a ≤ x → x < b → (leb a x && ltb x b) ≡ true
test-pos a x b h k = ground arith

pub test-neg : (a x b : ℕ) → b ≤ x → (leb a x && ltb x b) ≡ false
test-neg a x b h = ground arith

pub test-below : (a x b : ℕ) → x < a → (leb a x && ltb x b) ≡ false
test-below a x b h = ground arith
