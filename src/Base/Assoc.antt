-- ===== src/Base/Assoc.antt =====
-- `std::map` with numbers as keys: an association list in the order of the keys.
use Prim.Native.Nat.{ℕ, ◌+◌, ◌≤◌, ◌<◌}
use mathlib.Core.Path.{◌≡◌, refl}
use mathlib.Core.List.{List, [], ◌∷◌}
use mathlib.Core.Option.{Option, none, some}
use native.Mathlib.Omega.{arith}
use lsvd_rbd.Base.Tests.{◌==◌, ltb, if◌then◌else◌}

module _ {ℓ} {V : Type ℓ} where
  unfoldable pub find : ℕ → List (ℕ × V) → Option V
  find k [] = none
  find k ((j, v) ∷ m) = if j == k then some v else find k m

  unfoldable pub insert : ℕ → V → List (ℕ × V) → List (ℕ × V)
  insert k v [] = (k, v) ∷ []
  insert k v ((j, w) ∷ m) =
      if j == k then (k, v) ∷ m else if ltb k j then (k, v) ∷ (j, w) ∷ m else (j, w) ∷ insert k v m

  unfoldable pub erase : ℕ → List (ℕ × V) → List (ℕ × V)
  erase k [] = []
  erase k ((j, w) ∷ m) = if j == k then erase k m else (j, w) ∷ erase k m

  pub find-nil : (k : ℕ) → find k [] ≡ none
  unfolding find
  find-nil k = refl

  pub find-insert :
      (j k : ℕ) (v : V) (m : List (ℕ × V))
      → find j (insert k v m) ≡ (if k == j then some v else find j m)
  unfolding find insert
  find-insert j k v [] = refl
  find-insert j k v ((i, w) ∷ m) = ground (arith, find-insert j k v m)

  pub find-erase :
      (j k : ℕ) (m : List (ℕ × V)) → find j (erase k m) ≡ (if k == j then none else find j m)
  unfolding find erase
  find-erase j k [] = ground arith
  find-erase j k ((i, w) ∷ m) = ground (arith, find-erase j k m)

-- The keys rise along the table, from `lo` on.
abbrev pub KeysAbove {ℓ} : {V : Type ℓ} → ℕ → List (ℕ × V) → Type 0
KeysAbove lo [] = Unit {0}
KeysAbove lo ((j, v) ∷ m) = (lo ≤ j) × KeysAbove (j + 1) m

module _ {ℓ} {V : Type ℓ} where
  pub find-cons :
      (k j : ℕ) (v : V) (m : List (ℕ × V))
      → find k ((j, v) ∷ m) ≡ (if j == k then some v else find k m)
  unfolding find
  find-cons k j v m = refl

  pub find-KeysAbove : (k lo : ℕ) (m : List (ℕ × V)) → KeysAbove lo m → k < lo → find k m ≡ none
  unfolding find
  find-KeysAbove k lo [] v h = refl
  find-KeysAbove k lo ((j, w) ∷ m) v h = ground (arith, find-KeysAbove k (j + 1) m v.1)
