-- ===== src/Base/Numbers.antt =====
-- Laws of the native numbers that do not hold by computing, and equality tests.
use Prim.Native.Nat.{ℕ, suc, ◌+◌, ◌-◌, ◌<◌}
use mathlib.Core.Path.{◌≡◌}
use mathlib.Core.Bool.{true, false}
use native.Mathlib.Omega.{arith}
use lsvd_rbd.Base.Tests.{◌==◌}

pub add_zero : (n : ℕ) → n + 0 ≡ n
add_zero n = omega arith

pub zero_add : (n : ℕ) → 0 + n ≡ n
zero_add n = omega arith

pub suc_add : (m n : ℕ) → suc m + n ≡ suc (m + n)
suc_add m n = omega arith

pub add_suc : (m n : ℕ) → m + suc n ≡ suc m + n
add_suc m n = omega arith

pub sub_zero : (n : ℕ) → n - 0 ≡ n
sub_zero n = omega arith

pub zero_sub : (n : ℕ) → 0 - n ≡ 0
zero_sub n = omega arith

pub suc_sub : (m n : ℕ) → suc m - suc n ≡ m - n
suc_sub m n = omega arith

pub suc_sub_one : (n : ℕ) → suc n - 1 ≡ n
suc_sub_one n = omega arith

pub add_sub : (n : ℕ) → n + 1 - 1 ≡ n
add_sub n = omega arith

pub sub_add : (n : ℕ) → 0 < n → n - 1 + 1 ≡ n
sub_add n h = omega arith

pub equal : (m n : ℕ) → m ≡ n → (m == n) ≡ true
equal m n h = ground arith

pub not_equal : (m n : ℕ) → m < n → (m == n) ≡ false
not_equal m n h = ground arith

pub not_zero : (n : ℕ) → 0 < n → (n == 0) ≡ false
not_zero n h = ground arith
