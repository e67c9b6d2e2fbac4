-- ===== src/Base/Int.antt =====
-- Integers over the native numbers, for counters that may fall below zero.
use Prim.Native.Nat.{ℕ, suc, ◌+◌, ◌-◌}
use lsvd_rbd.Base.Tests.{leb, if◌then◌else◌}

-- `negsuc n` is -(n + 1).
pub data ℤ : Type 0 where
  pos : ℕ → ℤ
  negsuc : ℕ → ℤ

abbrev pub pos_part : ℤ → ℕ
pos_part (pos n) = n
pos_part (negsuc n) = 0

abbrev pub neg_part : ℤ → ℕ
neg_part (pos n) = 0
neg_part (negsuc n) = suc n

-- a - b, as an integer.
abbrev pub sub_ℕ : ℕ → ℕ → ℤ
sub_ℕ a b = if leb b a then pos (a - b) else negsuc (b - a - 1)

-- A counter raised or lowered by a number.
abbrev pub raise : ℤ → ℕ → ℤ
raise z n = sub_ℕ (pos_part z + n) (neg_part z)

abbrev pub lower : ℤ → ℕ → ℤ
lower z n = sub_ℕ (pos_part z) (neg_part z + n)
