-- ===== src/Format.antt =====
-- src/objects.h and src/objects.cc: the bytes of the objects in the backend. A buffer is a list of
-- bytes, a pointer into it an offset; numbers are little-endian. A byte behind the end reads as 0.
pub mod Bytes
pub mod Headers
pub mod Tables
pub mod Fetch
pub mod Superblock
pub mod DataHeader
pub mod Checkpoint
mod Tests
use lsvd_rbd.Base.{
  ℕ, zero, suc, ◌+◌, ◌-◌, ◌*◌, ◌/◌, ◌%◌, ◌^◌, leb, ltb, ◌==◌, if◌then◌else◌, List, [], ◌∷◌, ◌++◌,
  length, take, drop,
}

abbrev pub Bytes : Type 0
Bytes = List ℕ

-- A number of `w` bytes as it lies in memory; it is cut to that width.
abbrev pub le : ℕ → ℕ → Bytes
le zero v = []
le (suc w) v = (v % 256) ∷ le w (v / 256)

unfoldable pub decode : ℕ → Bytes → ℕ
decode zero bs = 0
decode (suc w) [] = 0
decode (suc w) (b ∷ bs) = b + 256 * decode w bs

-- The field of `w` bytes at an offset.
unfoldable pub field : ℕ → ℕ → Bytes → ℕ
unfolding decode
field w off buf = decode w (drop off buf)

abbrev pub zeros : ℕ → Bytes
zeros zero = []
zeros (suc n) = 0 ∷ zeros n

-- `vec::resize` to a larger size.
unfoldable pub resize : ℕ → Bytes → Bytes
resize n buf = buf ++ zeros (n - length buf)

-- Bytes written over those at an offset.
unfoldable pub blit : ℕ → Bytes → Bytes → Bytes
blit off bs buf = take off buf ++ (bs ++ drop (off + length bs) buf)
