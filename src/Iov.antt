-- ===== src/Iov.antt =====
-- src/smartiov.h, `smartiov`: scatter-gather buffers. An address is a number, memory a function from
-- addresses to bytes; `memset` and `memcpy` are those of the C library. An assertion that fails is
-- `none`.
pub mod Bytes
pub mod Slice
pub mod Copy
mod Tests
use lsvd_rbd.Base.{
  ℕ, ◌+◌, ◌-◌, ◌*◌, ◌/◌, ◌%◌, ◌^◌, ◌≤◌, ◌<◌, Bool, true, false, ◌&&◌, leb, ltb, ◌==◌, if◌then◌else◌,
  min, Option, none, some, List, [], ◌∷◌, ◌++◌,
}

pub record Iovec : Type 0 where
  pub base : ℕ
  pub len : ℕ

abbrev pub Memory : Type 0
Memory = ℕ → ℕ

unfoldable pub memset : ℕ → ℕ → ℕ → Memory → Memory
memset p v n m x = if leb p x && ltb x (p + n) then v else m x

unfoldable pub memcpy : ℕ → ℕ → ℕ → Memory → Memory
memcpy dst src n m x = if leb dst x && ltb x (dst + n) then m (src + (x - dst)) else m x

-- Subtraction of a `size_t`.
unfoldable pub sub_size : ℕ → ℕ → ℕ
sub_size a b = (a + 2 ^ 64 - b) % 2 ^ 64

-- The constructor from an array and `ingest` take the iovecs that are not empty.
unfoldable pub nonempty : List Iovec → List Iovec
nonempty [] = []
nonempty (i ∷ iov) = let rest = nonempty iov in if ltb 0 i.len then i ∷ rest else rest

unfoldable pub ingest : List Iovec → List Iovec → List Iovec
unfolding nonempty
ingest v iov = v ++ nonempty iov

unfoldable pub bytes : List Iovec → ℕ
bytes [] = 0
bytes (i ∷ v) = i.len + bytes v

-- The loop of `slice`, over `len` bytes from `off` on.
pub cut : List Iovec → ℕ → ℕ → List Iovec
cut [] off len = []
cut (i ∷ v) off len =
    let n = min len (i.len - off) in
    let skipped = cut v (off - i.len) len in
    let rest = cut v 0 (len - n) in
    if len == 0
    then []
    else if ltb i.len off
    then skipped
    else record { base = i.base + off; len = n } ∷ rest

unfoldable pub slice : List Iovec → ℕ → ℕ → Option (List Iovec)
unfolding cut bytes sub_size
slice v off limit = if leb limit (bytes v) then some (cut v off (sub_size limit off)) else none

unfoldable pub zero_all : List Iovec → Memory → Memory
unfolding memset
zero_all [] m = m
zero_all (i ∷ v) m = zero_all v (memset i.base 0 i.len m)

-- The loop of the other `zero`, over `len` bytes from `off` on.
pub zero_loop : List Iovec → ℕ → ℕ → Memory → Memory
unfolding memset
zero_loop [] off len m = m
zero_loop (i ∷ v) off len m =
    let n = min len (i.len - off) in
    let skipped = zero_loop v (off - i.len) len m in
    let rest = zero_loop v 0 (len - n) (memset (i.base + off) 0 n m) in
    if len == 0 then m else if ltb i.len off then skipped else rest

unfoldable pub zero_range : List Iovec → ℕ → ℕ → Memory → Memory
unfolding zero_loop sub_size
zero_range v off limit m = zero_loop v off (sub_size limit off) m

unfoldable pub copy_in : List Iovec → ℕ → Memory → Memory
unfolding memcpy
copy_in [] buf m = m
copy_in (i ∷ v) buf m = copy_in v (buf + i.len) (memcpy i.base buf i.len m)

-- The loop of the other `copy_in`, with `remaining` bytes to copy.
pub copy_loop : List Iovec → ℕ → ℕ → Memory → Memory
unfolding memcpy
copy_loop [] buf remaining m = m
copy_loop (i ∷ v) buf remaining m =
    let n = min remaining i.len in
    let m₁ = memcpy i.base buf n m in
    let rest = copy_loop v (buf + i.len) (remaining - n) m₁ in
    if remaining - n == 0 then m₁ else rest

-- A null pointer is `none`.
unfoldable pub copy_in_limit : List Iovec → Option ℕ → ℕ → Memory → Option Memory
unfolding copy_loop
copy_in_limit v none limit m = if limit == 0 then some m else none
copy_in_limit v (some buf) limit m = if limit == 0 then some m else some (copy_loop v buf limit m)

unfoldable pub copy_out : List Iovec → ℕ → Memory → Memory
unfolding memcpy
copy_out [] buf m = m
copy_out (i ∷ v) buf m = copy_out v (buf + i.len) (memcpy buf i.base i.len m)

-- `aligned`, for an alignment that is a power of two.
unfoldable pub aligned : List Iovec → ℕ → Bool
aligned [] k = true
aligned (i ∷ v) k = let rest = aligned v k in if i.base % 2 ^ k == 0 then rest else false
