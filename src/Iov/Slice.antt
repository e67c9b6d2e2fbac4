-- ===== src/Iov/Slice.antt =====
-- src/smartiov.h, `slice`, the `zero` of a range and the `copy_in` with a limit: the part of a buffer
-- that they are about.
use lsvd_rbd.Base.{
  add_zero, sub_zero, equal, not_zero, ℕ, zero, suc, ◌+◌, ◌-◌, ◌^◌, ◌≤◌, ◌<◌, ◌≡◌, ◌⊎◌, refl, inl,
  inr, lt_or_le, Bool, false, ltb-true, ltb-false, leb-true, ◌==◌, ◌||◌, min, some, List, [], ◌∷◌,
  ◌++◌, take, drop, take_nil, drop_nil, take-append, drop-append, leb, ltb, ◌&&◌, if◌then◌else◌,
  or_assoc, arith,
}
use mathlib.Core.Option
use lsvd_rbd.Iov.{
  Iovec, Memory, memset, memcpy, sub_size, bytes, cut, slice, zero_all, zero_loop, zero_range,
  copy_in, copy_loop, copy_in_limit,
}
use lsvd_rbd.Iov.Bytes.{span, addresses, length-span, take-span, drop-span}

zero_or_pos : (n : ℕ) → (n ≡ 0) ⊎ (0 < n)
zero_or_pos n = grind arith

gone : (k p n : ℕ) → n ≤ k → span p (n - k) ≡ []
gone k p n h = let none : n - k ≡ 0 = omega arith in rw none refl

rest_len : (len n : ℕ) → len - min len n ≡ len - n
rest_len len n = omega arith

cut-addresses :
    (v : List Iovec) (off len : ℕ) → addresses (cut v off len) ≡ take len (drop off (addresses v))
unfolding cut
cut-addresses [] off len = rw (drop_nil {A = ℕ} off, take_nil {A = ℕ} len) refl
cut-addresses (i ∷ v) off len = elim (zero_or_pos len) [
  | inl nothing ↦ rw (equal len 0 nothing, nothing) refl
  | inr more ↦ elim (lt_or_le i.len off) [
    | inl past ↦
        rw
          (
            not_zero len more,
            ltb-true i.len off past,
            cut-addresses v (off - i.len) len,
            drop-append off (span i.base i.len) (addresses v),
            length-span i.base i.len,
            drop-span off i.base i.len,
            gone off (i.base + off) i.len (omega arith),
          )
          refl
    | inr inside ↦
        let at_end : off - i.len ≡ 0 = omega arith in
        rw
          (
            not_zero len more,
            ltb-false i.len off inside,
            cut-addresses v 0 (len - min len (i.len - off)),
            drop-append off (span i.base i.len) (addresses v),
            length-span i.base i.len,
            drop-span off i.base i.len,
            at_end,
            take-append len (span (i.base + off) (i.len - off)) (addresses v),
            length-span (i.base + off) (i.len - off),
            take-span len (i.base + off) (i.len - off),
            rest_len len (i.len - off),
          )
          refl
  ]
]

sub_size-le : (a b : ℕ) → b ≤ a → a < 2 ^ 64 → sub_size a b ≡ a - b
unfolding sub_size
sub_size-le a b h k = omega arith

-- For a range inside the buffer, `slice` gives a buffer that stands for exactly the addresses of the
-- bytes `off` to `limit` of the buffer, in order.
pub slice-addresses :
    (v : List Iovec) (off limit : ℕ)
    → off ≤ limit
    → limit ≤ bytes v
    → limit < 2 ^ 64
    → (w : List Iovec) × ((slice v off limit ≡ some w)
        × (addresses w ≡ take (limit - off) (drop off (addresses v))))
unfolding slice
slice-addresses v off limit h k word = (
  cut v off (limit - off),
  (
    rw (leb-true limit (bytes v) k, sub_size-le limit off h word) refl,
    cut-addresses v off (limit - off),
  ),
)

zero_loop-cut :
    (v : List Iovec) (off len : ℕ) (m : Memory) → zero_loop v off len m ≡ zero_all (cut v off len) m
unfolding zero_loop zero_all cut
zero_loop-cut [] off len m = refl
zero_loop-cut (i ∷ v) off len m = elim (zero_or_pos len) [
  | inl nothing ↦ rw (equal len 0 nothing) refl
  | inr more ↦ elim (lt_or_le i.len off) [
    | inl past ↦
        rw (not_zero len more, ltb-true i.len off past) (zero_loop-cut v (off - i.len) len m)
    | inr inside ↦
        rw (not_zero len more, ltb-false i.len off inside)
          (zero_loop-cut v 0 (len - min len (i.len - off))
            (memset (i.base + off) 0 (min len (i.len - off)) m))
  ]
]

pub member : ℕ → List ℕ → Bool
member x [] = false
member x (y ∷ ys) = (x == y) || member x ys

member-append : (x : ℕ) (ys zs : List ℕ) → member x (ys ++ zs) ≡ (member x ys || member x zs)
unfolding member
member-append x [] zs = refl
member-append x (y ∷ ys) zs =
    rw (member-append x ys zs) (or_assoc (x == y) (member x ys) (member x zs))

member-span : (x p n : ℕ) → member x (span p n) ≡ (leb p x && ltb x (p + n))
unfolding member
member-span x p zero = ground arith
member-span x p (suc n) = rw (member-span x (suc p) n) (ground arith)

memset-or :
    (p n : ℕ) (m : Memory) (x : ℕ) (b : Bool)
    → (if b then 0 else memset p 0 n m x) ≡ (if (leb p x && ltb x (p + n)) || b then 0 else m x)
unfolding memset
memset-or p n m x b = ground arith

zero_all-at :
    (v : List Iovec) (m : Memory) (x : ℕ)
    → zero_all v m x ≡ (if member x (addresses v) then 0 else m x)
unfolding zero_all member
zero_all-at [] m x = refl
zero_all-at (i ∷ v) m x =
    rw
      (
        zero_all-at v (memset i.base 0 i.len m) x,
        member-append x (span i.base i.len) (addresses v),
        member-span x i.base i.len,
      )
      (memset-or i.base i.len m x (member x (addresses v)))

-- Zeroing a range inside the buffer sets to zero the addresses of the bytes `off` to `limit` of the
-- buffer and leaves all other memory as it is.
pub zero_range-at :
    (v : List Iovec) (off limit : ℕ) (m : Memory) (x : ℕ)
    → off ≤ limit
    → limit < 2 ^ 64
    → zero_range v off limit m x
      ≡ (if member x (take (limit - off) (drop off (addresses v))) then 0 else m x)
unfolding zero_range
zero_range-at v off limit m x h word =
    rw
      (
        sub_size-le limit off h word,
        zero_loop-cut v off (limit - off) m,
        zero_all-at (cut v off (limit - off)) m x,
        cut-addresses v off (limit - off),
      )
      refl

cut_none : (v : List Iovec) (off : ℕ) → cut v off 0 ≡ []
unfolding cut
cut_none [] off = refl
cut_none (i ∷ v) off = refl

copy_loop-cut :
    (v : List Iovec) (buf n : ℕ) (m : Memory)
    → 0 < n
    → copy_loop v buf n m ≡ copy_in (cut v 0 n) buf m
unfolding copy_loop copy_in cut
copy_loop-cut [] buf n m more = refl
copy_loop-cut (i ∷ v) buf n m more = elim (zero_or_pos (n - min n i.len)) [
  | inl last ↦
      rw
        (
          equal (n - min n i.len) 0 last,
          not_zero n more,
          ltb-false i.len 0 (omega arith),
          sub_zero i.len,
          last,
          cut_none v 0,
          add_zero i.base,
        )
        refl
  | inr on ↦
      let full : min n i.len ≡ i.len = omega arith in
      rw
        (
          not_zero (n - min n i.len) on,
          not_zero n more,
          ltb-false i.len 0 (omega arith),
          sub_zero i.len,
          full,
          add_zero i.base,
        )
        (copy_loop-cut v (buf + i.len) (n - i.len) (memcpy i.base buf i.len m) (omega arith))
]

-- Copying in with a limit inside the buffer, from a buffer that is there, copies the bytes of the
-- slice from 0 to the limit, and the slice exists.
pub copy_in_limit-slice :
    (v : List Iovec) (buf limit : ℕ) (m : Memory)
    → limit ≤ bytes v
    → limit < 2 ^ 64
    → copy_in_limit v (some buf) limit m ≡ Option.map (λ w. copy_in w buf m) (slice v 0 limit)
unfolding copy_in_limit slice copy_in
copy_in_limit-slice v buf limit m h word = elim (zero_or_pos limit) [
  | inl nothing ↦
      rw
        (
          equal limit 0 nothing,
          nothing,
          leb-true 0 (bytes v) (omega arith),
          sub_size-le 0 0 (omega arith) (omega arith),
          sub_zero 0,
          cut_none v 0,
        )
        refl
  | inr more ↦
      rw
        (
          not_zero limit more,
          leb-true limit (bytes v) h,
          sub_size-le limit 0 (omega arith) word,
          sub_zero limit,
          copy_loop-cut v buf limit m more,
        )
        refl
]
