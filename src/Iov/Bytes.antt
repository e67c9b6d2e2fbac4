-- ===== src/Iov/Bytes.antt =====
-- src/smartiov.h: the addresses that a buffer stands for, one after the other.
use lsvd_rbd.Base.{
  add_zero, add_suc, sub_zero, zero_sub, suc_sub, ℕ, zero, suc, ◌+◌, ◌-◌, ◌≡◌, refl, sym, ap, min,
  inl, inr, lt_or_le, ltb-true, ltb-false, append_assoc, length-append, List, [], ◌∷◌, ◌++◌, take,
  drop, length, arith,
}
use lsvd_rbd.Iov.{Iovec, Memory, bytes, nonempty, ingest}

min_zero : (n : ℕ) → min 0 n ≡ 0
min_zero n = omega arith

min_right : (n : ℕ) → min n 0 ≡ 0
min_right n = omega arith

min-suc : (m n : ℕ) → min (suc m) (suc n) ≡ suc (min m n)
min-suc m n = omega arith

-- The addresses from `p` on.
abbrev pub span : ℕ → ℕ → List ℕ
span p zero = []
span p (suc n) = p ∷ span (suc p) n

abbrev pub addresses : List Iovec → List ℕ
addresses [] = []
addresses (i ∷ v) = span i.base i.len ++ addresses v

-- What memory holds there.
abbrev pub contents : List ℕ → Memory → List ℕ
contents [] m = []
contents (x ∷ xs) m = m x ∷ contents xs m

pub length-span : (p n : ℕ) → length (span p n) ≡ n
length-span p zero = refl
length-span p (suc n) = ap suc (length-span (suc p) n)

pub take-span : (k p n : ℕ) → take k (span p n) ≡ span p (min k n)
take-span zero p n = rw (min_zero n) refl
take-span (suc k) p zero = rw (min_right (suc k)) refl
take-span (suc k) p (suc n) = rw (min-suc k n) (ap (λ t. p ∷ t) (take-span k (suc p) n))

pub drop-span : (k p n : ℕ) → drop k (span p n) ≡ span (p + k) (n - k)
drop-span zero p n = rw (add_zero p, sub_zero n) refl
drop-span (suc k) p zero = rw (zero_sub (suc k)) refl
drop-span (suc k) p (suc n) = rw (add_suc p k, suc_sub n k) (drop-span k (suc p) n)

pub length-addresses : (v : List Iovec) → length (addresses v) ≡ bytes v
unfolding bytes
length-addresses [] = refl
length-addresses (i ∷ v) =
    rw
      (
        length-append (span i.base i.len) (addresses v),
        length-span i.base i.len,
        length-addresses v,
      )
      refl

addresses-append : (v w : List Iovec) → addresses (v ++ w) ≡ (addresses v ++ addresses w)
addresses-append [] w = refl
addresses-append (i ∷ v) w =
    rw (addresses-append v w) (sym (append_assoc (span i.base i.len) (addresses v) (addresses w)))

pub nonempty-addresses : (iov : List Iovec) → addresses (nonempty iov) ≡ addresses iov
unfolding nonempty
nonempty-addresses [] = refl
nonempty-addresses (i ∷ iov) = elim (lt_or_le 0 i.len) [
  | inl some_bytes ↦ rw (ltb-true 0 i.len some_bytes, nonempty-addresses iov) refl
  | inr no_bytes ↦
      let none : i.len ≡ 0 = omega arith in
      rw (ltb-false 0 i.len no_bytes, none) (nonempty-addresses iov)
]

-- Taking iovecs in adds exactly their bytes, in order, though the empty ones are left out.
pub ingest-addresses :
    (v iov : List Iovec) → addresses (ingest v iov) ≡ (addresses v ++ addresses iov)
unfolding ingest
ingest-addresses v iov = rw (addresses-append v (nonempty iov), nonempty-addresses iov) refl
