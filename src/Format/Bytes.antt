-- ===== src/Format/Bytes.antt =====
-- Little-endian numbers and fields of a buffer: what is written is read.
use lsvd_rbd.Base.{
  ℕ, zero, suc, ◌+◌, ◌-◌, ◌*◌, ◌/◌, ◌%◌, ◌^◌, ◌≤◌, ◌<◌, ◌≡◌, refl, ap, List, [], ◌∷◌, ◌++◌,
  append_assoc, zero_add, length, take, drop, min, drop-append, take-append, take_all, append_nil,
  arith,
}
use native.Mathlib.Nat.{pow-succ'}
use lsvd_rbd.Format.{Bytes, le, decode, field, zeros, blit}

pub length-le : (w v : ℕ) → length (le w v) ≡ w
length-le zero v = refl
length-le (suc w) v = ap suc (length-le w (v / 256))

pub length-zeros : (n : ℕ) → length (zeros n) ≡ n
length-zeros zero = refl
length-zeros (suc n) = ap suc (length-zeros n)

byte_split : (v : ℕ) → v % 256 + 256 * (v / 256) ≡ v
byte_split v = omega arith

pow_suc : (w v : ℕ) → v < 256 ^ suc w → v / 256 < 256 ^ w
pow_suc w v h = let e : 256 ^ suc w ≡ 256 * 256 ^ w = pow-succ' 256 w in omega (arith, e)

pub decode-le : (w v : ℕ) (rest : Bytes) → v < 256 ^ w → decode w (le w v ++ rest) ≡ v
unfolding decode
decode-le zero v rest h = omega arith
decode-le (suc w) v rest h = rw (decode-le w (v / 256) rest (pow_suc w v h)) (byte_split v)

pub drop_all : {A : Type 0} (n : ℕ) (xs : List A) → length xs ≤ n → drop n xs ≡ []
drop_all zero [] h = refl
drop_all (suc n) [] h = refl
drop_all zero (x ∷ xs) h = absurd (omega arith)
drop_all (suc n) (x ∷ xs) h = drop_all n xs (omega arith)

-- A field behind a first part of the buffer.
pub drop_past :
    {A : Type 0} (n : ℕ) (pre rest : List A)
    → length pre ≤ n
    → drop n (pre ++ rest) ≡ drop (n - length pre) rest
drop_past n pre rest h = rw (drop-append n pre rest, drop_all n pre h) refl

pub field-past :
    (w off : ℕ) (pre rest : Bytes)
    → length pre ≤ off
    → field w off (pre ++ rest) ≡ field w (off - length pre) rest
unfolding field
field-past w off pre rest h = rw (drop_past off pre rest h) refl

pub field-le : (w v : ℕ) (rest : Bytes) → v < 256 ^ w → field w 0 (le w v ++ rest) ≡ v
unfolding field
field-le w v rest h = decode-le w v rest h

pub take_front : {A : Type 0} (n : ℕ) (xs ys : List A) → length xs ≡ n → take n (xs ++ ys) ≡ xs
take_front n xs ys h =
    let none : n - length xs ≡ 0 = omega arith in
    rw (take-append n xs ys, take_all n xs (omega arith), none) (append_nil xs)

-- The number that the bytes of a number spell.
pub spelled : (w v : ℕ) → v < 256 ^ w → decode w (le w v) ≡ v
spelled w v h = rw (append_nil (le w v)) at (decode-le w v [] h)

pub drop_front : {A : Type 0} (n : ℕ) (xs ys : List A) → length xs ≡ n → drop n (xs ++ ys) ≡ ys
drop_front n xs ys h =
    let none : n - length xs ≡ 0 = omega arith in rw (drop_past n xs ys (omega arith), none) refl

pub length-take-min : {A : Type 0} (n : ℕ) (xs : List A) → length (take n xs) ≡ min n (length xs)
length-take-min zero xs = omega arith
length-take-min (suc n) [] = omega arith
length-take-min (suc n) (x ∷ xs) = omega (arith, length-take-min n xs)

-- The first bytes of a buffer that begins with a shorter one.
pub take_longer :
    {A : Type 0} (n : ℕ) (xs ys : List A)
    → length xs ≤ n
    → take n (xs ++ ys) ≡ xs ++ take (n - length xs) ys
take_longer n xs ys h = rw (take-append n xs ys, take_all n xs h) refl

-- Bytes written at the start of a buffer, and behind a first part.
pub blit_front : (bs buf : Bytes) → blit 0 bs buf ≡ bs ++ drop (length bs) buf
unfolding blit
blit_front bs buf = rw (zero_add (length bs)) refl

pub blit_past :
    (off : ℕ) (bs pre rest : Bytes)
    → length pre ≤ off
    → blit off bs (pre ++ rest) ≡ pre ++ blit (off - length pre) bs rest
unfolding blit
blit_past off bs pre rest h =
    let moved : off + length bs - length pre ≡ off - length pre + length bs = omega arith in
    rw (take_longer off pre rest h, drop_past (off + length bs) pre rest (omega arith), moved)
      (append_assoc pre (take (off - length pre) rest)
        (bs ++ drop (off - length pre + length bs) rest))
