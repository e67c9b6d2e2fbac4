-- ===== src/Format/Tables.antt =====
-- src/objects.cc, `deserialise_ptrs` and `deserialise_cpy`: tables of entries of a fixed size. Where the
-- source keeps pointers, the entries are read here.
use lsvd_rbd.Base.{
  ◌∙◌, map, ℕ, zero, suc, ◌+◌, ◌*◌, ◌/◌, ◌%◌, ◌^◌, ◌<◌, ◌≡◌, refl, ap, List, [], ◌∷◌, ◌++◌, length,
  drop, append_assoc, length-append, arith,
}
use lsvd_rbd.Format.{Bytes, le, decode}
use lsvd_rbd.Format.Bytes.{drop_front, decode-le}

sum : (n size : ℕ) → size + n * size ≡ suc n * size
sum n size = grind arith

module _ {A : Type 0} where
  -- The loop, over a number of entries.
  unfoldable pub read_entries : (Bytes → A) → ℕ → ℕ → Bytes → List A
  read_entries read size zero bs = []
  read_entries read size (suc n) bs = read bs ∷ read_entries read size n (drop size bs)

  unfoldable pub deserialise_ptrs : (Bytes → A) → ℕ → Bytes → ℕ → ℕ → List A
  unfolding read_entries
  deserialise_ptrs read size buf off len = read_entries read size (len / size) (drop off buf)

  -- The entries of a table one after the other.
  unfoldable pub table : (A → Bytes) → List A → Bytes
  table put [] = []
  table put (x ∷ xs) = put x ++ table put xs

  abbrev pub All : (A → Type 0) → List A → Type 0
  All P [] = Unit {0}
  All P (x ∷ xs) = P x × All P xs

-- A table that is written is read back, an entry as it is shown.
module _ {A B : Type 0} (put : A → Bytes) (read : Bytes → B) (shown : A → B) (size : ℕ)
    (Fits : A → Type 0) (sized : (x : A) → length (put x) ≡ size)
    (reads : (x : A) (rest : Bytes) → Fits x → read (put x ++ rest) ≡ shown x) where
  pub read_entries-shown :
      (xs : List A) (rest : Bytes)
      → All Fits xs
      → read_entries read size (length xs) (table put xs ++ rest) ≡ map shown xs
  unfolding read_entries table
  read_entries-shown [] rest h = refl
  read_entries-shown (x ∷ xs) rest h =
      let skip : drop size (put x ++ (table put xs ++ rest)) ≡ table put xs ++ rest =
        drop_front size (put x) (table put xs ++ rest) (sized x) in
      rw
        (
          append_assoc (put x) (table put xs) rest,
          reads x (table put xs ++ rest) h.0,
          skip,
          read_entries-shown xs rest h.1,
        )
        refl

map_id : {A : Type 0} (xs : List A) → map (λ x. x) xs ≡ xs
map_id [] = refl
map_id (x ∷ xs) = ap (λ t. x ∷ t) (map_id xs)

module _ {A : Type 0} (put : A → Bytes) (size : ℕ) (sized : (x : A) → length (put x) ≡ size) where
  pub length-table : (xs : List A) → length (table put xs) ≡ length xs * size
  unfolding table
  length-table [] = omega arith
  length-table (x ∷ xs) =
      rw (length-append (put x) (table put xs), sized x, length-table xs) (sum (length xs) size)

  pub read_entries-table :
      (read : Bytes → A) (Fits : A → Type 0)
      → ((x : A) (rest : Bytes) → Fits x → read (put x ++ rest) ≡ x)
      → (xs : List A) (rest : Bytes) → All Fits xs
      → read_entries read size (length xs) (table put xs ++ rest) ≡ xs
  read_entries-table read Fits reads xs rest h =
      read_entries-shown put read (λ x. x) size Fits sized reads xs rest h ∙ map_id xs

-- `data_map`: two bit fields of 36 and 28 bits.
unfoldable pub put_map : ℕ × ℕ → Bytes
put_map (lba, len) = le 8 (lba % 2 ^ 36 + 2 ^ 36 * (len % 2 ^ 28))

unfoldable pub read_map : Bytes → ℕ × ℕ
read_map bs = (decode 8 bs % 2 ^ 36, decode 8 bs / 2 ^ 36)

abbrev pub MapFits : ℕ × ℕ → Type 0
MapFits (lba, len) = (lba < 2 ^ 36) × (len < 2 ^ 28)

pub length-put_map : (x : ℕ × ℕ) → length (put_map x) ≡ 8
unfolding put_map
length-put_map (lba, len) = refl

pub read_map-put_map : (x : ℕ × ℕ) (rest : Bytes) → MapFits x → read_map (put_map x ++ rest) ≡ x
unfolding read_map put_map
read_map-put_map (lba, len) rest (a, b) =
    let lo : (lba % 2 ^ 36 + 2 ^ 36 * (len % 2 ^ 28)) % 2 ^ 36 ≡ lba = omega arith in
    let hi : (lba % 2 ^ 36 + 2 ^ 36 * (len % 2 ^ 28)) / 2 ^ 36 ≡ len = omega arith in
    rw (decode-le 8 (lba % 2 ^ 36 + 2 ^ 36 * (len % 2 ^ 28)) rest (omega arith), lo, hi) refl
