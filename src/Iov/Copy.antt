-- ===== src/Iov/Copy.antt =====
-- src/smartiov.h, `copy_in` and `copy_out`: what memory holds afterwards, for buffers that do not
-- overlap.
use lsvd_rbd.Base.{
  add_zero, zero_add, suc_add, add_suc, ℕ, zero, suc, ◌+◌, ◌-◌, ◌≤◌, ◌<◌, ◌≡◌, ◌⊎◌, refl, sym, ap,
  inl, inr, test-pos, test-neg, test-below, List, [], ◌∷◌, ◌++◌, arith,
}
use lsvd_rbd.Iov.{Iovec, Memory, memcpy, bytes, copy_in, copy_out}
use lsvd_rbd.Iov.Bytes.{span, addresses, contents}

-- Two ranges of addresses that do not overlap.
unfoldable pub Apart : Iovec → Iovec → Type 0
Apart i j = (i.base + i.len ≤ j.base) ⊎ (j.base + j.len ≤ i.base)

unfoldable pub AllApart : Iovec → List Iovec → Type 0
unfolding Apart
AllApart i [] = Unit {0}
AllApart i (j ∷ v) = Apart i j × AllApart i v

unfoldable pub Separate : List Iovec → Type 0
unfolding AllApart
Separate [] = Unit {0}
Separate (i ∷ v) = AllApart i v × Separate v

-- The address of a buffer as long as an iovec list.
unfoldable pub buffer : ℕ → List Iovec → Iovec
buffer p v = record { base = p; len = bytes v }

contents-append :
    (xs ys : List ℕ) (m : Memory) → contents (xs ++ ys) m ≡ (contents xs m ++ contents ys m)
contents-append [] ys m = refl
contents-append (x ∷ xs) ys m = ap (λ t. m x ∷ t) (contents-append xs ys m)

contents-span-ext :
    (p n : ℕ) (f g : Memory)
    → ((x : ℕ) → p ≤ x → x < p + n → f x ≡ g x)
    → contents (span p n) f ≡ contents (span p n) g
contents-span-ext p zero f g h = refl
contents-span-ext p (suc n) f g h =
    rw
      (
        h p (omega arith) (omega arith),
        contents-span-ext (suc p) n f g (λ x a b. h x (omega arith) (omega arith)),
      )
      refl

shifted :
    (p q n : ℕ) (f g : Memory)
    → ((k : ℕ) → k < n → f (p + k) ≡ g (q + k))
    → contents (span p n) f ≡ contents (span q n) g
shifted p q zero f g h = refl
shifted p q (suc n) f g h =
    let here : f p ≡ g q = rw (add_zero p, add_zero q) at (h 0 (omega arith)) in
    rw
      (
        here,
        shifted (suc p) (suc q) n f g
            (λ k l. rw (sym (add_suc p k), sym (add_suc q k)) (h (suc k) (omega arith))),
      )
      refl

span-add : (p m n : ℕ) → span p (m + n) ≡ (span p m ++ span (p + m) n)
span-add p zero n = rw (add_zero p, zero_add n) refl
span-add p (suc m) n = rw (suc_add m n, add_suc p m) (ap (λ t. p ∷ t) (span-add (suc p) m n))

memcpy-in : (p q n : ℕ) (m : Memory) (k : ℕ) → k < n → memcpy p q n m (p + k) ≡ m (q + k)
unfolding memcpy
memcpy-in p q n m k h =
    let same : p + k - p ≡ k = omega arith in
    rw (test-pos p (p + k) (p + n) (omega arith) (omega arith), same) refl

memcpy-out : (p q n : ℕ) (m : Memory) (x : ℕ) → ((x < p) ⊎ (p + n ≤ x)) → memcpy p q n m x ≡ m x
unfolding memcpy
memcpy-out p q n m x (inl h) = rw (test-below p x (p + n) h) refl
memcpy-out p q n m x (inr h) = rw (test-neg p x (p + n) h) refl

outside :
    (i j : Iovec) (x : ℕ)
    → Apart j i
    → j.base ≤ x
    → x < j.base + j.len
    → (x < i.base) ⊎ (i.base + i.len ≤ x)
unfolding Apart
outside i j x (inl h) a b = inl (omega arith)
outside i j x (inr h) a b = inr (omega arith)

Apart-sym : (i j : Iovec) → Apart i j → Apart j i
unfolding Apart
Apart-sym i j (inl h) = inr h
Apart-sym i j (inr h) = inl h

AllApart-within :
    (i j : Iovec) (v : List Iovec)
    → j.base ≤ i.base
    → i.base + i.len ≤ j.base + j.len
    → AllApart j v
    → AllApart i v
unfolding AllApart Apart
AllApart-within i j [] a b h = tt
AllApart-within i j (e ∷ v) a b (inl h, r) = (inl (omega arith), AllApart-within i j v a b r)
AllApart-within i j (e ∷ v) a b (inr h, r) = (inr (omega arith), AllApart-within i j v a b r)

-- The part of a buffer after the first iovec.
AllApart-after :
    (p : ℕ) (i : Iovec) (v w : List Iovec)
    → AllApart (buffer p (i ∷ v)) w
    → AllApart (buffer (p + i.len) v) w
unfolding buffer bytes
AllApart-after p i v w h =
    AllApart-within (buffer (p + i.len) v) (buffer p (i ∷ v)) w (omega arith) (omega arith) h

copy_in-frame :
    (i : Iovec) (v : List Iovec) (buf : ℕ) (m : Memory) (x : ℕ)
    → AllApart i v
    → i.base ≤ x
    → x < i.base + i.len
    → copy_in v buf m x ≡ m x
unfolding copy_in AllApart
copy_in-frame i [] buf m x h a b = refl
copy_in-frame i (j ∷ v) buf m x h a b =
    rw (copy_in-frame i v (buf + j.len) (memcpy j.base buf j.len m) x h.1 a b)
      (memcpy-out j.base buf j.len m x (outside j i x h.0 a b))

copy_out-frame :
    (v : List Iovec) (buf : ℕ) (m : Memory) (x : ℕ) → x < buf → copy_out v buf m x ≡ m x
unfolding copy_out
copy_out-frame [] buf m x h = refl
copy_out-frame (i ∷ v) buf m x h =
    rw (copy_out-frame v (buf + i.len) (memcpy buf i.base i.len m) x (omega arith))
      (memcpy-out buf i.base i.len m x (inl h))

-- After `copy_in`, a buffer whose iovecs do not overlap each other or the source holds the bytes of
-- the source.
copy_in-contents :
    (v : List Iovec) (buf : ℕ) (m : Memory)
    → Separate v
    → AllApart (buffer buf v) v
    → contents (addresses v) (copy_in v buf m) ≡ contents (span buf (bytes v)) m
unfolding copy_in Separate AllApart bytes buffer
copy_in-contents [] buf m sep h = refl
copy_in-contents (i ∷ v) buf m sep h =
    let m₁ : Memory = memcpy i.base buf i.len m in
    let kept : (x : ℕ) → i.base ≤ x → x < i.base + i.len → copy_in v (buf + i.len) m₁ x ≡ m₁ x =
      λ x a b. copy_in-frame i v (buf + i.len) m₁ x sep.0 a b in
    let here : contents (span i.base i.len) m₁ ≡ contents (span buf i.len) m =
      shifted i.base buf i.len m₁ m (λ k l. memcpy-in i.base buf i.len m k l) in
    let source : contents (span (buf + i.len) (bytes v)) m₁
        ≡ contents (span (buf + i.len) (bytes v)) m =
      contents-span-ext (buf + i.len) (bytes v) m₁ m (λ x a b.
        memcpy-out i.base buf i.len m x
          (outside i (buffer buf (i ∷ v)) x h.0 (omega arith) (omega arith))) in
    rw
      (
        contents-append (span i.base i.len) (addresses v) (copy_in v (buf + i.len) m₁),
        contents-span-ext i.base i.len (copy_in v (buf + i.len) m₁) m₁ kept,
        here,
        copy_in-contents v (buf + i.len) m₁ sep.1 (AllApart-after buf i v v h.1),
        source,
        span-add buf i.len (bytes v),
        contents-append (span buf i.len) (span (buf + i.len) (bytes v)) m,
      )
      refl

contents-addresses-ext :
    (i : Iovec) (v : List Iovec) (f g : Memory)
    → AllApart i v
    → ((x : ℕ) → ((x < i.base) ⊎ (i.base + i.len ≤ x)) → f x ≡ g x)
    → contents (addresses v) f ≡ contents (addresses v) g
unfolding AllApart
contents-addresses-ext i [] f g h same = refl
contents-addresses-ext i (j ∷ v) f g h same =
    let first : contents (span j.base j.len) f ≡ contents (span j.base j.len) g =
      contents-span-ext j.base j.len f g
        (λ x a b. same x (outside i j x (Apart-sym i j h.0) a b)) in
    rw
      (
        contents-append (span j.base j.len) (addresses v) f,
        contents-append (span j.base j.len) (addresses v) g,
        first,
        contents-addresses-ext i v f g h.1 same,
      )
      refl

-- After `copy_out`, the destination holds the bytes of the buffer, if it does not overlap any iovec.
copy_out-contents :
    (v : List Iovec) (buf : ℕ) (m : Memory)
    → AllApart (buffer buf v) v
    → contents (span buf (bytes v)) (copy_out v buf m) ≡ contents (addresses v) m
unfolding copy_out AllApart bytes buffer
copy_out-contents [] buf m h = refl
copy_out-contents (i ∷ v) buf m h =
    let m₁ : Memory = memcpy buf i.base i.len m in
    let kept : (x : ℕ) → buf ≤ x → x < buf + i.len → copy_out v (buf + i.len) m₁ x ≡ m₁ x =
      λ x a b. copy_out-frame v (buf + i.len) m₁ x b in
    let here : contents (span buf i.len) m₁ ≡ contents (span i.base i.len) m =
      shifted buf i.base i.len m₁ m (λ k l. memcpy-in buf i.base i.len m k l) in
    let source : contents (addresses v) m₁ ≡ contents (addresses v) m =
      contents-addresses-ext (record { base = buf; len = i.len }) v m₁ m
        (AllApart-within (record { base = buf; len = i.len }) (buffer buf (i ∷ v)) v (omega arith)
          (omega arith) h.1)
        (λ x o. memcpy-out buf i.base i.len m x o) in
    rw
      (
        span-add buf i.len (bytes v),
        contents-append (span buf i.len) (span (buf + i.len) (bytes v))
            (copy_out v (buf + i.len) m₁),
        contents-span-ext buf i.len (copy_out v (buf + i.len) m₁) m₁ kept,
        here,
        copy_out-contents v (buf + i.len) m₁ (AllApart-after buf i v v h.1),
        source,
        contents-append (span i.base i.len) (addresses v) m,
      )
      refl

-- What is copied into a buffer and out again is what it was, for a buffer whose iovecs do not overlap
-- each other, the source or the destination.
pub copy_out-copy_in :
    (v : List Iovec) (src dst : ℕ) (m : Memory)
    → Separate v
    → AllApart (buffer src v) v
    → AllApart (buffer dst v) v
    → contents (span dst (bytes v)) (copy_out v dst (copy_in v src m))
      ≡ contents (span src (bytes v)) m
copy_out-copy_in v src dst m sep a b =
    rw (copy_out-contents v dst (copy_in v src m) b) (copy_in-contents v src m sep a)
