-- ===== src/Image/Requests/Split.antt =====
-- src/image.cc, `write_request::run`: the sub-requests of a write cover its buffer and its range.
use lsvd_rbd.Base.{
  ℕ, zero, suc, ◌+◌, ◌-◌, ◌*◌, ◌/◌, ◌^◌, ◌≤◌, ◌<◌, ◌≡◌, refl, sym, ap, ◌∙◌, inl, inr, lt_or_le,
  ltb-true, ltb-false, min, some, List, [], ◌∷◌, ◌++◌, length, take, drop, take_add, drop-drop,
  length-take, length-drop, append_nil, add_zero, arith,
}
use native.Mathlib.Nat.{add-div_right, div-eq_of_lt}
use lsvd_rbd.Translate.{div_round_up}
use lsvd_rbd.Iov.{Iovec, bytes, nonempty}
use lsvd_rbd.Iov.Bytes.{addresses, length-addresses, nonempty-addresses}
use lsvd_rbd.Iov.Slice.{slice-addresses}
use lsvd_rbd.Image.Requests.{SubWrite, write_loop, split_write}

-- Each sub-request is of one to `max` sectors, and they write from sector `lba` to sector `end`, each
-- where the one before it ends.
abbrev pub Contiguous : ℕ → ℕ → List SubWrite → ℕ → Type 0
Contiguous max lba [] end = lba ≡ end
Contiguous max lba (w ∷ ws) end =
    (w.lba ≡ lba)
    × ((n : ℕ) × ((0 < n) × (n ≤ max) × (bytes w.iovs ≡ n * 512) × Contiguous max (lba + n) ws end))

-- The addresses of the buffers, one after the other.
abbrev pub buffers : List SubWrite → List ℕ
buffers [] = []
buffers (w ∷ ws) = addresses w.iovs ++ buffers ws

round_none : (max : ℕ) → 0 < max → div_round_up 0 max ≡ 0
round_none max h = div-eq_of_lt (omega arith)

pub round_step :
    (n max : ℕ) → 0 < n → 0 < max → div_round_up n max ≡ suc (div_round_up (n - max) max)
round_step n max h k =
    let moved : n + max - 1 ≡ (n - 1) + max = omega arith in
    let counted : (n - 1 + max) / max ≡ (n - 1) / max + 1 = add-div_right (n - 1) k in
    elim (lt_or_le n max) [
      | inl short ↦
          let none : n - max ≡ 0 = omega arith in
          let first : (n - 1) / max ≡ 0 = div-eq_of_lt (omega arith) in
          rw (moved, none, round_none max k) (omega (arith, counted, first))
      | inr long ↦
          let rest : n - max + max - 1 ≡ n - 1 = omega arith in
          rw (moved, rest) (omega (arith, counted))
    ]

-- What is left of a write from a sector of it on.
pub record Covers (max lba s_offset size : ℕ) (v : List Iovec) (ws : List SubWrite) : Type 0 where
  pub all : buffers ws ≡ take ((size - s_offset) * 512) (drop (s_offset * 512) (addresses v))
  pub in_order : Contiguous max lba ws (lba + (size - s_offset))
  pub number : length ws ≡ div_round_up (size - s_offset) max

module _ (offset max size : ℕ) (v : List Iovec) (some_max : 0 < max) (within : size * 512 ≤ bytes v)
    (word : bytes v < 2 ^ 64) where
  abbrev Found : ℕ → ℕ → ℕ → Type 0
  Found fuel s cur =
      (ws : List SubWrite) × ((write_loop fuel size max v s cur ≡ some ws)
        × Covers max (offset / 512 + s) s size v ws)

  nothing : (fuel s cur : ℕ) → size ≤ s → write_loop fuel size max v s cur ≡ some []
  unfolding write_loop
  nothing zero s cur h = refl
  nothing (suc fuel) s cur h = rw (ltb-false s size h) refl

  loop_done : (fuel s cur : ℕ) → size ≤ s → Found fuel s cur
  loop_done fuel s cur h =
      let none : size - s ≡ 0 = omega arith in
      (
        [],
        (
          nothing fuel s cur h,
          record {
            all = rw none refl;
            in_order = omega arith;
            number = rw (none, round_none max some_max) refl;
          },
        ),
      )

  -- The addresses of a part and of what is behind it.
  joined :
      (s : ℕ)
      → s < size
      → (take (min (size - s) max * 512) (drop (s * 512) (addresses v))
          ++ take ((size - (s + max)) * 512) (drop ((s + max) * 512) (addresses v)))
        ≡ take ((size - s) * 512) (drop (s * 512) (addresses v))
  joined s h = elim (lt_or_le size (s + max)) [
    | inl last ↦
        let none : size - (s + max) ≡ 0 = omega arith in
        let part : min (size - s) max ≡ size - s = omega arith in
        rw (none, part) (append_nil (take ((size - s) * 512) (drop (s * 512) (addresses v))))
    | inr more ↦
        let part : min (size - s) max ≡ max = omega arith in
        let at : (s + max) * 512 ≡ s * 512 + max * 512 = omega arith in
        let total : (size - s) * 512 ≡ max * 512 + (size - (s + max)) * 512 = omega arith in
        rw (part, at, total, sym (drop-drop (max * 512) (s * 512) (addresses v)))
          (take_add (max * 512) ((size - (s + max)) * 512) (drop (s * 512) (addresses v)))
  ]

  loop_more :
      (fuel s cur : ℕ)
      → s < size
      → cur ≡ offset + s * 512
      → (ws : List SubWrite)
      → write_loop fuel size max v (s + max) (cur + min (size - s) max * 512) ≡ some ws
      → buffers ws ≡ take ((size - (s + max)) * 512) (drop ((s + max) * 512) (addresses v))
      → Contiguous max (offset / 512 + s + min (size - s) max) ws (offset / 512 + size)
      → length ws ≡ div_round_up (size - (s + max)) max
      → Found (suc fuel) s cur
  unfolding write_loop
  loop_more fuel s cur h here ws runs rest order count =
      let n : ℕ = min (size - s) max in
      let (w, (cut, is)) =
        slice-addresses v (s * 512) (s * 512 + n * 512) (omega arith) (omega arith) (omega arith) in
      let exact : s * 512 + n * 512 - s * 512 ≡ n * 512 = omega arith in
      let part : addresses (nonempty w) ≡ take (n * 512) (drop (s * 512) (addresses v)) =
        nonempty-addresses w ∙ rw (exact) at is in
      let long : length (drop (s * 512) (addresses v)) ≡ bytes v - s * 512 =
        length-drop (s * 512) (addresses v) ∙ ap (λ t. t - s * 512) (length-addresses v) in
      let sized : bytes (nonempty w) ≡ n * 512 =
        sym (length-addresses (nonempty w))
        ∙ (ap length part
            ∙ length-take (n * 512) (drop (s * 512) (addresses v)) (omega (arith, long))) in
      let end : offset / 512 + s + (size - s) ≡ offset / 512 + size = omega arith in
      let left : size - s - max ≡ size - (s + max) = omega arith in
      (
        record { lba = cur / 512; iovs = nonempty w } ∷ ws,
        (
          rw (ltb-true s size h, cut, runs) refl,
          record {
            all = rw (part, rest) (joined s h);
            in_order = (omega arith, (n, (omega arith, omega arith, sized, rw end order)));
            number = rw (round_step (size - s) max (omega arith) some_max, left) (ap suc count);
          },
        ),
      )

  loop-Found :
      (fuel s cur : ℕ) → size ≤ s + fuel → (s < size → cur ≡ offset + s * 512) → Found fuel s cur
  loop-Found zero s cur enough here = loop_done zero s cur (omega arith)
  loop-Found (suc fuel) s cur enough here = elim (lt_or_le s size) [
    | inr done ↦ loop_done (suc fuel) s cur done
    | inl h ↦ elim (lt_or_le (s + max) size) [
      | inr last ↦
          let none : size - (s + max) ≡ 0 = omega arith in
          loop_more fuel s cur h (here h) []
            (nothing fuel (s + max) (cur + min (size - s) max * 512) last) (rw none refl)
            (omega arith) (rw (none, round_none max some_max) refl)
      | inl more ↦
          let full : min (size - s) max ≡ max = omega arith in
          let (ws, (runs, rest)) : Found fuel (s + max) (cur + min (size - s) max * 512) =
            loop-Found fuel (s + max) (cur + min (size - s) max * 512) (omega arith)
              (λ m. omega (arith, here h, full)) in
          let start : offset / 512 + s + min (size - s) max ≡ offset / 512 + (s + max) =
            omega arith in
          let end : offset / 512 + (s + max) + (size - (s + max)) ≡ offset / 512 + size =
            omega arith in
          loop_more fuel s cur h (here h) ws runs rest.all (rw start (rw (end) at rest.in_order))
            rest.number
    ]
  ]

-- A write is split, and its sub-requests have the bytes of its whole sectors in order, write to the
-- sectors from its first on, each where the one before it ends, are of one to `max` sectors each, and
-- are as many as `n_req` counts.
pub split_write-Covers :
    (offset max : ℕ) (v : List Iovec)
    → 0 < max
    → bytes v < 2 ^ 64
    → (ws : List SubWrite) × ((split_write offset v max ≡ some ws)
        × Covers max (offset / 512) 0 (bytes v / 512) v ws)
unfolding split_write
split_write-Covers offset max v some_max word =
    let (ws, (runs, covers)) : Found offset max (bytes v / 512) v some_max (omega arith) word
        (bytes v / 512) 0 offset =
      loop-Found offset max (bytes v / 512) v some_max (omega arith) word (bytes v / 512) 0 offset
        (omega arith) (λ h. omega arith) in
    (ws, (runs, rw (add_zero (offset / 512)) at covers))
