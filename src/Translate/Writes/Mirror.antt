-- ===== src/Translate/Writes/Mirror.antt =====
-- src/translate.cc: the buffer map and the batch that it points into, from the write to the completion.
use mathlib.Core.Option.{none-ne-some}
use lsvd_rbd.Base.{
  and_false, or_true, ℕ, ◌+◌, ◌-◌, ◌*◌, ◌/◌, ◌%◌, ◌<◌, ◌≡◌, refl, sym, subst, ◌∙◌, Bool, true,
  false, ◌&&◌, Bool-cases, leb, ltb, if◌then◌else◌, inl, inr, or_else, or_else-none, or_else_assoc,
  Option, none, some, Option-cases, List, [], ◌∷◌, ◌++◌, map, arith,
}
use lsvd_rbd.Extent.{Extent, at}
use lsvd_rbd.Extent.Order.{IsSorted}
use lsvd_rbd.Extent.Pointers.{ObjOffset, obj_target, SectorPtr, sector_target}
use lsvd_rbd.Image.Read.Serve.{Source, zeros, memory, object, resolve}
use lsvd_rbd.Translate.{Entry, range_of}
use lsvd_rbd.Translate.Batch.{placed}
use lsvd_rbd.Translate.Writes.{Request, Writer, notify, room, new_request, roll_over}
use lsvd_rbd.Translate.Writes.Complete.{at-notify}
use lsvd_rbd.Translate.Writes.Pieces.{points_in, in_entries, IsApart, AllNonempty}
use lsvd_rbd.Translate.Writes.Room.{total, Buffered}

-- Where the last copy of a sector lies in the data of a batch, in sectors from `off`.
abbrev pub last_copy : ℕ → List Entry → ℕ → Option ℕ
last_copy off [] x = none
last_copy off (e ∷ es) x =
    or_else (last_copy (off + e.len) es x)
      (if leb e.lba x && ltb x (e.lba + e.len) then some (off + (x - e.lba)) else none)

abbrev pub in_memory : ℕ → Option ℕ → Option SectorPtr
in_memory data_ptr none = none
in_memory data_ptr (some k) = some (record { buf = data_ptr + k * 512 })

abbrev in_object : ℕ → ℕ → Option ℕ → Option ObjOffset
in_object seq hdr none = none
in_object seq hdr (some k) = some (record { obj = seq; offset = hdr + k })

-- Where the map points into the buffer of a batch, it points to the last copy in it.
abbrev pub Mirrors : Request → List (Extent SectorPtr) → Type 0
Mirrors r m =
    (x : ℕ)
    → points_in r.local_buf_base r.local_buf_limit (at m x) ≡ true
    → at m x ≡ in_memory r.data_ptr (last_copy 0 r.entries x)

placed-last_copy :
    (seq hdr off x : ℕ) (es : List Entry)
    → placed seq (hdr + off) (map range_of es) x ≡ in_object seq hdr (last_copy off es x)
placed-last_copy seq hdr off x [] = refl
placed-last_copy seq hdr off x (e ∷ es) =
    let e_ih = placed-last_copy seq hdr (off + e.len) x es in
    let add : hdr + off + e.len ≡ hdr + (off + e.len) = omega arith in
    rw (add, e_ih)
      (elim (Option-cases (last_copy (off + e.len) es x)) [
        | inl n ↦ rw (n) (elim (Bool-cases (leb e.lba x && ltb x (e.lba + e.len))) [
          | inl t ↦
              let sum : hdr + off + (x - e.lba) ≡ hdr + (off + (x - e.lba)) = omega arith in
              rw (t, sum) refl
          | inr t ↦ rw (t) refl
        ])
        | inr (k, n) ↦ rw (n) refl
      ])

last_copy-lt : (off x k : ℕ) (es : List Entry) → last_copy off es x ≡ some k → k < off + total es
last_copy-lt off x k [] h = absurd (none-ne-some k h)
last_copy-lt off x k (e ∷ es) h = elim (Option-cases (last_copy (off + e.len) es x)) [
  | inl n ↦ ground arith
  | inr (j, n) ↦
      let same : j ≡ k = ground arith in omega (arith, last_copy-lt (off + e.len) x j es n)
]

last_copy-in_entries :
    (off x k : ℕ) (es : List Entry) → last_copy off es x ≡ some k → in_entries x es ≡ true
last_copy-in_entries off x k [] h = absurd (none-ne-some k h)
last_copy-in_entries off x k (e ∷ es) h = elim (Option-cases (last_copy (off + e.len) es x)) [
  | inl n ↦ ground arith
  | inr (j, n) ↦
      rw (last_copy-in_entries (off + e.len) x j es n)
        (or_true (leb e.lba x && ltb x (e.lba + e.len)))
]

in_entries-points_in :
    (lo hi data_ptr x : ℕ) (es : List Entry)
    → points_in lo hi (in_memory data_ptr (last_copy 0 es x)) ≡ true
    → in_entries x es ≡ true
in_entries-points_in lo hi data_ptr x es h = elim (Option-cases (last_copy 0 es x)) [
  | inl n ↦ absurd (ground arith)
  | inr (k, n) ↦ last_copy-in_entries 0 x k es n
]

last_copy-append :
    (off x : ℕ) (es fs : List Entry)
    → last_copy off (es ++ fs) x ≡ or_else (last_copy (off + total es) fs x) (last_copy off es x)
last_copy-append off x [] fs =
    let zero_more : off + 0 ≡ off = omega arith in
    rw (zero_more) (sym (or_else-none (last_copy off fs x)))
last_copy-append off x (e ∷ es) fs =
    let own : Option ℕ =
      if leb e.lba x && ltb x (e.lba + e.len) then some (off + (x - e.lba)) else none in
    let sum : off + e.len + total es ≡ off + (e.len + total es) = omega arith in
    rw (last_copy-append (off + e.len) x es fs, sum)
      (sym (
        or_else_assoc (last_copy (off + (e.len + total es)) fs x) (last_copy (off + e.len) es x)
          own))

-- The data of a sector, by what memory and the objects hold.
module _ {D : Type 0} (mem : SectorPtr → D) (disk : ObjOffset → D) (blank : D) where
  abbrev pub data_of : Source → D
  data_of zeros = blank
  data_of (memory p) = mem p
  data_of (object q) = disk q

  same_data :
      (r : Request) (seq hdr : ℕ) (k : Option ℕ)
      → ((j : ℕ)
          → k ≡ some j
          → disk (record { obj = seq; offset = hdr + j })
            ≡ mem (record { buf = r.data_ptr + j * 512 }))
      → points_in r.local_buf_base r.local_buf_limit (in_memory r.data_ptr k) ≡ true
      → data_of (resolve none (in_object seq hdr k))
        ≡ data_of (resolve (in_memory r.data_ptr k) (in_object seq hdr k))
  same_data r seq hdr none copy h = absurd (ground arith)
  same_data r seq hdr (some j) copy h = copy j refl

  -- The completion of a batch changes no read: in a map in order that mirrors the batch, with the
  -- object holding the bytes of the batch behind its header, and the object map pointing at the copies
  -- in the object wherever the buffer map still points into the batch, every sector has the data
  -- after `notify` that it had before.
  pub data_of-notify :
      (r : Request) (m : List (Extent SectorPtr)) (om : List (Extent ObjOffset)) (seq hdr x : ℕ)
      → IsSorted m
      → IsApart r.local_buf_base r.local_buf_limit m
      → AllNonempty r.entries
      → Mirrors r m
      → ((k : ℕ)
          → k < total r.entries
          → disk (record { obj = seq; offset = hdr + k })
            ≡ mem (record { buf = r.data_ptr + k * 512 }))
      → ((y : ℕ)
          → points_in r.local_buf_base r.local_buf_limit (at m y) ≡ true
          → at om y ≡ placed seq hdr (map range_of r.entries) y)
      → data_of (resolve (at (notify r m) x) (at om x)) ≡ data_of (resolve (at m x) (at om x))
  data_of-notify r m om seq hdr x v a n mirror copy mapped =
      let lo = r.local_buf_base in
      let hi = r.local_buf_limit in
      elim (Bool-cases (points_in lo hi (at m x))) [
        | inl h ↦
            let k = last_copy 0 r.entries x in
            let there = mirror x h in
            let here = subst (λ o. points_in lo hi o ≡ true) there h in
            let zero_more : hdr + 0 ≡ hdr = omega arith in
            let copied : at om x ≡ in_object seq hdr k =
              mapped x h
              ∙ subst (λ n. placed seq n (map range_of r.entries) x ≡ in_object seq hdr k) zero_more
                  (placed-last_copy seq hdr 0 x r.entries) in
            let inside = in_entries-points_in lo hi r.data_ptr x r.entries here in
            let gone : at (notify r m) x ≡ none = at-notify r m x v a n ∙ rw (inside, h) refl in
            rw (gone, copied, there)
              (same_data r seq hdr k (λ j e. copy j (omega (arith, last_copy-lt 0 x j r.entries e)))
                here)
        | inr h ↦ rw (at-notify r m x v a n, h) (rw (and_false (in_entries x r.entries)) refl)
      ]

-- A batch in its buffer with the entries of all its bytes.
abbrev pub IsWhole : Request → Type 0
IsWhole r = total r.entries * 512 ≡ r.len

-- The map does not point into the buffer that a new batch would have.
abbrev pub IsFresh : ℕ → Writer → Type 0
IsFresh batch_buf w =
    let r = new_request batch_buf w.backend_obj_bytes in
    (x : ℕ) → points_in r.local_buf_base r.local_buf_limit (at w.bufmap x) ≡ false

both : (t : Bool) → t ≡ true → t ≡ false → ⊥
both t h k = ground arith

roll_over-Mirrors :
    (batch_buf bytes : ℕ) (w : Writer)
    → Mirrors w.current w.bufmap
    → IsFresh batch_buf w
    → Mirrors (roll_over batch_buf bytes w).current w.bufmap
unfolding roll_over
roll_over-Mirrors batch_buf bytes w v fresh = elim (Bool-cases (room bytes w.current)) [
  | inl e ↦ rw (e) v
  | inr e ↦ rw (e) (λ x h. absurd (both (points_in _ _ (at w.bufmap x)) h (fresh x)))
]

roll_over-IsWhole :
    (batch_buf bytes : ℕ) (w : Writer)
    → IsWhole w.current
    → IsWhole (roll_over batch_buf bytes w).current
unfolding roll_over
roll_over-IsWhole batch_buf bytes w v = elim (Bool-cases (room bytes w.current)) [
  | inl e ↦ rw (e) v
  | inr e ↦ rw (e) (omega arith)
]

total-append : (es fs : List Entry) → total (es ++ fs) ≡ total es + total fs
total-append [] fs = omega arith
total-append (e ∷ es) fs = omega (arith, total-append es fs)

-- After a write as in `writev-Buffered`, from a map that mirrors the current batch and does not point
-- into the buffer that malloc gives, the map mirrors the current batch: every sector that it finds
-- there is the last copy written, with the write just made.
pub writev-Mirrors :
    (batch_buf offset bytes : ℕ) (w : Writer) (b : Buffered batch_buf offset bytes w)
    → offset % 512 ≡ 0
    → bytes % 512 ≡ 0
    → Mirrors w.current w.bufmap
    → IsWhole w.current
    → IsFresh batch_buf w
    → Mirrors b.after.current b.after.bufmap × IsWhole b.after.current
writev-Mirrors batch_buf offset bytes w b aligned whole v total_len fresh =
    let r = (roll_over batch_buf bytes w).current in
    let old = roll_over-Mirrors batch_buf bytes w v fresh in
    let len = roll_over-IsWhole batch_buf bytes w total_len in
    let base = offset / 512 in
    let lim = (offset + bytes) / 512 in
    let e : Entry = record { lba = base; len = bytes / 512; obj = 0; offset = 0 } in
    let n : lim ≡ base + bytes / 512 = omega arith in
    let place : b.ptr.buf + bytes ≡ r.data_ptr + (r.len + bytes) =
      subst (λ c. b.ptr.buf + bytes ≡ c.data_ptr + c.len) b.appended b.place in
    (
      (λ x h. elim (Bool-cases (leb base x && ltb x lim)) [
        | inl t ↦
            let inside = subst (λ l. (leb base x && ltb x l) ≡ true) n t in
            let last : last_copy 0 (r.entries ++ (e ∷ [])) x
                ≡ some (0 + total r.entries + (x - base)) =
              last_copy-append 0 x r.entries (e ∷ []) ∙ rw (inside) refl in
            let same : b.ptr.buf + (x - base) * 512
                ≡ r.data_ptr + (0 + total r.entries + (x - base)) * 512 =
              omega arith in
            rw (b.maps x, t, b.appended, last, same) refl
        | inr t ↦
            let outside = subst (λ l. (leb base x && ltb x l) ≡ false) n t in
            let last : last_copy 0 (r.entries ++ (e ∷ [])) x ≡ last_copy 0 r.entries x =
              last_copy-append 0 x r.entries (e ∷ []) ∙ rw (outside) refl in
            rw (b.maps x, t, b.appended, last) (old x (rw (b.maps x, t, b.appended) at h))
      ]),
      rw (b.appended) (omega (arith, total-append r.entries (e ∷ []), len)),
    )
