-- ===== src/Translate/Writes/Room.antt =====
-- src/translate.cc, `writev`: a write finds room.
use lsvd_rbd.Base.{
  ℕ, ◌+◌, ◌-◌, ◌*◌, ◌/◌, ◌%◌, ◌≤◌, ◌<◌, ◌≡◌, refl, true, ◌&&◌, Bool-cases, leb, leb→le, inl, inr,
  some, List, [], ◌∷◌, length, arith,
}
use lsvd_rbd.Extent.{at}
use lsvd_rbd.Extent.Order.{IsSorted}
use lsvd_rbd.Extent.Map.{update}
use lsvd_rbd.Extent.Map.Update.{written, at-update, update-IsSorted}
use lsvd_rbd.Extent.Pointers.{SectorPtr, sector_target}
use lsvd_rbd.Translate.{Entry, hdr_sectors_for}
use lsvd_rbd.Translate.Writes.{
  Request, Writer, new_request, max_hdr_bytes, room, append, roll_over, writev,
}

-- A batch in its buffer: its bytes do not reach past the end of it.
pub record IsBatch (r : Request) : Type 0 where
  pub start : r.local_buf_base ≡ r.data_ptr
  pub end : r.local_buf_limit ≡ r.data_ptr + r.max
  pub behind : r.data_ptr ≡ r.batch_buf + max_hdr_bytes r.max
  pub fits : r.len ≤ r.max

pub new_request-IsBatch : (batch_buf bytes : ℕ) → IsBatch (new_request batch_buf bytes)
new_request-IsBatch batch_buf bytes = record {
  start = refl;
  end = refl;
  behind = refl;
  fits = omega arith;
}

-- What a write does: it runs, its bytes lie in the current batch behind those before, and the map
-- finds them there.
pub record Buffered (batch_buf offset bytes : ℕ) (w : Writer) : Type 0 where
  pub after : Writer
  pub runs : writev batch_buf offset bytes w ≡ some after
  pub appended :
      after.current ≡ (append (offset / 512) bytes (roll_over batch_buf bytes w).current).1
  pub batch : IsBatch after.current
  pub ptr : SectorPtr
  pub place : ptr.buf + bytes ≡ after.current.data_ptr + after.current.len
  pub low : after.current.local_buf_base ≤ ptr.buf
  pub high : ptr.buf + bytes ≤ after.current.local_buf_limit
  pub maps :
      (x : ℕ) → at after.bufmap x ≡ written w.bufmap (offset / 512) ((offset + bytes) / 512) ptr x
  pub sorted : IsSorted after.bufmap

roll_over-IsBatch :
    (batch_buf bytes : ℕ) (w : Writer)
    → IsBatch w.current
    → IsBatch (roll_over batch_buf bytes w).current
unfolding roll_over
roll_over-IsBatch batch_buf bytes w v = elim (Bool-cases (room bytes w.current)) [
  | inl e ↦ rw (e) v
  | inr e ↦ rw (e) (new_request-IsBatch batch_buf w.backend_obj_bytes)
]

roll_over-room :
    (batch_buf bytes : ℕ) (w : Writer)
    → bytes ≤ w.backend_obj_bytes
    → (roll_over batch_buf bytes w).current.len + bytes ≤ (roll_over batch_buf bytes w).current.max
unfolding roll_over
roll_over-room batch_buf bytes w h = elim (Bool-cases (room bytes w.current)) [
  | inl e ↦ rw (e) (leb→le (w.current.len + bytes) w.current.max e)
  | inr e ↦ rw (e) (omega arith)
]

roll_over_bufmap :
    (batch_buf bytes : ℕ) (w : Writer) → (roll_over batch_buf bytes w).bufmap ≡ w.bufmap
unfolding roll_over
roll_over_bufmap batch_buf bytes w = elim (Bool-cases (room bytes w.current)) [
  | inl e ↦ rw (e) refl
  | inr e ↦ rw (e) refl
]

-- A write of whole sectors, at least one and at most as many bytes as a batch takes, runs without
-- failing its assertion on a map in order and a batch in its buffer, and is found in the batch (see
-- `Buffered`).
pub writev-Buffered :
    (batch_buf offset bytes : ℕ) (w : Writer)
    → IsSorted w.bufmap
    → IsBatch w.current
    → offset % 512 ≡ 0
    → bytes % 512 ≡ 0
    → 0 < bytes
    → bytes ≤ w.backend_obj_bytes
    → Buffered batch_buf offset bytes w
unfolding writev
writev-Buffered batch_buf offset bytes w v c aligned whole pos small =
    let w₁ = roll_over batch_buf bytes w in
    let r = w₁.current in
    let d = roll_over-IsBatch batch_buf bytes w c in
    let fits = roll_over-room batch_buf bytes w small in
    let same = roll_over_bufmap batch_buf bytes w in
    let base = offset / 512 in
    let lim = (offset + bytes) / 512 in
    let start = d.start in
    let end = d.end in
    let ptr : SectorPtr = record { buf = r.data_ptr + r.len } in
    let test : (leb r.local_buf_base ptr.buf
          && leb (ptr.buf + (lim - base) * 512) r.local_buf_limit)
        ≡ true =
      ground arith in
    let less : base < lim = omega arith in
    record {
      after = record w₁ {
        current = (append base bytes r).1;
        bufmap = (update w₁.bufmap base lim ptr).0;
      };
      runs = rw (writev, test) refl;
      appended = refl;
      batch = record { start = d.start; end = d.end; behind = d.behind; fits = fits };
      ptr = ptr;
      place = omega arith;
      low = omega arith;
      high = omega arith;
      maps = λ x. rw (same) (at-update w.bufmap base lim ptr x v less);
      sorted = rw (same) (update-IsSorted w.bufmap base lim ptr v less);
    }

-- Each write has a page of eight sectors or more.
abbrev pub AllPages : List Entry → Type 0
AllPages [] = Unit {0}
AllPages (e ∷ es) = (8 ≤ e.len) × AllPages es

abbrev pub total : List Entry → ℕ
total [] = 0
total (e ∷ es) = e.len + total es

length-AllPages : (es : List Entry) → AllPages es → length es * 8 ≤ total es
length-AllPages [] a = omega arith
length-AllPages (e ∷ es) a = omega (arith, a.0, length-AllPages es a.1)

-- In a batch in its buffer whose bytes are those of its writes, if each write has at least a page of
-- eight sectors, and a batch takes two megabytes or more, then the header fits between the start of the
-- buffer and the data.
pub header_fits :
    (r : Request)
    → IsBatch r
    → r.len ≡ total r.entries * 512
    → AllPages r.entries
    → 2097152 ≤ r.max
    → r.batch_buf + hdr_sectors_for (length r.entries) * 512 ≤ r.data_ptr
header_fits r v len pages big = omega (arith, v.behind, v.fits, length-AllPages r.entries pages)

-- In a batch in its buffer that takes 96 kilobytes or more and is full of writes of one sector each,
-- the header does not fit: it would begin before the buffer.
pub header_underruns :
    (r : Request)
    → IsBatch r
    → length r.entries * 512 ≡ r.max
    → 98304 ≤ r.max
    → r.data_ptr < r.batch_buf + hdr_sectors_for (length r.entries) * 512
header_underruns r v full big = omega (arith, v.behind)
