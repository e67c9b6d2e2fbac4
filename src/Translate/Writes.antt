-- ===== src/Translate/Writes.antt =====
-- src/translate.cc, `translate_req` and `translate_impl::writev`: the current batch and the map of the
-- sectors that are still in memory.
use lsvd_rbd.Base.{
  ◌>>=◌, ◌>>◌, assert, ℕ, ◌+◌, ◌-◌, ◌*◌, ◌/◌, Bool, true, false, ◌&&◌, leb, ltb, if◌then◌else◌,
  Option, none, some, List, [], ◌∷◌, ◌++◌,
}
use lsvd_rbd.Extent.{Extent, vals_in}
use lsvd_rbd.Extent.Map.{lookup, update, trim}
use lsvd_rbd.Extent.Pointers.{SectorPtr, sector_target}
use lsvd_rbd.Translate.{Entry}
pub mod Pieces
pub mod Complete
pub mod Room
pub mod Mirror
mod Tests

-- A request with a batch of writes (`REQ_PUT`). `batch_buf` is the address that malloc gave; the data
-- begin behind the room for a header.
pub record Request : Type 0 where
  pub batch_buf : ℕ
  pub data_ptr : ℕ
  pub len : ℕ
  pub max : ℕ
  pub entries : List Entry
  pub local_buf_base : ℕ
  pub local_buf_limit : ℕ

-- The bytes in front of the data: sizeof(data_map) is 8.
abbrev pub max_hdr_bytes : ℕ → ℕ
max_hdr_bytes bytes = 1024 + bytes / 2048 * 8

-- The constructor, with the address of the buffer.
abbrev pub new_request : ℕ → ℕ → Request
new_request batch_buf bytes =
    let data_ptr = batch_buf + max_hdr_bytes bytes in
    record {
      batch_buf = batch_buf;
      data_ptr = data_ptr;
      len = 0;
      max = bytes;
      entries = [];
      local_buf_base = data_ptr;
      local_buf_limit = data_ptr + bytes;
    }

abbrev pub room : ℕ → Request → Bool
room bytes r = leb (r.len + bytes) r.max

-- `append`: the address of the data, and the request with them.
abbrev pub append : ℕ → ℕ → Request → ℕ × Request
append lba bytes r = (
  r.data_ptr + r.len,
  record r {
    entries = r.entries ++ (record { lba = lba; len = bytes / 512; obj = 0; offset = 0 } ∷ []);
    len = r.len + bytes;
  },
)

-- The fields of translate_impl that a write uses: the batch, the queue of the worker, and the map.
pub record Writer : Type 0 where
  pub current : Request
  pub workers : List Request
  pub bufmap : List (Extent SectorPtr)
  pub backend_obj_bytes : ℕ

-- A batch without room goes to the worker.
unfoldable pub roll_over : ℕ → ℕ → Writer → Writer
roll_over batch_buf bytes w = if room bytes w.current then w else record w {
  workers = w.workers ++ (w.current ∷ []);
  current = new_request batch_buf w.backend_obj_bytes;
}

-- `writev`; `batch_buf` is the address that malloc would give to a new batch, `none` is a failed
-- assertion.
unfoldable pub writev : ℕ → ℕ → ℕ → Writer → Option Writer
unfolding roll_over
writev batch_buf offset bytes w =
    let base = offset / 512 in
    let lim = (offset + bytes) / 512 in
    let w₁ = roll_over batch_buf bytes w in
    let (ptr, current) = append base bytes w₁.current in
    assert
      (leb current.local_buf_base ptr && leb (ptr + (lim - base) * 512) current.local_buf_limit)
    >> some (record w₁ {
      current = current;
      bufmap = (update w₁.bufmap base lim (record { buf = ptr })).0;
    })

abbrev pub in_buffer : ℕ → ℕ → SectorPtr → Bool
in_buffer lo hi p = leb lo p.buf && ltb p.buf hi

-- The inner loop of `translate_req::notify`, over the extents from an iterator on: the pieces of a
-- range that point into a buffer.
unfoldable pub collect : ℕ → ℕ → ℕ → ℕ → List (Extent SectorPtr) → List (ℕ × ℕ)
collect lo hi b l [] = []
collect lo hi b l (e ∷ es) =
    let (base, lim, ptr) = vals_in e b l in
    let rest = collect lo hi b l es in
    if ltb e.base l then (if in_buffer lo hi ptr then (base, lim) ∷ rest else rest) else []

-- The outer loop, over the entries of the request.
unfoldable pub collect_all : ℕ → ℕ → List Entry → List (Extent SectorPtr) → List (ℕ × ℕ)
unfolding collect
collect_all lo hi [] m = []
collect_all lo hi (e ∷ es) m =
    collect lo hi e.lba (e.lba + e.len) (lookup m e.lba).rest ++ collect_all lo hi es m

unfoldable pub trim_all : List (ℕ × ℕ) → List (Extent SectorPtr) → List (Extent SectorPtr)
trim_all [] m = m
trim_all ((b, l) ∷ ps) m = trim_all ps (trim m b l).0

-- `translate_req::notify` of a batch that is written: what it makes of the map.
unfoldable pub notify : Request → List (Extent SectorPtr) → List (Extent SectorPtr)
unfolding collect_all trim_all
notify r bufmap = trim_all (collect_all r.local_buf_base r.local_buf_limit r.entries bufmap) bufmap
