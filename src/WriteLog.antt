-- ===== src/WriteLog.antt =====
-- src/write_cache.cc and src/journal.h: the write log, a ring of pages on the local device.
pub mod Ring
pub mod Chain
pub mod Window
mod Tests
use lsvd_rbd.Base.{
  assert, ◌>>=◌, ◌>>◌, ℕ, suc, ◌+◌, ◌-◌, ◌*◌, ◌/◌, Bool, true, false, ◌&&◌, leb, ltb, ◌==◌,
  if◌then◌else◌, Option, none, some, List, [], ◌∷◌, ◌++◌,
}
use lsvd_rbd.Translate.{div_round_up}

-- The record types of the journal that the code writes.
pub data RecordType : Type 0 where
  journal_data journal_pad : RecordType

-- `j_hdr`, with the one `j_extent` of a data record: the volume range in sectors.
pub record JournalHdr : Type 0 where
  pub kind : RecordType
  pub len : ℕ
  pub seq : ℕ
  pub prev : ℕ
  pub extents : List (ℕ × ℕ)

-- `j_write_super`: the fields that the write log works with, in pages.
pub record WriteSuper : Type 0 where
  pub clean : Bool
  pub seq : ℕ
  pub meta_base : ℕ
  pub meta_limit : ℕ
  pub base : ℕ
  pub limit : ℕ

-- A write to the device: its first page, its header, the pages behind it.
pub record DeviceWrite : Type 0 where
  pub page : ℕ
  pub hdr : JournalHdr
  pub body_pages : ℕ

pub record WriteLog : Type 0 where
  pub super : WriteSuper
  pub sequence : ℕ
  pub previous_hdr : ℕ
  pub next_alloc : ℕ
  pub total_write_pages : ℕ
  pub max_write_pages : ℕ
  pub outstanding_writes : ℕ

-- What `allocate` hands back: the page of the header, the pad page and its pages (0 for none), and the
-- page of the header before.
pub record Allocation : Type 0 where
  pub start : ℕ
  pub pad : ℕ
  pub n_pad : ℕ
  pub prev : ℕ

-- The end of the file's page range, where the ring begins again.
abbrev pub wrap : WriteSuper → ℕ → ℕ
wrap s n = if n == s.limit then s.base else n

-- `allocate`; `none` is a failed assertion.
unfoldable pub allocate : ℕ → WriteLog → Option (Allocation × WriteLog)
allocate n w = do
  assert (ltb 0 n)
  assert (leb w.super.base w.next_alloc && ltb w.next_alloc w.super.limit)
  let room = w.super.limit - w.next_alloc
  let padded = ltb room n
  let start = if padded then w.super.base else w.next_alloc
  some (
    record {
      start = start;
      pad = if padded then w.next_alloc else 0;
      n_pad = if padded then room else 0;
      prev = w.previous_hdr;
    },
    record w { previous_hdr = start; next_alloc = wrap w.super (start + n) },
  )

-- `mk_header`: each header takes the next sequence number.
abbrev pub mk_header : RecordType → ℕ → ℕ → List (ℕ × ℕ) → WriteLog → JournalHdr × WriteLog
mk_header kind len prev extents w = (
  record { kind = kind; len = len; seq = w.sequence; prev = prev; extents = extents },
  record w { sequence = w.sequence + 1 },
)

-- The constructor of `wcache_write_req`, given the pages of data, and the pad pages without its header.
unfoldable pub make_request : ℕ → ℕ → ℕ → ℕ → ℕ → ℕ → ℕ → WriteLog → List DeviceWrite × WriteLog
make_request lba bytes n_pages page n_pad pad prev w =
    let (pad_hdr, w₁) = mk_header journal_pad (n_pad + 1) prev [] w in
    let padded = ltb 0 pad in
    let w₂ = if padded then w₁ else w in
    let prev' = if padded then pad else prev in
    let (hdr, w₃) = mk_header journal_data (1 + n_pages) prev' ((lba, bytes / 512) ∷ []) w₂ in
    let body : DeviceWrite = record { page = page; hdr = hdr; body_pages = n_pages } in
    let first : DeviceWrite = record { page = pad; hdr = pad_hdr; body_pages = n_pad } in
    (if padded then first ∷ body ∷ [] else body ∷ [], w₃)

-- `writev`: the device writes, and the sequence number that goes to the translation layer.
unfoldable pub writev : ℕ → ℕ → WriteLog → Option (List DeviceWrite × ℕ × WriteLog)
unfolding allocate make_request
writev lba bytes w = do
  let pages = div_round_up bytes 4096
  (a, w₁) ← allocate (pages + 1) w
  let (writes, w₂) = make_request lba bytes pages a.start (a.n_pad - 1) a.pad a.prev w₁
  some (writes, w₂.sequence - 1, record w₂ { outstanding_writes = w₂.outstanding_writes + 1 })

-- `reserve_room` of some sectors; `none` means that the caller waits.
unfoldable pub reserve_room : ℕ → WriteLog → Option WriteLog
reserve_room sectors w =
    let pages = sectors / 8 in
    if ltb w.max_write_pages (w.total_write_pages + pages)
    then none
    else some (record w { total_write_pages = w.total_write_pages + pages })

pub release_room : ℕ → WriteLog → WriteLog
release_room sectors w = record w { total_write_pages = w.total_write_pages - sectors / 8 }

-- The last completion of a write request.
pub write_done : WriteLog → WriteLog
write_done w = record w { outstanding_writes = w.outstanding_writes - 1 }

-- The superblock that `init_wcache` writes for a cache of `cache_size` bytes.
unfoldable pub init_super : ℕ → WriteSuper
init_super cache_size =
    let total_pages = cache_size / 4096 in
    let content_pages = total_pages - 2 in
    let meta_pages = 2 * (div_round_up content_pages 256 + div_round_up content_pages 512) in
    let data_pages = content_pages - meta_pages in
    record {
      clean = true;
      seq = 1;
      meta_base = 1;
      meta_limit = 1 + meta_pages;
      base = 1 + meta_pages;
      limit = 1 + meta_pages + data_pages;
    }

-- The constructor of `write_cache_impl` on a superblock: the log starts at its base, and the
-- superblock is written back as not clean.
unfoldable pub open_log : WriteSuper → WriteLog
open_log s =
    let n_pages = s.limit - s.base in
    record {
      super = record s { clean = false };
      sequence = if s.clean then s.seq else 1;
      previous_hdr = 0;
      next_alloc = s.base;
      total_write_pages = 0;
      max_write_pages = n_pages / 2 + n_pages / 4;
      outstanding_writes = 0;
    }

-- `write_checkpoint`: the superblock that is written at shutdown.
pub write_checkpoint : WriteLog → WriteSuper
write_checkpoint w = record w.super { seq = w.sequence; clean = true }
