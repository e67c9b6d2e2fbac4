-- ===== src/Translate.antt =====
-- src/translate.cc and src/objects.h: the object translation layer, its state and its batches.
pub mod Writes
pub mod Gc
pub mod Pipeline
pub mod Readers
pub mod Batch
pub mod Account
pub mod Process
pub mod Checkpointing
mod Tests
use Prim.Native.String.{String}
use lsvd_rbd.Base.{
  ◌>>=◌, ◌>>◌, assert, ℕ, ◌+◌, ◌-◌, ◌*◌, ◌/◌, ◌^◌, Bool, true, false, ◌||◌, ltb, leb, if◌then◌else◌,
  Option, none, some, List, [], ◌∷◌, ◌++◌, length, map,
}
use lsvd_rbd.Base.Int.{ℤ, pos, negsuc, raise, lower}
use lsvd_rbd.Base.Assoc.{find, insert}
use lsvd_rbd.Extent.{Extent}
use lsvd_rbd.Extent.Map.{update, trim}
use lsvd_rbd.Extent.Pointers.{ObjOffset, obj_target}

-- A `ckpt_mapentry` of a request: a range of the volume, and for GC the place it was found at.
pub record Entry : Type 0 where
  pub lba : ℕ
  pub len : ℕ
  pub obj : ℕ
  pub offset : ℕ

-- `data_obj_info`, in sectors.
pub record ObjInfo : Type 0 where
  pub hdr : ℕ
  pub data_len : ℕ
  pub live : ℕ

-- `clone_base`.
pub record CloneBase : Type 0 where
  pub name : String
  pub last_seq : ℕ
  pub first_seq : ℕ

-- The header of a data object: `common_obj_hdr`, `obj_data_hdr` and the `data_map` behind them.
pub record DataHdr : Type 0 where
  pub seq : ℕ
  pub hdr_sectors : ℕ
  pub data_sectors : ℕ
  pub data_map : List (ℕ × ℕ)
  pub is_gc : Bool

-- What a signed field of `w` bits holds of its bits.
unfoldable pub signed : ℕ → ℕ → ℤ
signed w v = if ltb (v * 2) (2 ^ w) then pos v else negsuc (2 ^ w - v - 1)

-- `ckpt_mapentry` in a checkpoint, with what its fields of 36, 28, 32 and 32 bits hold.
pub record CkptMapentry : Type 0 where
  pub lba : ℤ
  pub len : ℤ
  pub obj : ℤ
  pub offset : ℤ

-- A checkpoint object: `obj_ckpt_hdr` with the tables of objects and of map entries behind it.
pub record Checkpoint : Type 0 where
  pub seq : ℕ
  pub cache_seq : ℕ
  pub objects : List (ℕ × ObjInfo)
  pub dmap : List CkptMapentry

-- The calls that leave the layer, in order.
pub data Event : Type 0 where
  cache_insert : String → ℕ → ℕ → Event
  put_object : String → DataHdr → Event
  put_checkpoint : String → Checkpoint → Event
  put_superblock : String → List ℕ → List CloneBase → Event
  delete_object : String → ℕ → Event

pub record State : Type 0 where
  pub name : String
  pub clones : List CloneBase
  pub objmap : List (Extent ObjOffset)
  pub object_info : List (ℕ × ObjInfo)
  pub checkpoints : List ℕ
  pub total_sectors : ℤ
  pub total_live_sectors : ℤ
  pub outstanding_writes : ℕ
  pub events : List Event

abbrev pub div_round_up : ℕ → ℕ → ℕ
div_round_up n m = (n + m - 1) / m

-- sizeof(common_obj_hdr) + sizeof(obj_data_hdr), and sizeof(data_map).
abbrev pub data_hdr_bytes : ℕ
data_hdr_bytes = 44 + 28

abbrev pub map_entry_bytes : ℕ
map_entry_bytes = 8

-- The sectors of a data header with `n` map entries: whole pages of eight sectors.
abbrev pub hdr_sectors_for : ℕ → ℕ
hdr_sectors_for n = div_round_up (data_hdr_bytes + n * map_entry_bytes) 4096 * 8

-- `translate_impl::prefix`: the loop over the clones, then the whole function. `none` is the
-- assertion that marks the end as unreachable.
pub prefix_clone : ℕ → List CloneBase → Option String
prefix_clone seq [] = none
prefix_clone seq (c ∷ cs) = if leb c.first_seq seq then some c.name else prefix_clone seq cs

unfoldable pub prefix : String → List CloneBase → ℕ → Option String
unfolding prefix_clone
prefix name [] seq = some name
prefix name (c ∷ cs) seq = if ltb c.last_seq seq then some name else prefix_clone seq (c ∷ cs)

-- `make_obj_hdr`.
pub make_obj_hdr : ℕ → ℕ → ℕ → List (ℕ × ℕ) → Bool → Option DataHdr
make_obj_hdr seq hdr_sectors data_sectors extents is_gc = do
  assert (leb (data_hdr_bytes + length extents * map_entry_bytes) (hdr_sectors * 512))
  some (record {
    seq = seq;
    hdr_sectors = hdr_sectors;
    data_sectors = data_sectors;
    data_map = extents;
    is_gc = is_gc;
  })

-- The loop over the entries of a request: each range is mapped to its place in the new object. The
-- discarded extents are collected over the whole loop.
unfoldable pub map_entries :
    ℕ
    → ℕ
    → List (ℕ × ℕ)
    → List (Extent ObjOffset)
    → List (Extent ObjOffset) × List (Extent ObjOffset)
map_entries seq off [] m = (m, [])
map_entries seq off ((lba, len) ∷ es) m =
    let (m₁, del₁) = update m lba (lba + len) (record { obj = seq; offset = off }) in
    let (m₂, del₂) = map_entries seq (off + len) es m₁ in (m₂, del₁ ++ del₂)

-- The loop over the discarded extents: each takes its length off the live sectors of its object and
-- off the total, unless the object belongs to the clone base. `none` is the assertion that the live
-- sectors stay at or above zero.
unfoldable pub deduct :
    List (Extent ObjOffset) → List (ℕ × ObjInfo) → ℤ → Option (List (ℕ × ObjInfo) × ℤ)
deduct [] infos total = some (infos, total)
deduct (d ∷ ds) infos total = elim (find d.ptr.obj infos) [
  | none ↦ deduct ds infos total
  | some info ↦
      let infos' = insert d.ptr.obj (record info { live = info.live - d.len }) infos in
      assert (leb d.len info.live) >> deduct ds infos' (lower total d.len)
]

pub sum_len : List (ℕ × ℕ) → ℕ
sum_len [] = 0
sum_len ((lba, len) ∷ es) = len + sum_len es

abbrev pub range_of : Entry → ℕ × ℕ
range_of e = (e.lba, e.len)

-- `process_batch`: the request has `len` bytes of data; `none` is a failed assertion.
unfoldable pub process_batch : ℕ → ℕ → List Entry → State → Option State
unfolding make_obj_hdr
process_batch seq len entries s = do
  let hdr_sectors = hdr_sectors_for (length entries)
  let data_sectors = len / 512
  let info : ObjInfo = record { hdr = hdr_sectors; data_len = data_sectors; live = data_sectors }
  let extents = map range_of entries
  let (objmap, deleted) = map_entries seq hdr_sectors extents s.objmap
  (infos, total) ← deduct deleted (insert seq info s.object_info) s.total_live_sectors
  info' ← find seq infos
  hdr ← make_obj_hdr seq hdr_sectors data_sectors extents false
  pf ← prefix s.name s.clones seq
  some (record s {
    objmap = objmap;
    object_info = infos;
    total_live_sectors = raise total info'.live;
    total_sectors = raise s.total_sectors data_sectors;
    outstanding_writes = s.outstanding_writes + 1;
    events =
        s.events
        ++ (cache_insert pf seq ((hdr_sectors + data_sectors) * 512) ∷ put_object pf hdr ∷ []);
  })

-- `trim`: `offset` and `len` in bytes.
unfoldable pub discard : ℕ → ℕ → State → Option State
discard offset len s = do
  let (objmap, deleted) = trim s.objmap (offset / 512) ((offset + len) / 512)
  (infos, total) ← deduct deleted s.object_info s.total_live_sectors
  some (record s { objmap = objmap; object_info = infos; total_live_sectors = total })
