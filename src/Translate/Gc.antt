-- ===== src/Translate/Gc.antt =====
-- src/translate.cc, `write_gc`: live data moved to a new object.
use lsvd_rbd.Base.{
  ◌>>=◌, ℕ, ◌+◌, ◌-◌, ◌*◌, ltb, true, ◌==◌, if◌then◌else◌, Option, none, some, List, [], ◌∷◌, ◌++◌,
  length, map,
}
use lsvd_rbd.Base.Int.{ℤ}
use lsvd_rbd.Base.Assoc.{insert}
use lsvd_rbd.Extent.{Extent, vals_in}
use lsvd_rbd.Extent.Map.{lookup}
use lsvd_rbd.Extent.Pointers.{ObjOffset, obj_target}
use lsvd_rbd.Translate.{
  Entry, ObjInfo, DataHdr, State, put_object, hdr_sectors_for, prefix, make_obj_hdr, map_entries,
  deduct, sum_len,
}
pub mod Moved
pub mod Kept
mod Tests

-- A range that is still where it was, and the sector of the data read for the request that it begins at.
pub record Piece : Type 0 where
  pub lba : ℕ
  pub len : ℕ
  pub src : ℕ

-- The inner loop that revalidates an entry, over the extents from an iterator on. The data of the
-- entry begin at sector `in_ptr`.
unfoldable pub revalidate : ℕ → ℕ → ℕ → ℕ → List (Extent ObjOffset) → List Piece
revalidate obj in_ptr b l [] = []
revalidate obj in_ptr b l (e ∷ es) =
    let (base, lim, ptr) = vals_in e b l in
    let rest = revalidate obj in_ptr b l es in
    let piece : Piece = record { lba = base; len = lim - base; src = in_ptr + (base - b) } in
    if ltb e.base l then (if ptr.obj == obj then piece ∷ rest else rest) else []

-- The outer loop, over the entries of the request.
unfoldable pub revalidate_all : ℕ → List Entry → List (Extent ObjOffset) → List Piece
unfolding revalidate
revalidate_all in_ptr [] m = []
revalidate_all in_ptr (e ∷ es) m =
    revalidate e.obj in_ptr e.lba (e.lba + e.len) (lookup m e.lba).rest
    ++ revalidate_all (in_ptr + e.len) es m

abbrev pub extent_of : Piece → ℕ × ℕ
extent_of p = (p.lba, p.len)

-- What memcpy makes of the new object's data: the sector of the data read that its sector `k` holds.
abbrev pub copied_from : List Piece → ℕ → ℕ
copied_from [] k = 0
copied_from (p ∷ ps) k = if ltb k p.len then p.src + k else copied_from ps (k - p.len)

-- `write_gc`; `none` is a failed assertion.
unfoldable pub write_gc : ℕ → List Entry → State → Option State
unfolding revalidate_all make_obj_hdr
write_gc seq entries s = do
  let obj_extents = map extent_of (revalidate_all 0 entries s.objmap)
  let data_sectors = sum_len obj_extents
  let hdr_sectors = hdr_sectors_for (length obj_extents)
  let (objmap, deleted) = map_entries seq hdr_sectors obj_extents s.objmap
  (infos, total) ← deduct deleted s.object_info s.total_live_sectors
  hdr ← make_obj_hdr seq hdr_sectors data_sectors obj_extents true
  let info : ObjInfo = record { hdr = hdr_sectors; data_len = data_sectors; live = data_sectors }
  pf ← prefix s.name s.clones seq
  some (record s {
    objmap = objmap;
    object_info = insert seq info infos;
    total_live_sectors = total;
    outstanding_writes = s.outstanding_writes + 1;
    events = s.events ++ (put_object pf hdr ∷ []);
  })
