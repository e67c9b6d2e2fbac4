-- ===== src/Image/Read.antt =====
-- src/image.cc, `handle_reads`: a read split over the buffered writes, the objects and the holes. The
-- name of an object that a piece is read from is `prefix` of its number.
pub mod Iterators
pub mod Serve
pub mod Blocks
use lsvd_rbd.Base.{
  ℕ, zero, suc, ◌+◌, ◌-◌, ◌*◌, ◌/◌, ◌%◌, min, leb, ltb, ◌==◌, if◌then◌else◌, List, [], ◌∷◌,
}
use lsvd_rbd.Extent.{Target, Extent, limit, vals_in}
use lsvd_rbd.Extent.Map.{lookup}
use lsvd_rbd.Extent.Pointers.{ObjOffset, obj_target, SectorPtr, sector_target}

-- `CACHE_CHUNK_SIZE / 512`.
abbrev pub block_sectors : ℕ
block_sectors = 128

abbrev pub round_down : ℕ → ℕ → ℕ
round_down n m = m * (n / m)

-- What fills one slice of the caller's buffers: zeros, memory, or a cache block with the sector in
-- it where the data begin.
pub data Fill : Type 0 where
  zero_fill : Fill
  copy_in : SectorPtr → Fill
  read_block : ObjOffset → ℕ → Fill

pub record Piece : Type 0 where
  pub offset : ℕ
  pub sectors : ℕ
  pub fill : Fill

-- `vals` of the extent at an iterator; at the end of the map, an empty range at the end of the read.
abbrev pub vals_at : {P : Type 0} ⦃t : Target P⦄ → P → List (Extent P) → ℕ → ℕ → ℕ × ℕ × P
vals_at p [] start end = (end, end, p)
vals_at p (e ∷ es) start end = vals_in e start end

-- The objmap extents fully obscured by a buffered one are skipped.
pub skip_obscured : ℕ → List (Extent ObjOffset) → List (Extent ObjOffset)
skip_obscured l [] = []
skip_obscured l (e ∷ es) = let rest = skip_obscured l es in if leb (limit e) l then rest else e ∷ es

abbrev pub step_past : {P : Type 0} → List (Extent P) → List (Extent P)
step_past [] = []
step_past (e ∷ es) = es

-- The iterator moves on if the extent at it has been read to its end.
abbrev pub pass : ℕ → List (Extent ObjOffset) → List (Extent ObjOffset)
pass l [] = []
pass l (e ∷ es) = if l == limit e then es else e ∷ es

-- The body of the loop. It reads sectors from `start` on and goes on with `next`.
abbrev pub Next : Type 0
Next = ℕ → ℕ → List (Extent SectorPtr) → List (Extent ObjOffset) → List Piece

pub fill_zero : Next → ℕ → ℕ → ℕ → List (Extent SectorPtr) → List (Extent ObjOffset) → List Piece
fill_zero next base3 start off bufs objs =
    let n = base3 - start in
    record { offset = off; sectors = n; fill = zero_fill } ∷ next base3 (off + n * 512) bufs objs

pub fill_buffer :
    Next → ℕ → SectorPtr → ℕ → ℕ → List (Extent SectorPtr) → List (Extent ObjOffset) → List Piece
unfolding skip_obscured
fill_buffer next limit1 p start off bufs objs =
    let n = limit1 - start in
    record { offset = off; sectors = n; fill = copy_in p }
    ∷ next limit1 (off + n * 512) (step_past bufs) (skip_obscured limit1 objs)

pub fill_block :
    Next → ℕ → ObjOffset → ℕ → ℕ → List (Extent SectorPtr) → List (Extent ObjOffset) → List Piece
fill_block next limit2 p start off bufs objs =
    let key : ObjOffset = record { obj = p.obj; offset = round_down p.offset block_sectors } in
    let offset_limit = min (key.offset + block_sectors) (p.offset + (limit2 - start)) in
    let n = offset_limit - p.offset in
    record { offset = off; sectors = n; fill = read_block key (p.offset % block_sectors) }
    ∷ next (start + n) (off + n * 512) bufs (pass (start + n) objs)

pub fill_next : Next → ℕ → ℕ → ℕ → List (Extent SectorPtr) → List (Extent ObjOffset) → List Piece
unfolding fill_zero fill_buffer fill_block
fill_next next end start off bufs objs =
    let (base1, limit1, bufptr) = vals_at (record { buf = 0 }) bufs start end in
    let (base2, limit2, objptr) = vals_at (record { obj = 0; offset = 0 }) objs start end in
    let base3 = min base1 base2 in
    if ltb start base3
    then fill_zero next base3 start off bufs objs
    else if base1 == start
    then fill_buffer next limit1 bufptr start off bufs objs
    else fill_block next (min limit2 base1) objptr start off bufs objs

unfoldable pub read_loop : ℕ → ℕ → Next
unfolding fill_next
read_loop zero end start off bufs objs = []
read_loop (suc fuel) end start off bufs objs =
    let rest = fill_next (read_loop fuel end) end start off bufs objs in
    if ltb start end then rest else []

-- `handle_reads`: the pieces of the sectors from `start` up to `end`, over both maps.
unfoldable pub handle_reads : ℕ → ℕ → List (Extent SectorPtr) → List (Extent ObjOffset) → List Piece
unfolding read_loop
handle_reads start end bufmap objmap =
    read_loop (end - start) end start 0 (lookup bufmap start).rest (lookup objmap start).rest
