-- ===== src/Image/Read/Blocks.antt =====
-- src/image.cc, `handle_reads`: the slices follow one another, and each cache request keeps to what
-- `make_read_req` asserts.
use lsvd_rbd.Base.{
  ℕ, zero, suc, ◌+◌, ◌-◌, ◌*◌, ◌%◌, ◌≤◌, ◌≡◌, refl, min, ltb, ◌==◌, Bool-cases, inl, inr, List, [],
  ◌∷◌, arith,
}
use lsvd_rbd.Extent.{Extent}
use lsvd_rbd.Extent.Pointers.{ObjOffset, obj_target, SectorPtr, sector_target}
use lsvd_rbd.Image.Read.{
  Fill, zero_fill, copy_in, read_block, Piece, Next, vals_at, fill_zero, fill_buffer, fill_block,
  fill_next, read_loop, handle_reads, block_sectors,
}

-- A cache request begins at a block and stays inside it.
abbrev pub KeepsBlock : Fill → ℕ → Type 0
KeepsBlock zero_fill n = Unit {0}
KeepsBlock (copy_in p) n = Unit {0}
KeepsBlock (read_block key s) n = (key.offset % block_sectors ≡ 0) × (s + n ≤ block_sectors)

-- The slices of the caller's buffers follow one another from a byte offset on.
abbrev pub Follows : ℕ → List Piece → Type 0
Follows off [] = Unit {0}
Follows off (p ∷ ps) =
    (p.offset ≡ off) × KeepsBlock p.fill p.sectors × Follows (off + p.sectors * 512) ps

module _ (next : Next) (start end off : ℕ) (bufs : List (Extent SectorPtr))
    (objs : List (Extent ObjOffset))
    (ih : (s o : ℕ) (bs : List (Extent SectorPtr)) (os : List (Extent ObjOffset))
      → Follows o (next s o bs os)) where
  Follows-fill_next : Follows off (fill_next next end start off bufs objs)
  unfolding fill_next fill_zero fill_buffer fill_block
  Follows-fill_next =
      let (b1, l1, p1) = vals_at (record { buf = 0 }) bufs start end in
      let (b2, l2, p2) = vals_at (record { obj = 0; offset = 0 }) objs start end in
      elim (Bool-cases (ltb start (min b1 b2))) [
        | inl gap ↦ rw (gap, fill_next) (refl, tt, ih _ _ _ _)
        | inr free ↦
            rw (free, fill_next)
              (elim (Bool-cases (b1 == start)) [
                | inl here ↦ rw (here, fill_next) (refl, tt, ih _ _ _ _)
                | inr ahead ↦ rw (ahead, fill_next) (refl, (omega arith, omega arith), ih _ _ _ _)
              ])
      ]

Follows-read_loop :
    (fuel end s off : ℕ) (bufs : List (Extent SectorPtr)) (objs : List (Extent ObjOffset))
    → Follows off (read_loop fuel end s off bufs objs)
unfolding read_loop
Follows-read_loop zero end s off bufs objs = tt
Follows-read_loop (suc fuel) end s off bufs objs = elim (Bool-cases (ltb s end)) [
  | inl go ↦
      rw (go, read_loop)
        (Follows-fill_next (read_loop fuel end) s end off bufs objs
          (λ s' o bs os. Follows-read_loop fuel end s' o bs os))
  | inr done ↦ rw (done, read_loop) tt
]

-- The slices of a read follow one another from its first byte on, and each cache request begins at a
-- block and stays inside it.
pub handle_reads-Follows :
    (start end : ℕ) (bufmap : List (Extent SectorPtr)) (objmap : List (Extent ObjOffset))
    → Follows 0 (handle_reads start end bufmap objmap)
unfolding handle_reads
handle_reads-Follows start end bufmap objmap = Follows-read_loop (end - start) end start 0 _ _
