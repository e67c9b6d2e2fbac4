-- ===== src/Image/Tests.antt =====
-- src/image.cc: recovery and reads on concrete maps.
use lsvd_rbd.Base.{
  ℕ, ◌≡◌, ◌≤◌, ◌<◌, refl, subst, false, ◌==◌, if◌then◌else◌, Option, some, none, List, [], ◌∷◌,
  arith,
}
use lsvd_rbd.Base.Int.{pos}
use lsvd_rbd.Base.Assoc.{find}
use lsvd_rbd.Extent.{Extent, new_extent, vals_in}
use lsvd_rbd.Extent.Map.{update, lookup}
use lsvd_rbd.Extent.Pointers.{ObjOffset, obj_target, SectorPtr, sector_target}
use lsvd_rbd.Translate.{DataHdr, map_entries}
use lsvd_rbd.Image.Recovery.{Stored, logdata, Recovered, throws, read_data_hdr, apply_log, roll}
use lsvd_rbd.Image.Recovery.Replay.{Replayed, apply_log-Replayed, apply_log-throws}
use lsvd_rbd.Image.Recovery.Roll.{IsGap, EndsAt, roll-EndsAt}
use lsvd_rbd.Image.Read.{handle_reads, zero_fill, copy_in, read_block}
use lsvd_rbd.Image.Read.Serve.{memory, serve, serve-handle_reads}
use lsvd_rbd.Image.Read.Blocks.{Follows, handle_reads-Follows}

abbrev place_in : ℕ → ℕ → ObjOffset
place_in o k = record { obj = o; offset = k }

abbrev header : ℕ → ℕ → DataHdr
header seq lba = record {
  seq = seq;
  hdr_sectors = 8;
  data_sectors = 4;
  data_map = (lba, 4) ∷ [];
  is_gc = false;
}

-- Object 2 writes [20 .. 24), and no object follows it.
abbrev fetch : ℕ → ℕ → Option Stored
fetch lba n = if n == 2 then some (record { kind = logdata; hdr = header 2 lba }) else none

abbrev opened : Recovered
opened = record {
  objmap = new_extent 0 8 (place_in 1 8) ∷ [];
  obj_info = (1, record { hdr = 8; data_len = 8; live = pos 8 }) ∷ [];
  checkpoints = 1 ∷ [];
}

apply_log-Replayed_example : Replayed 2 (header 2 20) (fetch 20) opened
unfolding map_entries update
apply_log-Replayed_example =
    apply_log-Replayed (fetch 20) 2 (header 2 20) opened refl (omega arith) (omega arith) refl

apply_log-throws_example : apply_log (fetch 4) 2 opened ≡ throws
unfolding map_entries update find
apply_log-throws_example =
    apply_log-throws (fetch 4) 2 (header 2 4) opened refl (new_extent 4 4 (place_in 1 12)) []
      (record { hdr = 8; data_len = 8; live = pos 8 }) 8 refl (omega arith) refl refl (omega arith)

no-IsGap : (i : ℕ) → 2 ≤ i → i < 3 → ¬ IsGap (fetch 20) i
unfolding read_data_hdr
no-IsGap i h k g =
    let e : i ≡ 2 = omega arith in
    let at_two : IsGap (fetch 20) 2 = subst (IsGap (fetch 20)) e g in cc at_two

roll-EndsAt_example : EndsAt 3 (roll (fetch 20) 2 2 opened)
unfolding read_data_hdr
roll-EndsAt_example = roll-EndsAt (fetch 20) 3 1 2 2 opened refl refl no-IsGap (omega arith)

abbrev buffered : List (Extent SectorPtr)
buffered = new_extent 4 2 (record { buf = 4096 }) ∷ []

-- The sectors 2 to 12: two from the object, two from memory, two more from the object, the rest zero.
handle_reads_pieces :
    handle_reads 2 12 buffered opened.objmap
    ≡ record { offset = 0; sectors = 2; fill = read_block (place_in 1 0) 10 }
      ∷ record { offset = 1024; sectors = 2; fill = copy_in (record { buf = 4096 }) }
      ∷ record { offset = 2048; sectors = 2; fill = read_block (place_in 1 0) 14 }
      ∷ record { offset = 3072; sectors = 4; fill = zero_fill }
      ∷ []
unfolding handle_reads lookup vals_in
handle_reads_pieces = refl

serve-handle_reads_example :
    serve (handle_reads 2 12 buffered opened.objmap) 3 ≡ memory (record { buf = 4608 })
serve-handle_reads_example =
    serve-handle_reads 2 12 5 buffered opened.objmap (omega arith) (omega arith) (omega arith)
      (omega arith)

handle_reads-Follows_example : Follows 0 (handle_reads 2 12 buffered opened.objmap)
handle_reads-Follows_example = handle_reads-Follows 2 12 buffered opened.objmap
