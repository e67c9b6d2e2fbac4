-- ===== src/Translate/Gc/Tests.antt =====
-- src/translate.cc, `write_gc`, on a concrete volume.
use lsvd_rbd.Base.{ℕ, ◌+◌, ◌*◌, ◌==◌, refl, if◌then◌else◌, List, [], ◌∷◌, arith}
use lsvd_rbd.Base.Int.{pos}
use lsvd_rbd.Base.Assoc.{find}
use lsvd_rbd.Extent.{new_extent, vals_in}
use lsvd_rbd.Extent.Map.{lookup, lower_bound}
use lsvd_rbd.Extent.Pointers.{ObjOffset, obj_target}
use lsvd_rbd.Translate.{Entry, State, prefix, sum_len}
use lsvd_rbd.Translate.Process.{IsAccounted}
use lsvd_rbd.Translate.Gc.{revalidate_all, revalidate}
use lsvd_rbd.Translate.Gc.Kept.{Kept, write_gc-Kept}

-- [0 .. 4) in object 1, [4 .. 8) in object 2 since.
abbrev volume : State
volume = record {
  name = "vol";
  clones = [];
  objmap =
      new_extent 0 4 (record { obj = 1; offset = 8 })
      ∷ new_extent 4 4 (record { obj = 2; offset = 8 })
      ∷ [];
  object_info =
      (1, record { hdr = 8; data_len = 8; live = 4 })
      ∷ (2, record { hdr = 8; data_len = 4; live = 4 })
      ∷ [];
  checkpoints = [];
  total_sectors = pos 12;
  total_live_sectors = pos 8;
  outstanding_writes = 0;
  events = [];
}

-- The collection found all eight sectors in object 1.
abbrev found : List Entry
found = record { lba = 0; len = 8; obj = 1; offset = 8 } ∷ []

abbrev old_disk : ObjOffset → ℕ
old_disk q = q.obj * 1000 + q.offset

abbrev new_disk : ObjOffset → ℕ
new_disk q = if q.obj == 3 then 1000 + q.offset else old_disk q

abbrev gc_data : ℕ → ℕ
gc_data k = 1008 + k

volume-IsAccounted : IsAccounted volume
unfolding find
volume-IsAccounted = record { sorted = omega arith; live = λ o info h. ground arith }

write_gc-Kept_example : Kept old_disk new_disk 0 3 found volume
unfolding revalidate_all revalidate lookup lower_bound vals_in find prefix sum_len
write_gc-Kept_example =
    write_gc-Kept old_disk new_disk 0 gc_data 3 found "vol" volume volume-IsAccounted
      (omega arith, (λ x q from to there own. ground arith), tt) (λ x q h. ground arith) refl refl
      (λ k h. ground arith) (λ q h. ground arith)
