-- ===== src/Translate/Tests.antt =====
-- src/translate.cc: batches, trims and checkpoints on a concrete volume.
use lsvd_rbd.Base.{ℕ, ◌≡◌, refl, true, none, some, List, [], ◌∷◌, take, arith}
use lsvd_rbd.Base.Int.{pos, negsuc}
use lsvd_rbd.Translate.Readers.{starts, ends}
use lsvd_rbd.Translate.Readers.Uncounted.{find-ends-starts}
use lsvd_rbd.Base.Assoc.{find, find-nil}
use lsvd_rbd.Extent.{new_extent}
use lsvd_rbd.Extent.Pointers.{ObjOffset, obj_target}
use lsvd_rbd.Translate.{Entry, State, prefix, sum_len}
use lsvd_rbd.Translate.Process.{
  IsAccounted, Processed, process_batch-Processed, Discarded, discard-Discarded,
}
use lsvd_rbd.Translate.Checkpointing.{checkpoint_ops}
use lsvd_rbd.Translate.Checkpointing.Reload.{Restored, checkpoint-Restored}
use lsvd_rbd.Translate.Checkpointing.Crash.{
  Store, IsConsistent, replay, checkpoint_ops-IsConsistent,
}

abbrev place_in : ℕ → ℕ → ObjOffset
place_in o k = record { obj = o; offset = k }

-- [0 .. 8) in object 1, a hole, [10 .. 14) in object 2.
abbrev volume : State
volume = record {
  name = "vol";
  clones = [];
  objmap = new_extent 0 8 (place_in 1 8) ∷ new_extent 10 4 (place_in 2 8) ∷ [];
  object_info =
      (1, record { hdr = 8; data_len = 8; live = 8 })
      ∷ (2, record { hdr = 8; data_len = 4; live = 4 })
      ∷ [];
  checkpoints = 4 ∷ 6 ∷ 7 ∷ [];
  total_sectors = pos 12;
  total_live_sectors = pos 12;
  outstanding_writes = 0;
  events = [];
}

volume-IsAccounted : IsAccounted volume
unfolding find
volume-IsAccounted = record { sorted = omega arith; live = λ o info h. ground arith }

abbrev one_write : List Entry
one_write = record { lba = 6; len = 6; obj = 0; offset = 0 } ∷ []

process_batch-Processed_example : Processed 3 3072 one_write "vol" volume
unfolding prefix sum_len
process_batch-Processed_example =
    process_batch-Processed 3 3072 one_write "vol" volume volume-IsAccounted refl (omega arith) refl
      refl

discard-Discarded_example : Discarded 1024 2048 volume
discard-Discarded_example = discard-Discarded 1024 2048 volume volume-IsAccounted (omega arith)

checkpoint-Restored_example : Restored 8 volume
checkpoint-Restored_example =
    checkpoint-Restored 8 volume (omega arith) (omega arith) (omega arith) (omega arith)

abbrev backend : Store
backend = record { present = λ c. true; named = 4 ∷ 6 ∷ 7 ∷ [] }

checkpoint_ops-IsConsistent_example :
    IsConsistent (replay (take 2 (checkpoint_ops 8 volume)) backend)
checkpoint_ops-IsConsistent_example =
    checkpoint_ops-IsConsistent 8 volume backend (λ c h. refl) refl (omega arith) 2

find-ends-starts_example :
    (find 5 (ends 5 2 (starts 5 3 [])) ≡ none)
    × (find 5 (ends 5 1 (starts 5 1 [])) ≡ some (negsuc 0))
find-ends-starts_example = find-ends-starts 5 1 [] (find-nil 5)
