-- ===== src/Translate/Pipeline/Counts.antt =====
-- src/translate.cc: each object that is sent counts one outstanding write.
use lsvd_rbd.Base.{ℕ, ◌+◌, ◌≡◌, refl, some, List, arith}
use lsvd_rbd.Translate.{Entry, State, process_batch}
use lsvd_rbd.Translate.Gc.{write_gc}
use lsvd_rbd.Translate.Checkpointing.{write_checkpoint}

pub process_batch_lem :
    (seq len : ℕ) (entries : List Entry) (s t : State)
    → process_batch seq len entries s ≡ some t
    → t.outstanding_writes ≡ s.outstanding_writes + 1
unfolding process_batch
process_batch_lem seq len entries s t h = ground arith

pub write_gc_lem :
    (seq : ℕ) (entries : List Entry) (s t : State)
    → write_gc seq entries s ≡ some t
    → t.outstanding_writes ≡ s.outstanding_writes + 1
unfolding write_gc
write_gc_lem seq entries s t h = ground arith

pub write_checkpoint_lem :
    (seq : ℕ) (s : State) → (write_checkpoint seq s).outstanding_writes ≡ s.outstanding_writes
unfolding write_checkpoint
write_checkpoint_lem seq s = refl
