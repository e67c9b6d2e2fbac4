-- ===== src/Translate/Pipeline/Tests.antt =====
-- src/translate.cc: a write, a flush and the threads behind them, on a concrete image.
use lsvd_rbd.Base.{◌≡◌, refl, true, false, Option, none, some, [], ◌∷◌, arith}
use lsvd_rbd.Base.Int.{pos}
use lsvd_rbd.Base.Assoc.{find, insert}
use lsvd_rbd.Extent.Map.{update}
use lsvd_rbd.Translate.{State, process_batch, deduct, map_entries, prefix}
use lsvd_rbd.Translate.Pipeline.{
  put_req, flush_req, Sent, Pipeline, write, flush, run_work, complete, writes, flushes, takes,
  wakes, completes, start, Reachable, started, stepped,
}
use lsvd_rbd.Translate.Pipeline.Order.{in_flight}
use lsvd_rbd.Translate.Pipeline.Flushed.{AllDurable, Reachable-AllDurable}
use lsvd_rbd.Translate.Pipeline.Ends.{flush_ends}

abbrev image : State
image = record {
  name = "vol";
  clones = [];
  objmap = [];
  object_info = [];
  checkpoints = [];
  total_sectors = pos 0;
  total_live_sectors = pos 0;
  outstanding_writes = 0;
  events = [];
}

abbrev began : Pipeline
began = start 100000 65536 7 image

abbrev or_began : Option Pipeline → Pipeline
or_began none = began
or_began (some s) = s

-- A write of two sectors, a flush, and the worker takes the batch, then the flush.
abbrev wrote : Pipeline
wrote = or_began (write 200000 4096 1024 began)

abbrev called : Pipeline
called = flush 300000 wrote

abbrev processed : Pipeline
processed =
    or_began (run_work (put_req wrote.writer.current) (record called { queue = flush_req 1 ∷ [] }))

abbrev waits : Pipeline
waits = record processed { queue = []; waiting = some 1; asleep = true }

abbrev object : Sent
object = record { seq = 8; batch = some wrote.writer.current; stored = false }

abbrev stored : Pipeline
stored = complete [] object [] waits

abbrev returned : Pipeline
returned = record stored { waiting = none; asleep = false; flushed = 1 ∷ [] }

waits_reached : Reachable (start 100000 65536 7 image) waits
unfolding write flush run_work process_batch deduct map_entries update find insert prefix
waits_reached =
    stepped processed waits
      (stepped called processed
        (stepped wrote called
          (stepped began wrote started (writes 200000 4096 1024 wrote (omega arith) refl))
          (flushes 300000))
        (takes (put_req wrote.writer.current) (flush_req 1 ∷ []) processed refl refl refl))
      (takes (flush_req 1) [] waits refl refl refl)

returned_reached : Reachable (start 100000 65536 7 image) returned
unfolding write flush run_work complete process_batch deduct map_entries update find insert prefix
returned_reached =
    stepped stored returned (stepped waits stored waits_reached (completes [] object [] refl refl))
      (wakes 1 refl refl)

Reachable-AllDurable_example :
    AllDurable returned returned.flushed
    × (returned.layer.outstanding_writes ≡ in_flight returned.sent)
Reachable-AllDurable_example = Reachable-AllDurable 100000 65536 7 image returned returned_reached

flush_ends_example : (u : Pipeline) × (Reachable waits u × (u.flushed ≡ 1 ∷ waits.flushed))
unfolding run_work
flush_ends_example = flush_ends 100000 65536 7 1 image waits waits_reached refl
