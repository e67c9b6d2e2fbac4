-- ===== src/Translate/Pipeline.antt =====
-- src/translate.cc: the queue of the one worker thread (`thread_pool` of src/misc_cache.h), the calls
-- that put requests on it, and the writes to the backend that it starts. What a thread does while it
-- holds `m`, or while no other thread can see it, is one step.
pub mod Counts
pub mod Order
pub mod Calls
pub mod Worker
pub mod Writes
pub mod Flushed
pub mod Ends
mod Tests
use lsvd_rbd.Base.{
  ℕ, ◌+◌, ◌-◌, ◌/◌, ◌<◌, ◌≡◌, Bool, true, false, ltb, if◌then◌else◌, Option, none, some, List, [],
  ◌∷◌, ◌++◌, length, map, ◌>>=◌,
}
use lsvd_rbd.Translate.{Entry, State, process_batch}
use lsvd_rbd.Translate.Checkpointing.{write_checkpoint}
use lsvd_rbd.Translate.Gc.{write_gc}
use lsvd_rbd.Translate.Writes.{Request, Writer, new_request, writev, notify}

-- A `translate_req` on the queue. A flush has as its number how many writes were made before the call.
pub data Work : Type 0 where
  put_req : Request → Work
  flush_req : ℕ → Work
  ckpt_req : Work
  gc_req : List Entry → Work

-- A data object that was sent to the backend, with its batch if it has one, and whether it is stored.
pub record Sent : Type 0 where
  pub seq : ℕ
  pub batch : Option Request
  pub stored : Bool

-- The fields of translate_impl that the threads share. `waiting` is the flush that the worker waits
-- in until no write is outstanding, and `asleep` says that it sleeps on `cv` until it is notified.
-- `notifying` are the batches whose `notify` has left the lock `m` and still has the buffer map to
-- do. The last two record what happened: the ranges written, and the flushes that are done.
pub record Pipeline : Type 0 where
  pub writer : Writer
  pub queue : List Work
  pub waiting : Option ℕ
  pub asleep : Bool
  pub cur_seq : ℕ
  pub layer : State
  pub sent : List Sent
  pub notifying : List Request
  pub written : List Entry
  pub flushed : List ℕ

-- `writev`: a batch without room is put on the queue.
unfoldable pub write : ℕ → ℕ → ℕ → Pipeline → Option Pipeline
unfolding writev
write batch_buf offset bytes s = do
  w ← writev batch_buf offset bytes s.writer
  some (record s {
    writer = record w { workers = [] };
    queue = s.queue ++ map put_req w.workers;
    written =
        s.written ++ (record { lba = offset / 512; len = bytes / 512; obj = 0; offset = 0 } ∷ []);
  })

-- The current batch is put on the queue if there is data in it, as `flush` and `checkpoint` begin.
unfoldable pub submit : ℕ → Pipeline → Pipeline
submit batch_buf s =
    if ltb 0 s.writer.current.len
    then record s {
      writer = record s.writer { current = new_request batch_buf s.writer.backend_obj_bytes };
      queue = s.queue ++ (put_req s.writer.current ∷ []);
    }
    else s

unfoldable pub put_locked : Work → Pipeline → Pipeline
put_locked work s = record s { queue = s.queue ++ (work ∷ []) }

-- `flush` and `checkpoint`, up to the wait.
unfoldable pub flush : ℕ → Pipeline → Pipeline
unfolding submit put_locked
flush batch_buf s = put_locked (flush_req (length s.written)) (submit batch_buf s)

unfoldable pub checkpoint : ℕ → Pipeline → Pipeline
unfolding submit put_locked
checkpoint batch_buf s = put_locked ckpt_req (submit batch_buf s)

unfoldable pub add_sent : Option Request → State → Pipeline → Pipeline
add_sent batch layer s = record s {
  cur_seq = s.cur_seq + 1;
  layer = layer;
  sent = s.sent ++ (record { seq = s.cur_seq; batch = batch; stored = false } ∷ []);
}

-- The loop of a flush on `cv`: the worker sleeps while writes are outstanding, else the flush is done.
unfoldable pub check_outstanding : ℕ → Pipeline → Pipeline
check_outstanding n s =
    if ltb 0 s.layer.outstanding_writes
    then record s { waiting = some n; asleep = true }
    else record s { waiting = none; asleep = false; flushed = n ∷ s.flushed }

-- What `worker_thread` does with a request that it took.
unfoldable pub run_work : Work → Pipeline → Option Pipeline
unfolding add_sent check_outstanding
run_work (put_req r) s = do
  layer ← process_batch s.cur_seq r.len r.entries s.layer
  some (add_sent (some r) layer s)
run_work (flush_req n) s = some (check_outstanding n s)
run_work ckpt_req s =
    some (record s { cur_seq = s.cur_seq + 1; layer = write_checkpoint s.cur_seq s.layer })
run_work (gc_req entries) s = do
  layer ← write_gc s.cur_seq entries s.layer
  some (add_sent none layer s)

abbrev pub batch_of : Option Request → List Request
batch_of none = []
batch_of (some r) = r ∷ []

-- The write of an object is done: `translate_req::notify` up to the end of its first locked part, which
-- takes the write off the count and notifies `cv`.
unfoldable pub complete : List Sent → Sent → List Sent → Pipeline → Pipeline
complete before o after s = record s {
  asleep = false;
  layer = record s.layer { outstanding_writes = s.layer.outstanding_writes - 1 };
  sent = before ++ (record o { stored = true } ∷ after);
  notifying = s.notifying ++ batch_of o.batch;
}

-- Its second locked part, for a batch: what it makes of the buffer map.
unfoldable pub release : List Request → Request → List Request → Pipeline → Pipeline
unfolding notify
release before r after s = record s {
  writer = record s.writer { bufmap = notify r s.writer.bufmap };
  notifying = before ++ after;
}

-- The steps of the threads of an image whose `flush_interval_ms` is 0: above 0 the constructor starts
-- `flush_thread` too, which takes the current batch without the lock. No write is empty, since the
-- write log passes on whole sectors.
pub data Step (s : Pipeline) : Pipeline → Type 0 where
  writes :
      (batch_buf offset bytes : ℕ) (t : Pipeline)
      → 0 < bytes
      → write batch_buf offset bytes s ≡ some t
      → Step s t
  flushes : (batch_buf : ℕ) → Step s (flush batch_buf s)
  checkpoints : (batch_buf : ℕ) → Step s (checkpoint batch_buf s)
  collects : (entries : List Entry) → Step s (put_locked (gc_req entries) s)
  takes :
      (work : Work) (rest : List Work) (t : Pipeline)
      → s.waiting ≡ none
      → s.queue ≡ work ∷ rest
      → run_work work (record s { queue = rest }) ≡ some t
      → Step s t
  wakes : (n : ℕ) → s.waiting ≡ some n → s.asleep ≡ false → Step s (check_outstanding n s)
  completes :
      (before : List Sent) (o : Sent) (after : List Sent)
      → s.sent ≡ before ++ (o ∷ after)
      → o.stored ≡ false
      → Step s (complete before o after s)
  releases :
      (before : List Request) (r : Request) (after : List Request)
      → s.notifying ≡ before ++ (r ∷ after)
      → Step s (release before r after s)

-- The constructor, on the tables of a recovered image.
abbrev pub start : ℕ → ℕ → ℕ → State → Pipeline
start batch_buf bytes last_seq layer = record {
  writer = record {
    current = new_request batch_buf bytes;
    workers = [];
    bufmap = [];
    backend_obj_bytes = bytes;
  };
  queue = [];
  waiting = none;
  asleep = false;
  cur_seq = last_seq + 1;
  layer = record layer { outstanding_writes = 0 };
  sent = [];
  notifying = [];
  written = [];
  flushed = [];
}

pub data Reachable (s : Pipeline) : Pipeline → Type 0 where
  started : Reachable s s
  stepped : (t u : Pipeline) → Reachable s t → Step t u → Reachable s u
