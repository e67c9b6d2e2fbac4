-- ===== src/Translate/Pipeline/Flushed.antt =====
-- src/translate.cc: what a flush that has returned promises.
use lsvd_rbd.Base.{
  ℕ, zero, suc, ◌≤◌, ◌≡◌, refl, sym, ap, ◌∙◌, Bool-cases, inl, inr, List, [], ◌∷◌, ◌++◌, length,
  take, append_assoc, arith,
}
use lsvd_rbd.Translate.{Entry, State}
use lsvd_rbd.Translate.Pipeline.{
  ckpt_req, gc_req, Sent, Pipeline, submit, checkpoint, Step, writes, flushes, checkpoints,
  collects, takes, wakes, completes, releases, start, Reachable, started, stepped,
}
use lsvd_rbd.Translate.Pipeline.Order.{
  queued, batch_entries, sent_entries, durable, in_flight, AllWithin, InOrder,
}
use lsvd_rbd.Translate.Pipeline.Calls.{submit-InOrder, put-InOrder, flush-InOrder}
use lsvd_rbd.Translate.Pipeline.Worker.{
  run_work-InOrder, wake-InOrder, complete-InOrder, release-InOrder,
}
use lsvd_rbd.Translate.Pipeline.Writes.{write-InOrder}

Step-InOrder : (s t : Pipeline) → Step s t → InOrder s → InOrder t
unfolding checkpoint
Step-InOrder s t (writes batch_buf offset bytes _ some_bytes h) v =
    write-InOrder batch_buf offset bytes s t v some_bytes h
Step-InOrder s t (flushes batch_buf) v = flush-InOrder batch_buf s v
Step-InOrder s t (checkpoints batch_buf) v =
    put-InOrder ckpt_req (submit batch_buf s) (submit-InOrder batch_buf s v) refl tt
Step-InOrder s t (collects es) v = put-InOrder (gc_req es) s v refl tt
Step-InOrder s t (takes w rest _ idle q h) v = run_work-InOrder s rest v idle w t q h
Step-InOrder s t (wakes n h a) v = wake-InOrder n s v h
Step-InOrder s t (completes before o after q h) v = complete-InOrder before o after s v q h
Step-InOrder s t (releases before r after q) v = release-InOrder before r after s v

pub Reachable-InOrder : (s t : Pipeline) → InOrder s → Reachable s t → InOrder t
Reachable-InOrder s t v started = v
Reachable-InOrder s t v (stepped u _ past one) = Step-InOrder u t one (Reachable-InOrder s u v past)

pub start-InOrder :
    (batch_buf bytes last_seq : ℕ) (layer : State) → InOrder (start batch_buf bytes last_seq layer)
start-InOrder batch_buf bytes last_seq layer = record {
  order = refl;
  taken = refl;
  nothing = λ h. refl;
  marks = tt;
  waits = tt;
  flushed = tt;
  sleeps = λ h. absurd (ground arith);
  counted = refl;
}

-- The first `n` ranges written, for each number of a flush, are those of stored objects.
abbrev pub AllDurable : Pipeline → List ℕ → Type 0
AllDurable s [] = Unit
AllDurable s (n ∷ ns) =
    (take n s.written ≡ take n (durable s.sent)) × (n ≤ length (durable s.sent)) × AllDurable s ns

durable_prefix : (os : List Sent) → (rest : List Entry) × (sent_entries os ≡ durable os ++ rest)
durable_prefix [] = ([], refl)
durable_prefix (o ∷ os) =
    let (rest, e) = durable_prefix os in
    elim (Bool-cases o.stored) [
      | inl h ↦ (rest, rw (h, e) (sym (append_assoc (batch_entries o.batch) (durable os) rest)))
      | inr h ↦ (batch_entries o.batch ++ sent_entries os, rw (h) refl)
    ]

within : (n : ℕ) (xs ys : List Entry) → n ≤ length xs → take n (xs ++ ys) ≡ take n xs
within zero xs ys h = refl
within (suc n) [] ys h = absurd (omega arith)
within (suc n) (x ∷ xs) ys h = ap (λ t. x ∷ t) (within n xs ys (omega arith))

AllWithin-AllDurable :
    (s : Pipeline)
    → InOrder s
    → (ns : List ℕ) → AllWithin (length (durable s.sent)) ns
    → AllDurable s ns
AllWithin-AllDurable s v [] h = tt
AllWithin-AllDurable s v (n ∷ ns) h =
    let (rest, e) = durable_prefix s.sent in
    let tail : List Entry = queued s.queue ++ s.writer.current.entries in
    let all : s.written ≡ durable s.sent ++ (rest ++ tail) =
      v.order ∙ ap (λ t. t ++ tail) e ∙ append_assoc (durable s.sent) rest tail in
    (rw (all) (within n (durable s.sent) (rest ++ tail) h.0), h.0, AllWithin-AllDurable s v ns h.1)

-- Of an image without `flush_thread` (`flush_interval_ms` is 0), in every state that its threads reach
-- from a start, in any order of their steps: each flush that is done was called when at most as many
-- writes had been made as are in the objects in front of the first that is not stored, and those
-- objects hold these writes first, in their order; and the count of outstanding writes is the
-- number of objects sent and not stored.
pub Reachable-AllDurable :
    (batch_buf bytes last_seq : ℕ) (layer : State) (s : Pipeline)
    → Reachable (start batch_buf bytes last_seq layer) s
    → AllDurable s s.flushed × (s.layer.outstanding_writes ≡ in_flight s.sent)
Reachable-AllDurable batch_buf bytes last_seq layer s r =
    let v : InOrder s =
      Reachable-InOrder (start batch_buf bytes last_seq layer) s
        (start-InOrder batch_buf bytes last_seq layer) r in
    (AllWithin-AllDurable s v s.flushed v.flushed, v.counted)
