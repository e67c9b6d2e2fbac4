-- ===== src/Translate/Pipeline/Ends.antt =====
-- src/translate.cc: a flush that the worker waits in can return.
use lsvd_rbd.Base.{
  ℕ, zero, suc, ◌<◌, ◌≡◌, refl, ap, false, Bool-cases, some, inl, inr, List, [], ◌∷◌, ◌++◌, arith,
}
use lsvd_rbd.Translate.{State}
use lsvd_rbd.Translate.Pipeline.{
  Sent, Pipeline, check_outstanding, complete, wakes, completes, start, Reachable, started, stepped,
}
use lsvd_rbd.Translate.Pipeline.Order.{InOrder, in_flight}
use lsvd_rbd.Translate.Pipeline.Worker.{complete-InOrder}
use lsvd_rbd.Translate.Pipeline.Flushed.{Reachable-InOrder, start-InOrder}

-- An object that is not stored, with those before and behind it.
record Unstored (os : List Sent) : Type 0 where
  before : List Sent
  object : Sent
  after : List Sent
  parts : os ≡ before ++ (object ∷ after)
  open_yet : object.stored ≡ false

still_open : (os : List Sent) → 0 < in_flight os → Unstored os
still_open [] h = absurd (omega arith)
still_open (o ∷ os) h = elim (Bool-cases o.stored) [
  | inr k ↦ record { before = []; object = o; after = os; parts = refl; open_yet = k }
  | inl k ↦
      let u : Unstored os = still_open os (ground arith) in
      record {
        before = o ∷ u.before;
        object = u.object;
        after = u.after;
        parts = ap (λ t. o ∷ t) u.parts;
        open_yet = u.open_yet;
      }
]

-- The writes that are outstanding are completed one by one; the last has notified the worker.
ends_after :
    (k n : ℕ) (s t : Pipeline)
    → InOrder t
    → t.layer.outstanding_writes ≡ k
    → t.waiting ≡ some n
    → Reachable s t
    → (u : Pipeline) × (Reachable s u × (u.flushed ≡ n ∷ t.flushed))
unfolding complete check_outstanding
ends_after zero n s t v e w past = elim (Bool-cases t.asleep) [
  | inl sleeping ↦ absurd (omega (arith, v.sleeps sleeping))
  | inr awake ↦ (
    check_outstanding n t,
    (stepped t (check_outstanding n t) past (wakes n w awake), rw (e) refl),
  )
]
ends_after (suc k) n s t v e w past =
    let o : Unstored t.sent = still_open t.sent (omega (arith, v.counted)) in
    let u : Pipeline = complete o.before o.object o.after t in
    ends_after k n s u (complete-InOrder o.before o.object o.after t v o.parts o.open_yet)
      (omega arith) w (stepped t u past (completes o.before o.object o.after o.parts o.open_yet))

-- Of an image without `flush_thread` (`flush_interval_ms` is 0), from every state that its threads reach
-- from a start and in which the worker waits in a flush, the threads can reach one in which this
-- flush is done and no other has become so in the meantime. A worker that sleeps on `cv` goes on only
-- after a notification.
pub flush_ends :
    (batch_buf bytes last_seq n : ℕ) (layer : State) (s : Pipeline)
    → Reachable (start batch_buf bytes last_seq layer) s
    → s.waiting ≡ some n
    → (u : Pipeline) × (Reachable s u × (u.flushed ≡ n ∷ s.flushed))
flush_ends batch_buf bytes last_seq n layer s r w =
    ends_after s.layer.outstanding_writes n s s
      (Reachable-InOrder (start batch_buf bytes last_seq layer) s
        (start-InOrder batch_buf bytes last_seq layer) r)
      refl w started
