-- ===== src/Translate/Pipeline/Writes.antt =====
-- src/translate.cc: `writev` keeps the order of the writes.
use mathlib.Core.Option.{some-injective}
use lsvd_rbd.Base.{
  ℕ, ◌/◌, ◌<◌, ◌≡◌, refl, sym, ap, subst, ◌∙◌, true, false, Bool-cases, some, inl, inr, [], ◌∷◌,
  ◌++◌, length, map, append_assoc, append_nil, bind-some, arith,
}
use lsvd_rbd.Translate.{Entry}
use lsvd_rbd.Translate.Writes.{Request, Writer, append, new_request, writev, roll_over, room}
use lsvd_rbd.Translate.Pipeline.{put_req, Pipeline, write}
use lsvd_rbd.Translate.Pipeline.Order.{
  queued, sent_entries, Marks, queued-append, Marks-append, InOrder,
}

-- What `writev` does to the queue and to the current batch.
pub writev_lem :
    (batch_buf offset bytes : ℕ) (w t : Writer)
    → writev batch_buf offset bytes w ≡ some t
    → ((t.workers ≡ (roll_over batch_buf bytes w).workers)
        × (t.current ≡ (append (offset / 512) bytes (roll_over batch_buf bytes w).current).1))
unfolding writev
writev_lem batch_buf offset bytes w t h = ground arith

abbrev pub entry_at : ℕ → ℕ → Entry
entry_at offset bytes = record { lba = offset / 512; len = bytes / 512; obj = 0; offset = 0 }

module _ (offset bytes : ℕ) (s : Pipeline) (w : Writer) (v : InOrder s)
    (some_bytes : 0 < bytes) where
  abbrev wrote : Pipeline
  wrote = record s {
    writer = record w { workers = [] };
    queue = s.queue ++ map put_req w.workers;
    written = s.written ++ (entry_at offset bytes ∷ []);
  }

  wrote-InOrder :
      (before : Request)
      → w.current ≡ (append (offset / 512) bytes before).1
      → queued (s.queue ++ map put_req w.workers) ++ before.entries
        ≡ queued s.queue ++ s.writer.current.entries
      → Marks (length (sent_entries s.sent)) (s.queue ++ map put_req w.workers)
      → InOrder wrote
  wrote-InOrder before now same marks = record {
    order = rw (now) (
        ap (λ t. t ++ (entry_at offset bytes ∷ [])) v.order
        ∙ append_assoc (sent_entries s.sent) (queued s.queue ++ s.writer.current.entries)
            (entry_at offset bytes ∷ [])
        ∙ ap (λ t. sent_entries s.sent ++ t)
            (ap (λ t. t ++ (entry_at offset bytes ∷ [])) (sym same)
              ∙ append_assoc (queued (s.queue ++ map put_req w.workers)) before.entries
                  (entry_at offset bytes ∷ [])));
    taken = refl;
    nothing = rw (now) (λ h. absurd (omega arith));
    marks = marks;
    waits = v.waits;
    flushed = v.flushed;
    sleeps = v.sleeps;
    counted = v.counted;
  }

  same_batch :
      (batch_buf : ℕ)
      → room bytes s.writer.current ≡ true
      → writev batch_buf offset bytes s.writer ≡ some w
      → InOrder wrote
  unfolding roll_over
  same_batch batch_buf h runs =
      let (queue, now) = writev_lem batch_buf offset bytes s.writer w runs in
      let none : w.workers ≡ [] = queue ∙ rw (h) v.taken in
      let still : s.queue ++ map put_req w.workers ≡ s.queue = rw (none) (append_nil s.queue) in
      wrote-InOrder s.writer.current (now ∙ rw (h) refl) (rw (still) refl) (rw (still) v.marks)

  new_batch :
      (batch_buf : ℕ)
      → room bytes s.writer.current ≡ false
      → writev batch_buf offset bytes s.writer ≡ some w
      → InOrder wrote
  unfolding roll_over
  new_batch batch_buf h runs =
      let (queue, now) = writev_lem batch_buf offset bytes s.writer w runs in
      let one : w.workers ≡ s.writer.current ∷ [] = queue ∙ rw (h, v.taken) refl in
      wrote-InOrder (new_request batch_buf s.writer.backend_obj_bytes) (now ∙ rw (h) refl)
        (rw
          (
            one,
            queued-append s.queue (put_req s.writer.current ∷ []),
            append_nil s.writer.current.entries,
          )
          (append_nil (queued s.queue ++ s.writer.current.entries)))
        (rw (one) (
          Marks-append (length (sent_entries s.sent)) s.queue (put_req s.writer.current) v.marks
            tt))

pub write-InOrder :
    (batch_buf offset bytes : ℕ) (s t : Pipeline)
    → InOrder s
    → 0 < bytes
    → write batch_buf offset bytes s ≡ some t
    → InOrder t
unfolding write
write-InOrder batch_buf offset bytes s t v some_bytes h =
    let (w, runs, is) =
      bind-some (writev batch_buf offset bytes s.writer)
        (λ w. some (wrote offset bytes s w v some_bytes)) t h in
    subst InOrder (some-injective (wrote offset bytes s w v some_bytes) t is)
      (elim (Bool-cases (room bytes s.writer.current)) [
        | inl fits ↦ same_batch offset bytes s w v some_bytes batch_buf fits runs
        | inr full ↦ new_batch offset bytes s w v some_bytes batch_buf full runs
      ])
