-- ===== src/Translate/Pipeline/Calls.antt =====
-- src/translate.cc: the calls that put requests on the queue keep the order of the writes.
use lsvd_rbd.Base.{
  ℕ, ◌+◌, ◌≡◌, refl, sym, ap, ◌∙◌, Bool-cases, ltb, inl, inr, [], ◌∷◌, ◌++◌, length, append_nil,
  length-append, arith,
}
use lsvd_rbd.Translate.Pipeline.{Work, put_req, flush_req, Pipeline, submit, put_locked, flush}
use lsvd_rbd.Translate.Pipeline.Order.{
  entries_of, queued, sent_entries, Marks, queued-append, Marks-append, InOrder,
}

pub submit-InOrder : (batch_buf : ℕ) (s : Pipeline) → InOrder s → InOrder (submit batch_buf s)
unfolding submit
submit-InOrder batch_buf s v = elim (Bool-cases (ltb 0 s.writer.current.len)) [
  | inr h ↦ rw (h) v
  | inl h ↦ rw (h) (record {
    order =
        v.order
        ∙ ap (λ t. sent_entries s.sent ++ t)
            (rw
              (
                queued-append s.queue (put_req s.writer.current ∷ []),
                append_nil s.writer.current.entries,
              )
              (sym (append_nil (queued s.queue ++ s.writer.current.entries))));
    taken = v.taken;
    nothing = λ e. refl;
    marks =
        Marks-append (length (sent_entries s.sent)) s.queue (put_req s.writer.current) v.marks tt;
    waits = v.waits;
    flushed = v.flushed;
    sleeps = v.sleeps;
    counted = v.counted;
  })
]

pub submit_empties :
    (batch_buf : ℕ) (s : Pipeline) → InOrder s → (submit batch_buf s).writer.current.entries ≡ []
unfolding submit
submit_empties batch_buf s v = elim (Bool-cases (ltb 0 s.writer.current.len)) [
  | inl h ↦ rw (h) refl
  | inr h ↦ rw (h) (v.nothing (ground arith))
]

pub submit_written : (batch_buf : ℕ) (s : Pipeline) → (submit batch_buf s).written ≡ s.written
unfolding submit
submit_written batch_buf s = elim (Bool-cases (ltb 0 s.writer.current.len)) [
  | inl h ↦ rw (h) refl
  | inr h ↦ rw (h) refl
]

pub put-InOrder :
    (w : Work) (s : Pipeline)
    → InOrder s
    → entries_of w ≡ []
    → Marks (length (sent_entries s.sent) + length (queued s.queue)) (w ∷ [])
    → InOrder (put_locked w s)
unfolding put_locked
put-InOrder w s v e m = record {
  order =
      v.order
      ∙ ap (λ t. sent_entries s.sent ++ (t ++ s.writer.current.entries))
          (sym (queued-append s.queue (w ∷ []) ∙ rw (e) (append_nil (queued s.queue))));
  taken = v.taken;
  nothing = v.nothing;
  marks = Marks-append (length (sent_entries s.sent)) s.queue w v.marks m;
  waits = v.waits;
  flushed = v.flushed;
  sleeps = v.sleeps;
  counted = v.counted;
}

pub flush-InOrder : (batch_buf : ℕ) (s : Pipeline) → InOrder s → InOrder (flush batch_buf s)
unfolding flush
flush-InOrder batch_buf s v =
    let t : Pipeline = submit batch_buf s in
    let u : InOrder t = submit-InOrder batch_buf s v in
    let all : s.written ≡ sent_entries t.sent ++ queued t.queue =
      sym (submit_written batch_buf s)
      ∙ u.order
      ∙ rw (submit_empties batch_buf s v, append_nil (queued t.queue)) refl in
    let count : length s.written ≡ length (sent_entries t.sent) + length (queued t.queue) =
      ap length all ∙ length-append (sent_entries t.sent) (queued t.queue) in
    put-InOrder (flush_req (length s.written)) t u refl (omega (arith, count), tt)
