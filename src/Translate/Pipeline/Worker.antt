-- ===== src/Translate/Pipeline/Worker.antt =====
-- src/translate.cc: the worker and the completions keep the order of the writes.
use mathlib.Core.Option.{some-injective}
use lsvd_rbd.Base.{
  ℕ, ◌+◌, ◌≤◌, ◌≡◌, Bool-cases, ltb, inl, inr, refl, sym, ap, subst, ◌∙◌, true, false, Option, none,
  some, List, [], ◌∷◌, ◌++◌, length, append_assoc, append_nil, add_zero, length-append, bind-some,
  arith,
}
use lsvd_rbd.Translate.{Entry, State, process_batch}
use lsvd_rbd.Translate.Checkpointing.{write_checkpoint}
use lsvd_rbd.Translate.Gc.{write_gc}
use lsvd_rbd.Translate.Writes.{Request}
use lsvd_rbd.Translate.Pipeline.{
  Work, put_req, flush_req, ckpt_req, gc_req, Sent, Pipeline, add_sent, run_work, check_outstanding,
  release, complete,
}
use lsvd_rbd.Translate.Pipeline.Counts.{process_batch_lem, write_gc_lem, write_checkpoint_lem}
use lsvd_rbd.Translate.Pipeline.Order.{
  queued, batch_entries, sent_entries, durable, in_flight, Marks, AllWithin, sent_entries-append,
  in_flight-append, durable-append, durable_complete, durable_all, AllWithin-le, InOrder,
}

false-ne-true : false ≡ true → ⊥
false-ne-true h = ground arith

pub add_sent-InOrder :
    (batch : Option Request) (layer : State) (s : Pipeline)
    → s.written
      ≡ sent_entries s.sent ++ (batch_entries batch ++ (queued s.queue ++ s.writer.current.entries))
    → s.writer.workers ≡ []
    → (s.writer.current.len ≡ 0 → s.writer.current.entries ≡ [])
    → Marks (length (sent_entries s.sent) + length (batch_entries batch)) s.queue
    → s.waiting ≡ none
    → AllWithin (length (durable s.sent)) s.flushed
    → layer.outstanding_writes ≡ in_flight s.sent + 1
    → InOrder (add_sent batch layer s)
unfolding add_sent
add_sent-InOrder batch layer s order taken nothing marks idle flushed counted =
    let o : Sent = record { seq = s.cur_seq; batch = batch; stored = false } in
    let more : sent_entries (s.sent ++ (o ∷ [])) ≡ sent_entries s.sent ++ batch_entries batch =
      sent_entries-append s.sent (o ∷ [])
      ∙ ap (λ t. sent_entries s.sent ++ t) (append_nil (batch_entries batch)) in
    record {
      order =
          order
          ∙ sym (
              append_assoc (sent_entries s.sent) (batch_entries batch)
                (queued s.queue ++ s.writer.current.entries))
          ∙ ap (λ t. t ++ (queued s.queue ++ s.writer.current.entries)) (sym more);
      taken = taken;
      nothing = nothing;
      marks = rw (more, length-append (sent_entries s.sent) (batch_entries batch)) marks;
      waits = rw (idle) tt;
      flushed =
          AllWithin-le (length (durable s.sent)) _ s.flushed (durable-append s.sent (o ∷ []))
            flushed;
      sleeps = λ h. omega (arith, counted);
      counted = counted ∙ sym (in_flight-append s.sent (o ∷ []));
    }

-- The worker looks at the count: it sleeps, or the flush is done.
pub check-InOrder :
    (n : ℕ) (s : Pipeline)
    → InOrder s
    → n ≤ length (sent_entries s.sent)
    → InOrder (check_outstanding n s)
unfolding check_outstanding
check-InOrder n s v h = elim (Bool-cases (ltb 0 s.layer.outstanding_writes)) [
  | inl some_left ↦ rw (some_left) (record {
    order = v.order;
    taken = v.taken;
    nothing = v.nothing;
    marks = v.marks;
    waits = h;
    flushed = v.flushed;
    sleeps = λ a. ground arith;
    counted = v.counted;
  })
  | inr none_left ↦
      let z : s.layer.outstanding_writes ≡ 0 = ground arith in
      let all : durable s.sent ≡ sent_entries s.sent = durable_all s.sent (sym v.counted ∙ z) in
      rw (none_left) (record {
        order = v.order;
        taken = v.taken;
        nothing = v.nothing;
        marks = v.marks;
        waits = tt;
        flushed = (rw (all) h, v.flushed);
        sleeps = λ a. absurd (false-ne-true a);
        counted = v.counted;
      })
]

pub wake-InOrder :
    (n : ℕ) (s : Pipeline) → InOrder s → s.waiting ≡ some n → InOrder (check_outstanding n s)
wake-InOrder n s v h = check-InOrder n s v (rw (h) at v.waits)

-- The worker takes the first request.
module _ (s : Pipeline) (rest : List Work) (v : InOrder s) (idle : s.waiting ≡ none) where
  take_put :
      (r : Request) (layer : State)
      → s.queue ≡ put_req r ∷ rest
      → process_batch s.cur_seq r.len r.entries s.layer ≡ some layer
      → InOrder (add_sent (some r) layer (record s { queue = rest }))
  take_put r layer q runs =
      add_sent-InOrder (some r) layer (record s { queue = rest })
        (v.order
          ∙ rw (q) (
              ap (λ t. sent_entries s.sent ++ t)
                (append_assoc r.entries (queued rest) s.writer.current.entries)))
        v.taken v.nothing (rw (q) at v.marks) idle v.flushed
        (process_batch_lem s.cur_seq r.len r.entries s.layer layer runs ∙ ap (λ n. n + 1) v.counted)

  take_gc :
      (es : List Entry) (layer : State)
      → s.queue ≡ gc_req es ∷ rest
      → write_gc s.cur_seq es s.layer ≡ some layer
      → InOrder (add_sent none layer (record s { queue = rest }))
  take_gc es layer q runs =
      add_sent-InOrder none layer (record s { queue = rest }) (v.order ∙ rw (q) refl) v.taken
        v.nothing (rw (add_zero (length (sent_entries s.sent))) (rw (q) at v.marks)) idle v.flushed
        (write_gc_lem s.cur_seq es s.layer layer runs ∙ ap (λ n. n + 1) v.counted)

  pub run_work-InOrder :
      (w : Work) (t : Pipeline)
      → s.queue ≡ w ∷ rest
      → run_work w (record s { queue = rest }) ≡ some t
      → InOrder t
  unfolding run_work
  run_work-InOrder (put_req r) t q h =
      let (layer, runs, is) =
        bind-some (process_batch s.cur_seq r.len r.entries s.layer)
          (λ layer. some (add_sent (some r) layer (record s { queue = rest }))) t h in
      subst InOrder (some-injective (add_sent (some r) layer (record s { queue = rest })) t is)
        (take_put r layer q runs)
  run_work-InOrder (gc_req es) t q h =
      let (layer, runs, is) =
        bind-some (write_gc s.cur_seq es s.layer)
          (λ layer. some (add_sent none layer (record s { queue = rest }))) t h in
      subst InOrder (some-injective (add_sent none layer (record s { queue = rest })) t is)
        (take_gc es layer q runs)
  run_work-InOrder (flush_req n) t q h =
      let marks : (n ≤ length (sent_entries s.sent)) × Marks (length (sent_entries s.sent)) rest =
        rw (q) at v.marks in
      let u : Pipeline = record s { queue = rest } in
      subst InOrder (some-injective (check_outstanding n u) t h) (
        check-InOrder n u
          (record {
            order = v.order ∙ rw (q) refl;
            taken = v.taken;
            nothing = v.nothing;
            marks = marks.1;
            waits = v.waits;
            flushed = v.flushed;
            sleeps = v.sleeps;
            counted = v.counted;
          })
          marks.0)
  run_work-InOrder ckpt_req t q h =
      subst InOrder
        (some-injective
          (record s {
            queue = rest;
            cur_seq = s.cur_seq + 1;
            layer = write_checkpoint s.cur_seq s.layer;
          })
          t h)
        (record {
          order = v.order ∙ rw (q) refl;
          taken = v.taken;
          nothing = v.nothing;
          marks = rw (q) at v.marks;
          waits = v.waits;
          flushed = v.flushed;
          sleeps = λ a. rw (write_checkpoint_lem s.cur_seq s.layer) (v.sleeps a);
          counted = write_checkpoint_lem s.cur_seq s.layer ∙ v.counted;
        })

pub complete-InOrder :
    (before : List Sent) (o : Sent) (after : List Sent) (s : Pipeline)
    → InOrder s
    → s.sent ≡ before ++ (o ∷ after)
    → o.stored ≡ false
    → InOrder (complete before o after s)
unfolding complete
complete-InOrder before o after s v q h =
    let o' : Sent = record o { stored = true } in
    let same : sent_entries (before ++ (o' ∷ after)) ≡ sent_entries s.sent =
      sent_entries-append before (o' ∷ after)
      ∙ sym (ap sent_entries q ∙ sent_entries-append before (o ∷ after)) in
    let now = in_flight-append before (o' ∷ after) in
    let was : in_flight s.sent ≡ in_flight before + (1 + in_flight after) =
      ap in_flight q ∙ in_flight-append before (o ∷ after) ∙ rw (h) refl in
    record {
      order = rw (same) v.order;
      taken = v.taken;
      nothing = v.nothing;
      marks = rw (same) v.marks;
      waits = rw (same) v.waits;
      flushed =
          AllWithin-le (length (durable s.sent)) _ s.flushed
            (rw (q) (durable_complete before o after h)) v.flushed;
      sleeps = λ a. absurd (false-ne-true a);
      counted = omega (arith, v.counted, now, was);
    }

pub release-InOrder :
    (before : List Request) (r : Request) (after : List Request) (s : Pipeline)
    → InOrder s
    → InOrder (release before r after s)
unfolding release
release-InOrder before r after s v = record {
  order = v.order;
  taken = v.taken;
  nothing = v.nothing;
  marks = v.marks;
  waits = v.waits;
  flushed = v.flushed;
  sleeps = v.sleeps;
  counted = v.counted;
}
