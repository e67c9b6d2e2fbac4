-- ===== src/Translate/Pipeline/Order.antt =====
-- src/translate.cc: the writes on their way through the queue, in order.
use lsvd_rbd.Base.{
  ℕ, ◌+◌, ◌≤◌, ◌<◌, ◌≡◌, refl, sym, true, false, Bool-cases, if◌then◌else◌, Option, none, some, inl,
  inr, List, [], ◌∷◌, ◌++◌, length, append_assoc, length-append, arith,
}
use lsvd_rbd.Translate.{Entry}
use lsvd_rbd.Translate.Writes.{Request}
use lsvd_rbd.Translate.Pipeline.{Work, put_req, flush_req, ckpt_req, gc_req, Sent, Pipeline}

-- The ranges that a request on the queue and a sent object hold.
abbrev pub entries_of : Work → List Entry
entries_of (put_req r) = r.entries
entries_of (flush_req n) = []
entries_of ckpt_req = []
entries_of (gc_req es) = []

abbrev pub queued : List Work → List Entry
queued [] = []
queued (w ∷ ws) = entries_of w ++ queued ws

abbrev pub batch_entries : Option Request → List Entry
batch_entries none = []
batch_entries (some r) = r.entries

abbrev pub sent_entries : List Sent → List Entry
sent_entries [] = []
sent_entries (o ∷ os) = batch_entries o.batch ++ sent_entries os

-- The ranges of the objects in front of the first that is not stored.
abbrev pub durable : List Sent → List Entry
durable [] = []
durable (o ∷ os) = if o.stored then batch_entries o.batch ++ durable os else []

abbrev pub in_flight : List Sent → ℕ
in_flight [] = 0
in_flight (o ∷ os) = (if o.stored then 0 else 1) + in_flight os

-- Each flush on the queue stands behind the writes made before its call, if `k` were sent.
abbrev pub Marks : ℕ → List Work → Type 0
Marks k [] = Unit
Marks k (put_req r ∷ ws) = Marks (k + length r.entries) ws
Marks k (flush_req n ∷ ws) = (n ≤ k) × Marks k ws
Marks k (ckpt_req ∷ ws) = Marks k ws
Marks k (gc_req es ∷ ws) = Marks k ws

abbrev pub Waits : ℕ → Option ℕ → Type 0
Waits k none = Unit
Waits k (some n) = n ≤ k

abbrev pub AllWithin : ℕ → List ℕ → Type 0
AllWithin k [] = Unit
AllWithin k (n ∷ ns) = (n ≤ k) × AllWithin k ns

pub queued-append : (ws vs : List Work) → queued (ws ++ vs) ≡ queued ws ++ queued vs
queued-append [] vs = refl
queued-append (w ∷ ws) vs =
    rw (queued-append ws vs) (sym (append_assoc (entries_of w) (queued ws) (queued vs)))

pub sent_entries-append :
    (os ps : List Sent) → sent_entries (os ++ ps) ≡ sent_entries os ++ sent_entries ps
sent_entries-append [] ps = refl
sent_entries-append (o ∷ os) ps =
    rw (sent_entries-append os ps)
      (sym (append_assoc (batch_entries o.batch) (sent_entries os) (sent_entries ps)))

pub in_flight-append : (os ps : List Sent) → in_flight (os ++ ps) ≡ in_flight os + in_flight ps
in_flight-append [] ps = omega arith
in_flight-append (o ∷ os) ps = omega (arith, in_flight-append os ps)

-- Sending one more object, or storing one, leaves what was durable.
pub durable-append : (os ps : List Sent) → length (durable os) ≤ length (durable (os ++ ps))
durable-append [] ps = omega arith
durable-append (o ∷ os) ps = elim (Bool-cases o.stored) [
  | inl h ↦
      rw
        (
          h,
          length-append (batch_entries o.batch) (durable os),
          length-append (batch_entries o.batch) (durable (os ++ ps)),
        )
        (omega (arith, durable-append os ps))
  | inr h ↦ rw (h) (omega arith)
]

pub durable_complete :
    (before : List Sent) (o : Sent) (after : List Sent)
    → o.stored ≡ false
    → length (durable (before ++ (o ∷ after)))
      ≤ length (durable (before ++ (record o { stored = true } ∷ after)))
durable_complete [] o after h = rw (h) (omega arith)
durable_complete (p ∷ before) o after h = elim (Bool-cases p.stored) [
  | inl k ↦
      rw
        (
          k,
          length-append (batch_entries p.batch) (durable (before ++ (o ∷ after))),
          length-append (batch_entries p.batch)
              (durable (before ++ (record o { stored = true } ∷ after))),
        )
        (omega (arith, durable_complete before o after h))
  | inr k ↦ rw (k) (omega arith)
]

-- With nothing in flight, all is durable.
pub durable_all : (os : List Sent) → in_flight os ≡ 0 → durable os ≡ sent_entries os
durable_all [] h = refl
durable_all (o ∷ os) h = elim (Bool-cases o.stored) [
  | inl k ↦ rw (k, durable_all os (ground arith)) refl
  | inr k ↦ absurd (ground arith)
]

pub Marks-append :
    (k : ℕ) (ws : List Work) (w : Work)
    → Marks k ws
    → Marks (k + length (queued ws)) (w ∷ [])
    → Marks k (ws ++ (w ∷ []))
Marks-append k [] w m n = rw (sym (zero_more k)) n
  where
    zero_more : (j : ℕ) → j + 0 ≡ j
    zero_more j = omega arith
Marks-append k (put_req r ∷ ws) w m n =
    let sum : k + length (r.entries ++ queued ws) ≡ k + length r.entries + length (queued ws) =
      omega (arith, length-append r.entries (queued ws)) in
    Marks-append (k + length r.entries) ws w m (rw (sum) at n)
Marks-append k (flush_req j ∷ ws) w m n = (m.0, Marks-append k ws w m.1 n)
Marks-append k (ckpt_req ∷ ws) w m n = Marks-append k ws w m n
Marks-append k (gc_req es ∷ ws) w m n = Marks-append k ws w m n

pub AllWithin-le : (j k : ℕ) (ns : List ℕ) → j ≤ k → AllWithin j ns → AllWithin k ns
AllWithin-le j k [] h a = tt
AllWithin-le j k (n ∷ ns) h a = (omega (arith, a.0), AllWithin-le j k ns h a.1)

-- Every range written is in a sent object, on the queue or in the current batch, in the order of the
-- writes.
pub record InOrder (s : Pipeline) : Type 0 where
  pub order : s.written ≡ sent_entries s.sent ++ (queued s.queue ++ s.writer.current.entries)
  pub taken : s.writer.workers ≡ []
  pub nothing : s.writer.current.len ≡ 0 → s.writer.current.entries ≡ []
  pub marks : Marks (length (sent_entries s.sent)) s.queue
  pub waits : Waits (length (sent_entries s.sent)) s.waiting
  pub flushed : AllWithin (length (durable s.sent)) s.flushed
  pub sleeps : s.asleep ≡ true → 0 < s.layer.outstanding_writes
  pub counted : s.layer.outstanding_writes ≡ in_flight s.sent
