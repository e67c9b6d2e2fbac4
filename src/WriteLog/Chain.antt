-- ===== src/WriteLog/Chain.antt =====
-- src/write_cache.cc, `writev` and the constructor of `wcache_write_req`: the journal that the writes
-- make up.
use lsvd_rbd.Base.{
  ◌>>=◌, ℕ, ◌+◌, ◌-◌, ◌/◌, ◌≤◌, ◌≡◌, refl, inl, inr, lt_or_le, Option, some, List, [], ◌∷◌, ◌++◌,
  subst, ◌∙◌, arith,
}
use lsvd_rbd.Translate.{div_round_up}
use lsvd_rbd.WriteLog.{
  WriteSuper, WriteLog, DeviceWrite, JournalHdr, journal_pad, journal_data, wrap, allocate,
  make_request, writev,
}
use lsvd_rbd.WriteLog.Ring.{InRing}

-- Records that follow one another: each names the header page of the one before, takes the next
-- sequence number, begins on the page where the one before ended (at the base if that was the end of
-- the ring), counts its own pages and lies in the ring. From the header page `prev`, the number `seq`
-- and the page `next` they lead to the last three.
abbrev pub Journal : WriteSuper → ℕ → ℕ → ℕ → List DeviceWrite → ℕ → ℕ → ℕ → Type 0
Journal s prev seq next [] prev' seq' next' = (prev ≡ prev') × (seq ≡ seq') × (next ≡ next')
Journal s prev seq next (d ∷ ds) prev' seq' next' =
    (d.hdr.prev ≡ prev)
    × (d.hdr.seq ≡ seq)
    × (d.page ≡ next)
    × (d.hdr.len ≡ d.body_pages + 1)
    × (s.base ≤ d.page)
    × (d.page + d.hdr.len ≤ s.limit)
    × Journal s d.page (seq + 1) (wrap s (d.page + d.hdr.len)) ds prev' seq' next'

Journal-append :
    (s : WriteSuper) (p q n : ℕ) (ds : List DeviceWrite) (p' q' n' : ℕ) (es : List DeviceWrite)
    (p″ q″ n″ : ℕ)
    → Journal s p q n ds p' q' n'
    → Journal s p' q' n' es p″ q″ n″
    → Journal s p q n (ds ++ es) p″ q″ n″
Journal-append s p q n [] p' q' n' es p″ q″ n″ j k = rw (j.0, j.1, j.2) k
Journal-append s p q n (d ∷ ds) p' q' n' es p″ q″ n″ (a, b, c, e, f, g, j) k = (
  a,
  b,
  c,
  e,
  f,
  g,
  Journal-append s d.page (q + 1) (wrap s (d.page + d.hdr.len)) ds p' q' n' es p″ q″ n″ j k,
)

-- What a write of `bytes` at the sector `lba` adds to the log.
pub record Written (lba bytes : ℕ) (w : WriteLog) : Type 0 where
  pub writes : List DeviceWrite
  pub seq : ℕ
  pub after : WriteLog
  pub runs : writev lba bytes w ≡ some (writes, seq, after)
  pub journal :
      Journal w.super w.previous_hdr w.sequence w.next_alloc writes after.previous_hdr
        after.sequence after.next_alloc
  pub latest : seq + 1 ≡ after.sequence
  pub same : after.super ≡ w.super
  pub ready : InRing after

module _ (lba bytes : ℕ) (w : WriteLog) (v : InRing w)
    (fits : div_round_up bytes 4096 + 1 ≤ w.super.limit - w.super.base) where
  -- A write that fits in the ring runs, and adds to the journal its data record, after a pad record
  -- for the rest of the ring if the data would not fit there. The number that goes to the translation
  -- layer is that of the data record.
  pub writev-Written : Written lba bytes w
  unfolding writev make_request allocate
  writev-Written =
      let pages = div_round_up bytes 4096 in
      let extents : List (ℕ × ℕ) = (lba, bytes / 512) ∷ [] in
      let next = w.next_alloc in
      let base = w.super.base in
      let room = w.super.limit - next in
      let n_pad = room - 1 in
      elim (lt_or_le room (pages + 1)) [
        | inl short ↦
            let pad_hdr : JournalHdr = record {
              kind = journal_pad;
              len = n_pad + 1;
              seq = w.sequence;
              prev = w.previous_hdr;
              extents = [];
            } in
            let hdr : JournalHdr = record {
              kind = journal_data;
              len = 1 + pages;
              seq = w.sequence + 1;
              prev = next;
              extents = extents;
            } in
            record {
              writes =
                  record { page = next; hdr = pad_hdr; body_pages = n_pad }
                  ∷ record { page = base; hdr = hdr; body_pages = pages }
                  ∷ [];
              seq = w.sequence + 1 + 1 - 1;
              after = record w {
                sequence = w.sequence + 1 + 1;
                previous_hdr = base;
                next_alloc = wrap w.super (base + (pages + 1));
                outstanding_writes = w.outstanding_writes + 1;
              };
              runs = ground arith;
              journal = ground arith;
              latest = omega arith;
              same = refl;
              ready = ground arith;
            }
        | inr long ↦
            let hdr : JournalHdr = record {
              kind = journal_data;
              len = 1 + pages;
              seq = w.sequence;
              prev = w.previous_hdr;
              extents = extents;
            } in
            record {
              writes = record { page = next; hdr = hdr; body_pages = pages } ∷ [];
              seq = w.sequence + 1 - 1;
              after = record w {
                sequence = w.sequence + 1;
                previous_hdr = next;
                next_alloc = wrap w.super (next + (pages + 1));
                outstanding_writes = w.outstanding_writes + 1;
              };
              runs = ground arith;
              journal = ground arith;
              latest = omega arith;
              same = refl;
              ready = ground arith;
            }
      ]

-- A run of writes, each a sector and a number of bytes; the device writes of all of them in order.
unfoldable pub write_all : List (ℕ × ℕ) → WriteLog → Option (List DeviceWrite × WriteLog)
write_all [] w = some ([], w)
write_all ((lba, bytes) ∷ rs) w =
    writev lba bytes w >>= λ r. write_all rs r.2 >>= λ q. some (r.0 ++ q.0, q.1)

abbrev pub AllFit : WriteSuper → List (ℕ × ℕ) → Type 0
AllFit s [] = Unit {0}
AllFit s ((lba, bytes) ∷ rs) = (div_round_up bytes 4096 + 1 ≤ s.limit - s.base) × AllFit s rs

pub record AllWritten (rs : List (ℕ × ℕ)) (w : WriteLog) : Type 0 where
  pub writes : List DeviceWrite
  pub after : WriteLog
  pub runs : write_all rs w ≡ some (writes, after)
  pub journal :
      Journal w.super w.previous_hdr w.sequence w.next_alloc writes after.previous_hdr
        after.sequence after.next_alloc
  pub same : after.super ≡ w.super
  pub ready : InRing after

-- Any run of writes that each fit in the ring, from a log in its ring, is accepted and makes up one
-- journal: the records are linked and
-- numbered without a gap and cover the pages of the ring one after the other.
pub write_all-AllWritten :
    (rs : List (ℕ × ℕ)) (w : WriteLog) → InRing w → AllFit w.super rs → AllWritten rs w
unfolding write_all
write_all-AllWritten [] w v fit = record {
  writes = [];
  after = w;
  runs = refl;
  journal = (refl, refl, refl);
  same = refl;
  ready = v;
}
write_all-AllWritten ((lba, bytes) ∷ rs) w v fit =
    let one = writev-Written lba bytes w v fit.0 in
    let more = write_all-AllWritten rs one.after one.ready (rw one.same fit.1) in
    record {
      writes = one.writes ++ more.writes;
      after = more.after;
      runs = rw (write_all, one.runs, more.runs);
      journal =
          Journal-append w.super w.previous_hdr w.sequence w.next_alloc one.writes
            one.after.previous_hdr one.after.sequence one.after.next_alloc more.writes
            more.after.previous_hdr more.after.sequence more.after.next_alloc one.journal
            (subst
              (λ s.
                Journal s one.after.previous_hdr one.after.sequence one.after.next_alloc more.writes
                  more.after.previous_hdr more.after.sequence more.after.next_alloc)
              one.same more.journal);
      same = more.same ∙ one.same;
      ready = more.ready;
    }
