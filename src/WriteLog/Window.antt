-- ===== src/WriteLog/Window.antt =====
-- src/write_cache.cc, `reserve_room` and `writev`: the window of pages in flight, and the pages that the
-- records in flight take.
use lsvd_rbd.Base.{
  ◌>>=◌, ℕ, zero, suc, ◌+◌, ◌-◌, ◌*◌, ◌/◌, ◌≤◌, ◌<◌, ◌≡◌, refl, Option, some, List, [], ◌∷◌, ◌++◌,
  arith,
}
use lsvd_rbd.WriteLog.{
  WriteLog, WriteSuper, DeviceWrite, reserve_room, writev, allocate, make_request, open_log,
}
use lsvd_rbd.WriteLog.Ring.{InRing}
use lsvd_rbd.WriteLog.Chain.{Written, writev-Written}

-- Some writes of one page each, as `write_request::run` begins them: each reserves room and is written
-- to the log. None has finished, so none has given room back.
unfoldable pub begin_writes : ℕ → ℕ → WriteLog → Option (List DeviceWrite × WriteLog)
begin_writes lba zero w = some ([], w)
begin_writes lba (suc n) w = reserve_room 8 w >>= λ w₁.
    writev lba 4096 w₁ >>= λ r. begin_writes lba n r.2 >>= λ q. some (r.0 ++ q.0, q.1)

-- The pages that some records take in the ring.
abbrev pub pages_of : List DeviceWrite → ℕ
pages_of [] = 0
pages_of (d ∷ ds) = d.hdr.len + pages_of ds

pages_of-append : (ds es : List DeviceWrite) → pages_of (ds ++ es) ≡ pages_of ds + pages_of es
pages_of-append [] es = omega arith
pages_of-append (d ∷ ds) es = omega (arith, pages_of-append ds es)

writev_lem :
    (lba seq : ℕ) (w after : WriteLog) (ds : List DeviceWrite)
    → writev lba 4096 w ≡ some (ds, seq, after)
    → (2 ≤ pages_of ds)
      × (after.total_write_pages ≡ w.total_write_pages)
      × (after.max_write_pages ≡ w.max_write_pages)
unfolding writev allocate make_request
writev_lem lba seq w after ds h = ground arith

-- What some writes of one page each make of a log whose window has room for them.
record Begun (lba n : ℕ) (w : WriteLog) : Type 0 where
  records : List DeviceWrite
  after : WriteLog
  runs : begin_writes lba n w ≡ some (records, after)
  pages : n * 2 ≤ pages_of records
  counted : after.total_write_pages ≡ w.total_write_pages + n

reserve_room_lem :
    (w : WriteLog)
    → w.total_write_pages + 1 ≤ w.max_write_pages
    → reserve_room 8 w ≡ some (record w { total_write_pages = w.total_write_pages + 1 })
unfolding reserve_room
reserve_room_lem w h = ground arith

begin_writes-Begun :
    (lba n : ℕ) (w : WriteLog)
    → InRing w
    → 2 ≤ w.super.limit - w.super.base
    → w.total_write_pages + n ≤ w.max_write_pages
    → Begun lba n w
unfolding begin_writes
begin_writes-Begun lba zero w v two h = record {
  records = [];
  after = w;
  runs = refl;
  pages = omega arith;
  counted = omega arith;
}
begin_writes-Begun lba (suc n) w v two h =
    let w₁ : WriteLog = record w { total_write_pages = w.total_write_pages + 1 } in
    let v₁ : InRing w₁ = record { headers = v.headers; above = v.above; below = v.below } in
    let t : Written lba 4096 w₁ = writev-Written lba 4096 w₁ v₁ two in
    let (pages, total, most) = writev_lem lba t.seq w₁ t.after t.writes t.runs in
    let rest : Begun lba n t.after =
      begin_writes-Begun lba n t.after t.ready (rw (t.same) two) (omega (arith, total, most)) in
    record {
      records = t.writes ++ rest.records;
      after = rest.after;
      runs = rw (reserve_room_lem w (omega arith), t.runs, rest.runs) refl;
      pages = omega (arith, pages, rest.pages, pages_of-append t.writes rest.records);
      counted = omega (arith, total, rest.counted);
    }

-- On a freshly opened ring of four pages or
-- more, behind the superblock, some writes of one page each are all let in and written to the log
-- without waiting, while none has finished, and their records together take more pages than the
-- ring has.
pub begin_writes_overruns :
    (lba : ℕ) (s : WriteSuper)
    → 1 < s.base
    → 4 ≤ s.limit - s.base
    → (n : ℕ) × (records : List DeviceWrite) × (after : WriteLog) × (begin_writes lba n (open_log s)
        ≡ some (records, after))
      × (s.limit - s.base < pages_of records)
unfolding open_log
begin_writes_overruns lba s headers h =
    let n_pages = s.limit - s.base in
    let n = n_pages / 2 + n_pages / 4 in
    let ready : InRing (open_log s) = record {
      headers = headers;
      above = omega arith;
      below = omega arith;
    } in
    let b : Begun lba n (open_log s) =
      begin_writes-Begun lba n (open_log s) ready (omega arith) (omega arith) in
    (n, b.records, b.after, b.runs, omega (arith, b.pages))
