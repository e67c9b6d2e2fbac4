-- ===== src/WriteLog/Tests.antt =====
-- src/write_cache.cc: a small write log.
use lsvd_rbd.Base.{ℕ, ◌<◌, ◌≡◌, true, some, List, [], ◌∷◌, arith}
use lsvd_rbd.WriteLog.{DeviceWrite, WriteSuper, WriteLog, open_log}
use lsvd_rbd.WriteLog.Ring.{InRing, Allocated, allocate-Allocated}
use lsvd_rbd.WriteLog.Chain.{AllWritten, write_all-AllWritten}
use lsvd_rbd.WriteLog.Window.{begin_writes, pages_of, begin_writes_overruns}

abbrev small : WriteSuper
small = record { clean = true; seq = 5; meta_base = 1; meta_limit = 5; base = 5; limit = 15 }

-- Two pages are left before the ring begins again.
abbrev late : WriteLog
late = record {
  super = small;
  sequence = 9;
  previous_hdr = 11;
  next_alloc = 13;
  total_write_pages = 0;
  max_write_pages = 7;
  outstanding_writes = 0;
}

late-InRing : InRing late
late-InRing = omega arith

allocate-Allocated_example : Allocated 3 late
allocate-Allocated_example = allocate-Allocated 3 late late-InRing (omega arith) (omega arith)

write_all-AllWritten_example : AllWritten ((8, 8192) ∷ (64, 4096) ∷ []) late
write_all-AllWritten_example =
    write_all-AllWritten ((8, 8192) ∷ (64, 4096) ∷ []) late late-InRing (omega arith)

begin_writes_overruns_example :
    (n : ℕ) × (records : List DeviceWrite) × (after : WriteLog) × (begin_writes 64 n
        (open_log small)
      ≡ some (records, after))
    × (10 < pages_of records)
begin_writes_overruns_example = begin_writes_overruns 64 small (omega arith) (omega arith)
