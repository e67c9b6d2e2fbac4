-- ===== src/Image/Requests/Tests.antt =====
-- Runs of the requests of src/image.cc, and the theorems at concrete ones.
use lsvd_rbd.Base.{ℕ, ◌/◌, ◌≡◌, refl, some, List, [], ◌∷◌, arith}
use lsvd_rbd.Base.Int.{pos}
use lsvd_rbd.Iov.{Iovec, bytes}
use lsvd_rbd.Image.Requests.{
  SubWrite, split_write, reserved, released, called, AioRequest, Progress, write_notify,
  read_notify, write_run, read_run, Steps, more, stop, launch,
}
use lsvd_rbd.Image.Requests.Split.{Covers, split_write-Covers}
use lsvd_rbd.Image.Requests.Complete.{Completes, write_run-Completes, read_run-Completes}

abbrev buffer : List Iovec
buffer = record { base = 1000; len = 1536 } ∷ record { base = 9000; len = 1024 } ∷ []

-- Five sectors in parts of two.
split_write_runs :
    split_write 4096 buffer 2
    ≡ some (
        record { lba = 8; iovs = record { base = 1000; len = 1024 } ∷ [] }
        ∷ record {
          lba = 10;
          iovs = record { base = 2024; len = 512 } ∷ record { base = 9000; len = 512 } ∷ [];
        }
        ∷ record { lba = 12; iovs = record { base = 9512; len = 512 } ∷ [] }
        ∷ [])
unfolding split_write
split_write_runs = refl

abbrev started : Progress
started = record {
  to_run = 3;
  running = 0;
  req = record { n_req = pos 3; events = reserved 5 ∷ [] };
}

started_runs : write_run 4096 buffer 2 ≡ some started
unfolding write_run
started_runs = refl

-- A write without a sector has no sub-request: nothing notifies it, and it never ends.
empty_write_runs :
    write_run 4096 [] 2
    ≡ some (record {
      to_run = 0;
      running = 0;
      req = record { n_req = pos 0; events = reserved 0 ∷ [] };
    })
unfolding write_run
empty_write_runs = refl

-- A read of what nothing maps has ended when it is run.
empty_read_runs : (read_run 4096 0).req.events ≡ called 4096 ∷ []
unfolding read_run
empty_read_runs = refl

abbrev launched : AioRequest → ℕ → ℕ → Progress
launched r n m = record { to_run = n; running = m; req = r }

split_write-Covers_example :
    (ws : List SubWrite) × ((split_write 4096 buffer 2 ≡ some ws)
      × Covers 2 (4096 / 512) 0 (bytes buffer / 512) buffer ws)
unfolding bytes
split_write-Covers_example = split_write-Covers 4096 2 buffer (omega arith) (omega arith)

one_launched : Steps (write_notify (bytes buffer)) started (launched started.req 2 1)
one_launched =
    more started (launched started.req 2 1) (launched started.req 2 1) (launch 2 0 started.req)
      (stop (launched started.req 2 1))

write_run-Completes_example :
    Completes
      (write_notify (bytes buffer))
      (reserved (bytes buffer / 512) ∷ [])
      (released (bytes buffer / 512) ∷ called 0 ∷ [])
      (launched started.req 2 1)
unfolding bytes
write_run-Completes_example =
    write_run-Completes 4096 2 buffer (omega arith) (omega arith) (omega arith) started
      (launched started.req 2 1) started_runs one_launched

read_run-Completes_example : Completes (read_notify 4096) [] (called 4096 ∷ []) (read_run 4096 3)
read_run-Completes_example = read_run-Completes 4096 3 (read_run 4096 3) (stop (read_run 4096 3))
