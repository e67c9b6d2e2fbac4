-- ===== src/Image/Requests.antt =====
-- src/image.cc: the requests of an image, which count their sub-requests. What a sub-request does is
-- left out: each is run once and notifies once, in any order and also while others are still being run.
pub mod Split
pub mod Complete
mod Tests
use lsvd_rbd.Base.{
  ℕ, zero, suc, ◌+◌, ◌-◌, ◌*◌, ◌/◌, ◌≤◌, ◌<◌, ◌≡◌, min, Bool, true, false, ltb, ◌==◌, if◌then◌else◌,
  Option, none, some, List, [], ◌∷◌, ◌++◌, length, ◌>>=◌,
}
use lsvd_rbd.Base.Int.{ℤ, pos, negsuc, lower}
use lsvd_rbd.Translate.{div_round_up}
use lsvd_rbd.Iov.{Iovec, bytes, slice, nonempty}

-- A call of `write_cache::writev`: where it writes, and the part of the buffer.
pub record SubWrite : Type 0 where
  pub lba : ℕ
  pub iovs : List Iovec

-- The loop of `write_request::run`, from sector `s_offset` of the request on.
pub write_loop : ℕ → ℕ → ℕ → List Iovec → ℕ → ℕ → Option (List SubWrite)
unfolding slice nonempty
write_loop zero size max v s_offset cur_offset = some []
write_loop (suc fuel) size max v s_offset cur_offset =
    let sectors = min (size - s_offset) max in
    let requests = (do
      tmp ← slice v (s_offset * 512) (s_offset * 512 + sectors * 512)
      rest ← write_loop fuel size max v (s_offset + max) (cur_offset + sectors * 512)
      some (record { lba = cur_offset / 512; iovs = nonempty tmp } ∷ rest)) in
    if ltb s_offset size then requests else some []

-- The sub-requests of a write. A round takes at least a sector, so the number of sectors is enough fuel.
unfoldable pub split_write : ℕ → List Iovec → ℕ → Option (List SubWrite)
unfolding write_loop bytes
split_write offset v max = write_loop (bytes v / 512) (bytes v / 512) max v 0 offset

-- What a request does that others see: room of the write log, and the call of the callback.
pub data AioEvent : Type 0 where
  reserved : ℕ → AioEvent
  released : ℕ → AioEvent
  called : ℕ → AioEvent

-- `n_req` of a write or `num_subreqs` of a read, and the events so far.
pub record AioRequest : Type 0 where
  pub n_req : ℤ
  pub events : List AioEvent

-- `old > 1`
unfoldable pub above_one : ℤ → Bool
above_one (pos zero) = false
above_one (pos (suc zero)) = false
above_one (pos (suc (suc n))) = true
above_one (negsuc n) = false

unfoldable pub complete_request : ℕ → AioRequest → AioRequest
complete_request val r = record r { events = r.events ++ (called val ∷ []) }

unfoldable pub give_back : ℕ → AioRequest → AioRequest
give_back sectors r = record r { events = r.events ++ (released sectors ∷ []) }

-- `write_request::notify` and `read_request::notify`.
unfoldable pub write_notify : ℕ → AioRequest → AioRequest
unfolding above_one complete_request give_back
write_notify req_bytes r =
    let r₁ = record r { n_req = lower r.n_req 1 } in
    if above_one r.n_req then r₁ else complete_request 0 (give_back (req_bytes / 512) r₁)

unfoldable pub read_notify : ℕ → AioRequest → AioRequest
unfolding above_one complete_request
read_notify req_bytes r =
    let r₁ = record r { n_req = lower r.n_req 1 } in
    if above_one r.n_req then r₁ else complete_request req_bytes r₁

-- A request with the sub-requests that the loop at the end of `run` has still to run, and those that
-- run.
pub record Progress : Type 0 where
  pub to_run : ℕ
  pub running : ℕ
  pub req : AioRequest

-- `write_request::run` up to that loop.
unfoldable pub write_run : ℕ → List Iovec → ℕ → Option Progress
unfolding split_write bytes
write_run offset v max = do
  requests ← split_write offset v max
  some (record {
    to_run = length requests;
    running = 0;
    req = record {
      n_req = pos (div_round_up (bytes v / 512) max);
      events = reserved (bytes v / 512) ∷ [];
    };
  })

-- `read_request::run` up to that loop, for the number of requests that `handle_reads` gives.
unfoldable pub read_run : ℕ → ℕ → Progress
unfolding read_notify
read_run req_bytes n =
    let r : AioRequest = record { n_req = pos n; events = [] } in
    record { to_run = n; running = 0; req = if n == 0 then read_notify req_bytes r else r }

-- The next sub-request is run, or one of those that run notifies the request.
pub data Step (notify : AioRequest → AioRequest) : Progress → Progress → Type 0 where
  launch :
      (n m : ℕ) (r : AioRequest)
      → Step notify
          (record { to_run = suc n; running = m; req = r })
          (record { to_run = n; running = suc m; req = r })
  finish :
      (n m : ℕ) (r : AioRequest)
      → Step notify
          (record { to_run = n; running = suc m; req = r })
          (record { to_run = n; running = m; req = notify r })

pub data Steps (notify : AioRequest → AioRequest) : Progress → Progress → Type 0 where
  stop : (s : Progress) → Steps notify s s
  more : (s t u : Progress) → Step notify s t → Steps notify t u → Steps notify s u
