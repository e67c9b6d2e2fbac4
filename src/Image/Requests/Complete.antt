-- ===== src/Image/Requests/Complete.antt =====
-- src/image.cc, `read_request` and `write_request`: the callback is called once, when the last
-- sub-request has notified, whatever the order.
use lsvd_rbd.Base.{
  ℕ, zero, suc, ◌+◌, ◌-◌, ◌/◌, ◌^◌, ◌≤◌, ◌<◌, ◌≡◌, add_zero, sub_zero, refl, sym, ap, leb-true,
  suc_sub_one, ◌∙◌, not_zero, some, List, [], ◌∷◌, ◌++◌, length, arith,
}
use mathlib.Core.Option.{some-injective}
use lsvd_rbd.Base.Int.{pos, lower}
use lsvd_rbd.Translate.{div_round_up}
use lsvd_rbd.Iov.{Iovec, bytes}
use lsvd_rbd.Image.Requests.{
  AioEvent, reserved, released, called, AioRequest, above_one, complete_request, give_back,
  write_notify, read_notify, Progress, write_run, read_run, Step, launch, finish, Steps, stop, more,
  split_write, SubWrite,
}
use lsvd_rbd.Image.Requests.Split.{split_write-Covers, round_step}

-- The events of a request with a number of sub-requests that have not notified.
abbrev pub events_at : List AioEvent → List AioEvent → ℕ → List AioEvent
events_at first last zero = first ++ last
events_at first last (suc n) = first

-- The count is right and the request has ended exactly if nothing is left.
record Counted (first last : List AioEvent) (left : ℕ) (r : AioRequest) : Type 0 where
  count : 0 < left → r.n_req ≡ pos left
  done : r.events ≡ events_at first last left

-- `notify` takes one off the count, and the last call ends the request.
record Ends (notify : AioRequest → AioRequest) (first last : List AioEvent) : Type 0 where
  early :
      (n : ℕ) (r : AioRequest)
      → r.n_req ≡ pos (suc (suc n))
      → notify r ≡ record { n_req = pos (suc n); events = r.events }
  late : (r : AioRequest) → r.n_req ≡ pos 1 → r.events ≡ first → (notify r).events ≡ first ++ last

lower-pos : (n : ℕ) → lower (pos (suc n)) 1 ≡ pos n
lower-pos n = rw (leb-true 1 (suc n) (omega arith), suc_sub_one n) refl

launched : (n m : ℕ) → suc n + m ≡ n + suc m
launched n m = omega arith

finished : (n m : ℕ) → n + suc m ≡ suc (n + m)
finished n m = omega arith

module _ (notify : AioRequest → AioRequest) (first last : List AioEvent)
    (ends : Ends notify first last) where
  finish-Counted :
      (left : ℕ) (r : AioRequest)
      → Counted first last (suc left) r
      → Counted first last left (notify r)
  finish-Counted zero r c = record {
    count = λ h. absurd (omega arith);
    done = ends.late r (c.count (omega arith)) c.done;
  }
  finish-Counted (suc n) r c =
      rw (ends.early n r (c.count (omega arith))) (record { count = λ h. refl; done = c.done })

  Step-Counted :
      (s t : Progress)
      → Step notify s t
      → Counted first last (s.to_run + s.running) s.req
      → Counted first last (t.to_run + t.running) t.req
  Step-Counted s t (launch n m r) c = rw (launched n m) at c
  Step-Counted s t (finish n m r) c = finish-Counted (n + m) r (rw (finished n m) at c)

  Steps-Counted :
      (s t : Progress)
      → Steps notify s t
      → Counted first last (s.to_run + s.running) s.req
      → Counted first last (t.to_run + t.running) t.req
  Steps-Counted s t (stop _) c = c
  Steps-Counted s t (more _ u _ one rest) c = Steps-Counted u t rest (Step-Counted s u one c)

  -- Whatever has happened, the sub-requests can be run and notify until none is left.
  finishes :
      (n m : ℕ) (r : AioRequest)
      → (u : Progress) × (Steps notify (record { to_run = n; running = m; req = r }) u
          × (u.to_run + u.running ≡ 0))
  finishes zero zero r = (
    record { to_run = 0; running = 0; req = r },
    (stop (record { to_run = 0; running = 0; req = r }), refl),
  )
  finishes zero (suc m) r =
      let t : Progress = record { to_run = 0; running = m; req = notify r } in
      let (u, (steps, zeroth)) = finishes zero m (notify r) in
      (u, (more (record { to_run = 0; running = suc m; req = r }) t u (finish 0 m r) steps, zeroth))
  finishes (suc n) m r =
      let t : Progress = record { to_run = n; running = suc m; req = r } in
      let (u, (steps, zeroth)) = finishes n (suc m) r in
      (u, (more (record { to_run = suc n; running = m; req = r }) t u (launch n m r) steps, zeroth))

-- The events as they depend on how many sub-requests are left, and a way for the request to end.
abbrev pub Completes : (AioRequest → AioRequest) → List AioEvent → List AioEvent → Progress → Type 0
Completes notify first last t =
    (t.req.events ≡ events_at first last (t.to_run + t.running))
    × ((u : Progress) × (Steps notify t u × (u.req.events ≡ first ++ last)))

module _ (notify : AioRequest → AioRequest) (first last : List AioEvent)
    (ends : Ends notify first last) where
  Counted-Completes :
      (t : Progress)
      → Counted first last (t.to_run + t.running) t.req
      → Completes notify first last t
  Counted-Completes t c =
      let (u, (steps, zeroth)) = finishes notify first last ends t.to_run t.running t.req in
      let d : Counted first last (u.to_run + u.running) u.req =
        Steps-Counted notify first last ends t u steps c in
      (c.done, (u, (steps, rw (zeroth) at d.done)))

write-Ends :
    (req_bytes n : ℕ)
    → Ends (write_notify req_bytes) (reserved n ∷ []) (released (req_bytes / 512) ∷ called 0 ∷ [])
unfolding write_notify complete_request give_back above_one
write-Ends req_bytes n = record {
  early = λ k r h. rw (h, lower-pos (suc k)) refl;
  late = λ r h e. rw (h, e) refl;
}

read-Ends : (req_bytes : ℕ) → Ends (read_notify req_bytes) [] (called req_bytes ∷ [])
unfolding read_notify complete_request above_one
read-Ends req_bytes = record {
  early = λ k r h. rw (h, lower-pos (suc k)) refl;
  late = λ r h e. rw (h, e) refl;
}

events_positive : (first last : List AioEvent) (n : ℕ) → 0 < n → events_at first last n ≡ first
events_positive first last zero h = absurd (omega arith)
events_positive first last (suc n) h = refl

started_with :
    (offset max : ℕ) (v : List Iovec) (ws : List SubWrite)
    → split_write offset v max ≡ some ws
    → write_run offset v max
      ≡ some (record {
        to_run = length ws;
        running = 0;
        req = record {
          n_req = pos (div_round_up (bytes v / 512) max);
          events = reserved (bytes v / 512) ∷ [];
        };
      })
unfolding write_run
started_with offset max v ws split = rw split refl

-- A write of a sector or more: as long as a sub-request is left, room of the write log is reserved and
-- nothing else has happened; when the last has notified, the same room is released and the callback is
-- called with 0, once; and from every state the request can come to that end.
pub write_run-Completes :
    (offset max : ℕ) (v : List Iovec)
    → 0 < max
    → bytes v < 2 ^ 64
    → 512 ≤ bytes v
    → (s t : Progress) → write_run offset v max ≡ some s
    → Steps (write_notify (bytes v)) s t
    → Completes
        (write_notify (bytes v))
        (reserved (bytes v / 512) ∷ [])
        (released (bytes v / 512) ∷ called 0 ∷ [])
        t
write_run-Completes offset max v some_max word some_bytes s t runs steps =
    let (ws, (split, covers)) = split_write-Covers offset max v some_max word in
    let r : AioRequest = record {
      n_req = pos (div_round_up (bytes v / 512) max);
      events = reserved (bytes v / 512) ∷ [];
    } in
    let s₀ : Progress = record { to_run = length ws; running = 0; req = r } in
    let started : write_run offset v max ≡ some s₀ = started_with offset max v ws split in
    let same : s₀ ≡ s = some-injective s₀ s (sym started ∙ runs) in
    let first : List AioEvent = reserved (bytes v / 512) ∷ [] in
    let last : List AioEvent = released (bytes v / 512) ∷ called 0 ∷ [] in
    let number : length ws ≡ div_round_up (bytes v / 512) max =
      covers.number ∙ ap (λ k. div_round_up k max) (sub_zero (bytes v / 512)) in
    let one_more : div_round_up (bytes v / 512) max ≡ suc (div_round_up (bytes v / 512 - max) max) =
      round_step (bytes v / 512) max (omega arith) some_max in
    let ends : Ends (write_notify (bytes v)) first last = write-Ends (bytes v) (bytes v / 512) in
    let c : Counted first last (length ws + 0) r = record {
      count = λ h. ap pos (sym number ∙ sym (add_zero (length ws)));
      done = sym (events_positive first last (length ws + 0) (omega (arith, number, one_more)));
    } in
    Counted-Completes (write_notify (bytes v)) first last ends t
      (Steps-Counted (write_notify (bytes v)) first last ends s₀ t (rw (sym same) at steps) c)

read_run-Counted :
    (req_bytes n : ℕ)
    → Counted []
        (called req_bytes ∷ [])
        ((read_run req_bytes n).to_run + (read_run req_bytes n).running)
        (read_run req_bytes n).req
unfolding read_run read_notify above_one complete_request
read_run-Counted req_bytes zero = record { count = λ h. absurd (omega arith); done = refl }
read_run-Counted req_bytes (suc n) =
    rw (not_zero (suc n) (omega arith), add_zero (suc n))
      (record { count = λ h. refl; done = refl })

-- A read, of any number of sub-requests: the callback is called with the number of bytes once, when
-- none is left, at once if there are none; and from every state the request can come to that end.
pub read_run-Completes :
    (req_bytes n : ℕ) (t : Progress)
    → Steps (read_notify req_bytes) (read_run req_bytes n) t
    → Completes (read_notify req_bytes) [] (called req_bytes ∷ []) t
read_run-Completes req_bytes n t steps =
    Counted-Completes (read_notify req_bytes) [] (called req_bytes ∷ []) (read-Ends req_bytes) t (
      Steps-Counted (read_notify req_bytes) [] (called req_bytes ∷ []) (read-Ends req_bytes)
        (read_run req_bytes n) t steps (read_run-Counted req_bytes n))
