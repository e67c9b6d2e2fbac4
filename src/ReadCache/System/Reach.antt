-- ===== src/ReadCache/System/Reach.antt =====
-- src/shared_read_cache.cc: every reachable cache is sound, and serves the right bytes.
use mathlib.Core.Option.{some-injective}
use lsvd_rbd.Base.{
  bind-some, assert-runs, ◌>>=◌, ◌>>◌, assert, ℕ, suc, ◌+◌, ◌%◌, leb, ◌<◌, ◌≡◌, ◌==◌, refl, sym,
  subst, ap, ◌∙◌, true, false, some, Option-cases, inl, inr, [], ◌∷◌, ◌++◌, length, length-append,
  arith,
}
use lsvd_rbd.ReadCache.{
  ChunkKey, EntryState, Cache, filling, set_entry, ReadReq, cache_hit, copied, pending_read,
  cache_miss, allocate_chunk, read_entry, start_fetch, find_or_fetch, make_read_req, insert_object,
  chunk_size, insert_key,
}
use lsvd_rbd.ReadCache.Key.{beq_self}
use lsvd_rbd.ReadCache.System.{
  Flight, System, set_flight, with_cache, reply, keep_request, read_step, insert_step, Step, reads,
  inserts, hit_ends, miss_runs, backend_ends, read_notified, fill_begins, store_ends, Reachable,
  start, step,
}
use lsvd_rbd.ReadCache.System.Sound.{
  AllAre-snoc, Chunk, empty_chunk, fetching_chunk, notifying_chunk, storing_chunk, valid_chunk,
  AllServed, AllServed-snoc, IsSound, step_lem, new_system-IsSound,
}
use lsvd_rbd.ReadCache.System.Steps.{
  hit-Chunk, run-Chunk, backend-Chunk, notify-Chunk, fill-Chunk, store-Chunk,
}
use lsvd_rbd.ReadCache.System.Allocate.{GivenOut, allocate_chunk-GivenOut}
use lsvd_rbd.ReadCache.System.Entry.{occupied-IsSound}

-- The system after `make_read_req` returned a request.
abbrev kept : ChunkKey → System → ReadReq × Cache → System
kept k s r = keep_request k r.0 (with_cache r.1 s)

module _ (s : System) (k : ChunkKey) (i : ℕ) (v : IsSound s)
    (here : (s.cache.cache_state i).key ≡ some k) where
  kept-IsSound :
      (a b : ReadReq × Cache)
      → read_entry k i s.cache ≡ some a
      → IsSound (kept k s a)
      → read_entry k i s.cache ≡ some b
      → IsSound (kept k s b)
  kept-IsSound a b p w h = subst (λ x. IsSound (kept k s x)) (some-injective a b (sym p ∙ h)) w

  read_entry-Chunk :
      (r : ReadReq × Cache)
      → Chunk (s.cache.cache_state i) (s.flight i) (s.store i)
      → read_entry k i s.cache ≡ some r
      → IsSound (kept k s r)
  unfolding read_entry keep_request
  read_entry-Chunk r (empty_chunk a e f) h = absurd (ground arith)
  read_entry-Chunk r (fetching_chunk a j ws e f w) h =
      let same : j ≡ k = ground arith in
      let entry : EntryState = s.cache.cache_state i in
      let pinned : EntryState = record entry {
        refcount = entry.refcount + 1;
        accessed = true;
        pending_reads = entry.pending_reads ++ (k ∷ []);
      } in
      let c : Cache = set_entry i pinned s.cache in
      let n = length-append ws (k ∷ []) in
      let refs : suc (length ws) + 1 ≡ suc (length (ws ++ (k ∷ []))) = omega arith in
      kept-IsSound (pending_read i, c) r (ground arith)
        (step_lem s (with_cache c s) i v refl refl (λ q. refl) (λ j q. rw (q) (refl, refl, refl))
          (rw (beq_self i) refl) (rw (beq_self i, e) refl)
          (fetching_chunk true j (ws ++ (k ∷ [])) (rw (beq_self i, e, refs) refl) f
            (AllAre-snoc j k ws w (sym same)))
          v.served)
        h
  read_entry-Chunk r (notifying_chunk a j ws e f w) h =
      let same : j ≡ k = ground arith in
      let entry : EntryState = s.cache.cache_state i in
      let c : Cache = set_entry i (record entry { accessed = true }) s.cache in
      kept-IsSound (copied (some j), c) r (ground arith)
        (step_lem s (reply k (some j) (with_cache c s)) i v refl refl (λ q. refl)
          (λ j q. rw (q) (refl, refl, refl)) (rw (beq_self i) refl) (rw (beq_self i, e) refl)
          (notifying_chunk true j ws (rw (beq_self i, e) refl) f w)
          (AllServed-snoc s.replies k (some j) v.served (ap some same)))
        h
  read_entry-Chunk r (storing_chunk a j e f) h =
      let same : j ≡ k = ground arith in
      let entry : EntryState = s.cache.cache_state i in
      let c : Cache = set_entry i (record entry { accessed = true }) s.cache in
      kept-IsSound (copied (some j), c) r (ground arith)
        (step_lem s (reply k (some j) (with_cache c s)) i v refl refl (λ q. refl)
          (λ j q. rw (q) (refl, refl, refl)) (rw (beq_self i) refl) (rw (beq_self i, e) refl)
          (storing_chunk true j (rw (beq_self i, e) refl) f)
          (AllServed-snoc s.replies k (some j) v.served (ap some same)))
        h
  read_entry-Chunk r (valid_chunk a j hs e f w d) h =
      let same : j ≡ k = ground arith in
      let entry : EntryState = s.cache.cache_state i in
      let pinned : EntryState = record entry { refcount = entry.refcount + 1; accessed = true } in
      let c : Cache = set_entry i pinned s.cache in
      let refs : length hs + 1 ≡ length (k ∷ hs) = omega arith in
      let flight : Flight = record (s.flight i) { hits = k ∷ (s.flight i).hits } in
      kept-IsSound (cache_hit i, c) r (ground arith)
        (step_lem s (set_flight i flight (with_cache c s)) i v refl refl (λ q. refl)
          (λ j q. rw (q) (refl, refl, refl)) (rw (beq_self i) refl) (rw (beq_self i, e) refl)
          (valid_chunk true j (k ∷ hs) (rw (beq_self i, e, refs) refl) (rw (beq_self i, f) refl)
            (sym same, w) d)
          v.served)
        h

module _ (s : System) (k : ChunkKey) (i : ℕ) (c : Cache) (v : IsSound s) (g : GivenOut s i c) where
  start_fetch-IsSound : IsSound (kept k s (cache_miss i, start_fetch k i c))
  unfolding start_fetch keep_request
  start_fetch-IsSound =
      let (a, e) = g.entry in
      let f = g.free in
      let after : System = kept k s (cache_miss i, start_fetch k i c) in
      occupied-IsSound s after i c k v g refl refl (λ q. refl) (λ j q. rw (q) (refl, refl, refl))
        (rw (beq_self i) refl) (rw (beq_self i) refl)
        (fetching_chunk a k [] (rw (beq_self i, e, f.refs, f.reads) refl)
          (rw (beq_self i, f.no_requests) refl) tt)
        v.served

-- A read keeps the cache sound.
read_step-IsSound :
    (fuel : ℕ) (k : ChunkKey) (adjust req_size : ℕ) (s s' : System)
    → IsSound s
    → read_step fuel k adjust req_size s ≡ some s'
    → IsSound s'
unfolding read_step make_read_req find_or_fetch
read_step-IsSound fuel k adjust req_size s s' v h =
    let (r, p, q) =
      bind-some (make_read_req fuel k adjust req_size s.cache) (λ r. some (kept k s r)) s' h in
    let body : find_or_fetch fuel k s.cache ≡ some r =
      assert-runs (leb (adjust + req_size) chunk_size) (find_or_fetch fuel k s.cache) r (
        assert-runs (k.obj_offset % chunk_size == 0)
          (assert (leb (adjust + req_size) chunk_size) >> find_or_fetch fuel k s.cache) r p) in
    subst IsSound (some-injective (kept k s r) s' q) (elim (Option-cases (s.cache.cache_map k)) [
      | inl new ↦
          let miss : (allocate_chunk fuel s.cache >>= λ x.
          some (cache_miss x.0, start_fetch k x.0 x.1))
              ≡ some r =
            ground arith in
          let (x, allocated, y) =
            bind-some (allocate_chunk fuel s.cache)
              (λ x. some (cache_miss x.0, start_fetch k x.0 x.1)) r miss in
          subst (λ z. IsSound (kept k s z))
            (some-injective (cache_miss x.0, start_fetch k x.0 x.1) r y)
            (start_fetch-IsSound s k x.0 x.1 v (allocate_chunk-GivenOut fuel s x.0 x.1 v allocated))
      | inr (i, found) ↦
          let there : read_entry k i s.cache ≡ some r = ground arith in
          read_entry-Chunk s k i v (v.mapped k i found).1 r (v.chunks i) there
    ])

-- So does an insertion, under whatever key.
insert_step-IsSound :
    (fuel : ℕ) (k : ChunkKey) (s s' : System)
    → IsSound s
    → insert_step fuel k s ≡ some s'
    → IsSound s'
unfolding insert_step insert_object
insert_step-IsSound fuel k s s' v h = elim (Option-cases (allocate_chunk fuel s.cache)) [
  | inl e ↦ absurd (ground arith)
  | inr ((i, c), e) ↦
      let g = allocate_chunk-GivenOut fuel s i c v e in
      let (a, p) = g.entry in
      let f = g.free in
      let entry : EntryState = c.cache_state i in
      let entry' : EntryState = record entry {
        refcount = entry.refcount + 1;
        accessed = false;
        status = filling;
        pending_fill_data = some (some k);
        key = some k;
      } in
      let c' : Cache = record (set_entry i entry' c) { cache_map = insert_key k i c.cache_map } in
      let flight : Flight = record (s.flight i) { stores = k ∷ (s.flight i).stores } in
      let after : System = set_flight i flight (with_cache c' s) in
      let runs : insert_step fuel k s ≡ some after = ground arith in
      subst IsSound (some-injective after s' (sym runs ∙ h)) (
        occupied-IsSound s after i c k v g refl refl (λ q. refl) (λ j q. rw (q) (refl, refl, refl))
          (rw (beq_self i) refl) (rw (beq_self i) refl)
          (storing_chunk false k (rw (beq_self i, p, f.refs, f.reads) refl)
            (rw (beq_self i, f.no_requests) refl))
          v.served)
]

Step-IsSound : {s s' : System} → IsSound s → Step s s' → IsSound s'
Step-IsSound {s = s} {s' = s'} v (reads fuel k adjust req_size h) =
    read_step-IsSound fuel k adjust req_size s s' v h
Step-IsSound {s = s} {s' = s'} v (inserts fuel k h) = insert_step-IsSound fuel k s s' v h
Step-IsSound {s = s} v (hit_ends i n h) = hit-Chunk s i v n (v.chunks i) h
Step-IsSound {s = s} v (miss_runs i h) = run-Chunk s i v (v.chunks i) h
Step-IsSound {s = s} v (backend_ends i h) = backend-Chunk s i v (v.chunks i) h
Step-IsSound {s = s} v (read_notified i h) = notify-Chunk s i v (v.chunks i) h
Step-IsSound {s = s} v (fill_begins i h) = fill-Chunk s i v (v.chunks i) h
Step-IsSound {s = s} v (store_ends i h) = store-Chunk s i v (v.chunks i) h

-- In every state that a cache of one chunk or more can reach, whatever the order of reads, insertions
-- and completions, each chunk is in a stage with one reference for each request on it, all of them
-- for the key of the chunk, and what the map finds is a chunk in use under that key (see `IsSound`).
pub Reachable-IsSound : (n : ℕ) (s : System) → 0 < n → Reachable n s → IsSound s
Reachable-IsSound n s h start = new_system-IsSound n h
Reachable-IsSound n s h (step r t) = Step-IsSound (Reachable-IsSound n _ h r) t

-- In every state that a cache of one chunk or more can reach, each finished read was given the bytes
-- of the chunk that it asked for, also if objects are inserted under keys that the cache has.
pub Reachable-AllServed : (n : ℕ) (s : System) → 0 < n → Reachable n s → AllServed s.replies
Reachable-AllServed n s h r = (Reachable-IsSound n s h r).served
