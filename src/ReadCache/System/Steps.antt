-- ===== src/ReadCache/System/Steps.antt =====
-- src/shared_read_cache.cc: the completions keep the cache sound.
use mathlib.Core.Option.{some-injective, none-ne-some}
use lsvd_rbd.Base.{
  ℕ, zero, suc, ◌-◌, ◌≡◌, refl, sym, subst, ap, leb-true, Option-cases, inl, inr, get_elem?, ◌∙◌,
  Option, none, some, List, [], ◌∷◌, length, arith,
}
use lsvd_rbd.ReadCache.{
  ChunkKey, EntryState, Cache, fetching, put, set_entry, on_backend_done, on_store_done,
  dec_chunk_refcount,
}
use lsvd_rbd.ReadCache.Key.{beq_self}
use lsvd_rbd.ReadCache.System.{
  Flight, System, set_flight, with_cache, reply, fill_step, store_step, notify_step, backend_step,
  run_step, hit_step, remove,
}
use lsvd_rbd.ReadCache.System.Sound.{
  AllAre, Chunk, empty_chunk, fetching_chunk, notifying_chunk, storing_chunk, valid_chunk,
  AllServed-snoc, IsSound, step_lem,
}

pub ran-IsSound :
    {s' : System} (o : Option System) (a : System)
    → o ≡ some a
    → IsSound a
    → o ≡ some s'
    → IsSound s'
ran-IsSound {s' = s'} o a r v h = subst IsSound (some-injective a s' (sym r ∙ h)) v

failed-IsSound : {s' : System} (o : Option System) → o ≡ none → o ≡ some s' → IsSound s'
failed-IsSound {s' = s'} o r h = absurd (none-ne-some s' (sym r ∙ h))

pred_suc : (n : ℕ) → suc n - 1 ≡ n
pred_suc n = omega arith

get_elem?-AllAre :
    (k j : ChunkKey) (ks : List ChunkKey) (n : ℕ)
    → AllAre k ks
    → get_elem? ks n ≡ some j
    → (j ≡ k) × (length ks ≡ suc (length (remove n ks))) × AllAre k (remove n ks)
get_elem?-AllAre k j [] n v h = absurd (none-ne-some j h)
get_elem?-AllAre k j (x ∷ xs) zero v h = (sym (some-injective x j h) ∙ v.0, refl, v.1)
get_elem?-AllAre k j (x ∷ xs) (suc n) v h =
    let (p, q, r) = get_elem?-AllAre k j xs n v.1 h in (p, ap suc q, (v.0, r))

module _ (s : System) (i : ℕ) (v : IsSound s) where
  pub fill-Chunk :
      {s' : System}
      → Chunk (s.cache.cache_state i) (s.flight i) (s.store i)
      → fill_step i s ≡ some s'
      → IsSound s'
  unfolding fill_step
  fill-Chunk (empty_chunk a e f) = failed-IsSound (fill_step i s) (ground arith)
  fill-Chunk (fetching_chunk a k ws e f w) = failed-IsSound (fill_step i s) (ground arith)
  fill-Chunk (notifying_chunk a k [] e f w) =
      let flight : Flight = record {
        hits = [];
        misses = [];
        dispatched = [];
        notified = [];
        stores = k ∷ [];
      } in
      let after : System = reply k (some k) (set_flight i flight s) in
      ran-IsSound (fill_step i s) after (ground arith) (
        step_lem s after i v refl refl (λ q. refl) (λ j q. rw (q) (refl, refl, refl)) refl refl
          (storing_chunk a k e (rw (beq_self i) refl))
          (AllServed-snoc s.replies k (some k) v.served refl))
  fill-Chunk (notifying_chunk a k (j ∷ js) e f w) = failed-IsSound (fill_step i s) (ground arith)
  fill-Chunk (storing_chunk a k e f) = failed-IsSound (fill_step i s) (ground arith)
  fill-Chunk (valid_chunk a k hs e f w d) = failed-IsSound (fill_step i s) (ground arith)

  pub store-Chunk :
      {s' : System}
      → Chunk (s.cache.cache_state i) (s.flight i) (s.store i)
      → store_step i s ≡ some s'
      → IsSound s'
  unfolding store_step on_store_done
  store-Chunk (empty_chunk a e f) = failed-IsSound (store_step i s) (ground arith)
  store-Chunk (fetching_chunk a k ws e f w) = failed-IsSound (store_step i s) (ground arith)
  store-Chunk (notifying_chunk a k ws e f w) = failed-IsSound (store_step i s) (ground arith)
  store-Chunk (storing_chunk a k e f) =
      let flight : Flight = record {
        hits = [];
        misses = [];
        dispatched = [];
        notified = [];
        stores = [];
      } in
      let moved : System = set_flight i flight (with_cache (on_store_done i s.cache) s) in
      let after : System = record moved { store = put i (some k) s.store } in
      ran-IsSound (store_step i s) after (ground arith) (
        step_lem s after i v refl refl (λ q. refl) (λ j q. rw (q) (refl, refl, refl))
          (rw (beq_self i) refl) (rw (beq_self i, e) refl)
          (valid_chunk a k [] (rw (beq_self i, e) refl) (rw (beq_self i) refl) tt
            (rw (beq_self i) refl))
          v.served)
  store-Chunk (valid_chunk a k hs e f w d) = failed-IsSound (store_step i s) (ground arith)

  pub run-Chunk :
      {s' : System}
      → Chunk (s.cache.cache_state i) (s.flight i) (s.store i)
      → run_step i s ≡ some s'
      → IsSound s'
  unfolding run_step
  run-Chunk (empty_chunk a e f) = failed-IsSound (run_step i s) (ground arith)
  run-Chunk (fetching_chunk a k ws e f w) =
      let entry : EntryState = record (s.cache.cache_state i) { status = fetching } in
      let after : System = with_cache (set_entry i entry s.cache) s in
      ran-IsSound (run_step i s) after (ground arith) (
        step_lem s after i v refl refl (λ q. refl) (λ j q. rw (q) (refl, refl, refl))
          (rw (beq_self i) refl) (rw (beq_self i, e) refl)
          (fetching_chunk a k ws (rw (beq_self i, e) refl) f w) v.served)
  run-Chunk (notifying_chunk a k ws e f w) = failed-IsSound (run_step i s) (ground arith)
  run-Chunk (storing_chunk a k e f) = failed-IsSound (run_step i s) (ground arith)
  run-Chunk (valid_chunk a k hs e f w d) = failed-IsSound (run_step i s) (ground arith)

  pub backend-Chunk :
      {s' : System}
      → Chunk (s.cache.cache_state i) (s.flight i) (s.store i)
      → backend_step i s ≡ some s'
      → IsSound s'
  unfolding backend_step on_backend_done
  backend-Chunk (empty_chunk a e f) = failed-IsSound (backend_step i s) (ground arith)
  backend-Chunk (fetching_chunk a k ws e f w) =
      let flight : Flight = record {
        hits = [];
        misses = [];
        dispatched = k ∷ [];
        notified = ws;
        stores = [];
      } in
      let after : System = set_flight i flight (with_cache (on_backend_done k i s.cache).1 s) in
      ran-IsSound (backend_step i s) after (ground arith) (
        step_lem s after i v refl refl (λ q. refl) (λ j q. rw (q) (refl, refl, refl))
          (rw (beq_self i) refl) (rw (beq_self i, e) refl)
          (notifying_chunk a k ws (rw (beq_self i, e) refl) (rw (beq_self i) refl) w) v.served)
  backend-Chunk (notifying_chunk a k ws e f w) = failed-IsSound (backend_step i s) (ground arith)
  backend-Chunk (storing_chunk a k e f) = failed-IsSound (backend_step i s) (ground arith)
  backend-Chunk (valid_chunk a k hs e f w d) = failed-IsSound (backend_step i s) (ground arith)

  dec : Cache
  dec =
      let entry : EntryState = s.cache.cache_state i in
      set_entry i (record entry { refcount = entry.refcount - 1 }) s.cache

  dec_lem :
      (n : ℕ) → (s.cache.cache_state i).refcount ≡ suc n → dec_chunk_refcount i s.cache ≡ some dec
  unfolding dec dec_chunk_refcount
  dec_lem n h = rw (leb-true 1 (s.cache.cache_state i).refcount (omega arith)) refl

  pub notify-Chunk :
      {s' : System}
      → Chunk (s.cache.cache_state i) (s.flight i) (s.store i)
      → notify_step i s ≡ some s'
      → IsSound s'
  unfolding notify_step dec
  notify-Chunk (empty_chunk a e f) = failed-IsSound (notify_step i s) (ground arith)
  notify-Chunk (fetching_chunk a k ws e f w) = failed-IsSound (notify_step i s) (ground arith)
  notify-Chunk (notifying_chunk a k [] e f w) = failed-IsSound (notify_step i s) (ground arith)
  notify-Chunk (notifying_chunk a k (j ∷ js) e f w) =
      let flight : Flight = record {
        hits = [];
        misses = [];
        dispatched = k ∷ [];
        notified = js;
        stores = [];
      } in
      let after : System = reply j (some k) (set_flight i flight (with_cache dec s)) in
      let d = dec_lem (suc (length js)) (rw (e) refl) in
      ran-IsSound (notify_step i s) after (ground arith) (
        step_lem s after i v refl refl (λ q. refl) (λ j q. rw (q) (refl, refl, refl))
          (rw (beq_self i) refl) (rw (beq_self i, e) refl)
          (notifying_chunk a k js (rw (beq_self i, e, pred_suc (length (j ∷ js))) refl)
            (rw (beq_self i) refl) w.1)
          (AllServed-snoc s.replies j (some k) v.served (ap some (sym w.0))))
  notify-Chunk (storing_chunk a k e f) = failed-IsSound (notify_step i s) (ground arith)
  notify-Chunk (valid_chunk a k hs e f w d) = failed-IsSound (notify_step i s) (ground arith)

  pub hit-Chunk :
      {s' : System} (n : ℕ)
      → Chunk (s.cache.cache_state i) (s.flight i) (s.store i)
      → hit_step i n s ≡ some s'
      → IsSound s'
  unfolding hit_step dec
  hit-Chunk n (empty_chunk a e f) = failed-IsSound (hit_step i n s) (ground arith)
  hit-Chunk n (fetching_chunk a k ws e f w) = failed-IsSound (hit_step i n s) (ground arith)
  hit-Chunk n (notifying_chunk a k ws e f w) = failed-IsSound (hit_step i n s) (ground arith)
  hit-Chunk n (storing_chunk a k e f) = failed-IsSound (hit_step i n s) (ground arith)
  hit-Chunk n (valid_chunk a k hs e f w d) = elim (Option-cases (get_elem? hs n)) [
    | inl g ↦ failed-IsSound (hit_step i n s) (ground arith)
    | inr (j, g) ↦
        let (same, len, rest) = get_elem?-AllAre k j hs n w g in
        let flight : Flight = record {
          hits = remove n hs;
          misses = [];
          dispatched = [];
          notified = [];
          stores = [];
        } in
        let after : System = reply j (s.store i) (set_flight i flight (with_cache dec s)) in
        let c = dec_lem (length (remove n hs)) (rw (e) len) in
        ran-IsSound (hit_step i n s) after (ground arith) (
          step_lem s after i v refl refl (λ q. refl) (λ j q. rw (q) (refl, refl, refl))
            (rw (beq_self i) refl) (rw (beq_self i, e) refl)
            (valid_chunk a k (remove n hs)
              (rw (beq_self i, e, len, pred_suc (length (remove n hs))) refl) (rw (beq_self i) refl)
              rest d)
            (AllServed-snoc s.replies j (s.store i) v.served (d ∙ ap some (sym same))))
  ]
