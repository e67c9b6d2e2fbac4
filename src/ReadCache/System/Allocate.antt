-- ===== src/ReadCache/System/Allocate.antt =====
-- src/shared_read_cache.cc, `allocate_chunk` in a sound cache: the chunk that it gives out.
use mathlib.Core.Option.{some-injective}
use lsvd_rbd.Base.{
  ℕ, ◌<◌, ◌≡◌, ◌==◌, refl, sym, subst, ◌∙◌, Bool, true, false, Option, none, some, Option-cases,
  inl, inr, [], ◌∷◌, arith,
}
use lsvd_rbd.ReadCache.{
  ChunkKey, EntryState, Cache, empty, is_empty, evictable, set_entry, advance, erase_key, search,
  allocate_chunk,
}
use lsvd_rbd.ReadCache.Key.{beq_self}
use lsvd_rbd.ReadCache.Search.{Searched, search-Searched, next_lem}
use lsvd_rbd.ReadCache.System.{Flight, System, idle}
use lsvd_rbd.ReadCache.System.Sound.{
  Chunk, empty_chunk, fetching_chunk, notifying_chunk, storing_chunk, valid_chunk, IsSound,
}

pub Chunk-abit :
    (e : EntryState) (f : Flight) (d : Option ChunkKey) (b : Bool)
    → Chunk e f d
    → Chunk (record e { accessed = b }) f d
Chunk-abit e f d b (empty_chunk a p q) = empty_chunk b (rw (p) refl) q
Chunk-abit e f d b (fetching_chunk a k ws p q w) = fetching_chunk b k ws (rw (p) refl) q w
Chunk-abit e f d b (notifying_chunk a k ws p q w) = notifying_chunk b k ws (rw (p) refl) q w
Chunk-abit e f d b (storing_chunk a k p q) = storing_chunk b k (rw (p) refl) q
Chunk-abit e f d b (valid_chunk a k hs p q w r) = valid_chunk b k hs (rw (p) refl) q w r

-- A chunk that may be evicted: nothing refers to it.
pub record IsFree (e : EntryState) (f : Flight) : Type 0 where
  pub refs : e.refcount ≡ 0
  pub fill : e.pending_fill_data ≡ none
  pub reads : e.pending_reads ≡ []
  pub no_requests : f ≡ idle
  pub keyless : is_empty e.status ≡ true → e.key ≡ none

Chunk-IsFree :
    (e : EntryState) (f : Flight) (d : Option ChunkKey)
    → Chunk e f d
    → evictable e ≡ true
    → IsFree e f
Chunk-IsFree e f d (empty_chunk a p q) h = record {
  refs = rw (p) refl;
  fill = rw (p) refl;
  reads = rw (p) refl;
  no_requests = q;
  keyless = λ u. rw (p) refl;
}
Chunk-IsFree e f d (fetching_chunk a k ws p q w) h = absurd (ground arith)
Chunk-IsFree e f d (notifying_chunk a k ws p q w) h = absurd (ground arith)
Chunk-IsFree e f d (storing_chunk a k p q) h = absurd (ground arith)
Chunk-IsFree e f d (valid_chunk a k [] p q w r) h = record {
  refs = rw (p) refl;
  fill = rw (p) refl;
  reads = rw (p) refl;
  no_requests = q;
  keyless = λ u. absurd (ground arith);
}
Chunk-IsFree e f d (valid_chunk a k (x ∷ xs) p q w r) h = absurd (ground arith)

-- The chunk given out was free and is marked empty; the other entries are as they were but for their
-- accessed bits; its key is not mapped any more.
pub record GivenOut (s : System) (i : ℕ) (c : Cache) : Type 0 where
  pub in_range : i < s.cache.size_in_chunks
  pub clock : c.clock_idx < c.size_in_chunks
  pub size : c.size_in_chunks ≡ s.cache.size_in_chunks
  pub free : IsFree (s.cache.cache_state i) (s.flight i)
  pub entry :
      (a : Bool) × (c.cache_state i
        ≡ record (s.cache.cache_state i) { status = empty; accessed = a })
  pub others :
      (j : ℕ)
      → j == i ≡ false
      → (b : Bool) × (c.cache_state j ≡ record (s.cache.cache_state j) { accessed = b })
  pub map :
      (k : ChunkKey) → c.cache_map k ≡ erase_key (s.cache.cache_state i).key s.cache.cache_map k

abbrev pub evicted : Cache → Cache
evicted c₁ =
    let i = c₁.clock_idx in
    let e = c₁.cache_state i in
    advance (record (set_entry i (record e { status = empty }) c₁) {
      cache_map = erase_key e.key c₁.cache_map;
    })

Searched-IsFree :
    (s : System) (r : Cache)
    → IsSound s
    → Searched s.cache r
    → IsFree (s.cache.cache_state r.clock_idx) (s.flight r.clock_idx)
Searched-IsFree s r v q =
    let i = r.clock_idx in
    let (a, p) = q.entries i in
    let e : EntryState = record (s.cache.cache_state i) { accessed = a } in
    let f =
      Chunk-IsFree e (s.flight i) (s.store i)
        (Chunk-abit (s.cache.cache_state i) (s.flight i) (s.store i) a (v.chunks i))
        (subst (λ x. evictable x ≡ true) p q.found) in
    record {
      refs = f.refs;
      fill = f.fill;
      reads = f.reads;
      no_requests = f.no_requests;
      keyless = f.keyless;
    }

erase_key-cong :
    (o : Option ChunkKey) (m n : ChunkKey → Option ℕ) (k : ChunkKey)
    → m k ≡ n k
    → erase_key o m k ≡ erase_key o n k
erase_key-cong none m n k h = h
erase_key-cong (some j) m n k h = rw (h) refl

evicted-GivenOut :
    (s : System) (r : Cache) → IsSound s → Searched s.cache r → GivenOut s r.clock_idx (evicted r)
evicted-GivenOut s r v q =
    let i = r.clock_idx in
    let (a, p) = q.entries i in
    record {
      in_range = rw (sym q.size) q.in_range;
      clock = ground (arith, next_lem r.clock_idx r.size_in_chunks q.in_range);
      size = q.size;
      free = Searched-IsFree s r v q;
      entry = (a, rw (beq_self i, p) refl);
      others = λ j h. let (b, u) = q.entries j in (b, rw (h) u);
      map = λ k.
          rw (p)
            (erase_key-cong (s.cache.cache_state i).key r.cache_map s.cache.cache_map k (q.map k));
    }

pub allocate_chunk_lem :
    (fuel : ℕ) (s : System) (r : Cache)
    → IsSound s
    → search fuel s.cache ≡ some r
    → allocate_chunk fuel s.cache ≡ some (r.clock_idx, evicted r)
unfolding allocate_chunk
allocate_chunk_lem fuel s r v h =
    let q = search-Searched fuel s.cache r v.clock h in
    let f = Searched-IsFree s r v q in
    let (a, p) = q.entries r.clock_idx in
    let fill : (r.cache_state r.clock_idx).pending_fill_data ≡ none = rw (p) f.fill in
    let reads : (r.cache_state r.clock_idx).pending_reads ≡ [] = rw (p) f.reads in ground arith

-- Of a sound cache `allocate_chunk` gives out, if it returns, a chunk to which nothing refers, marked
-- empty; it unmaps the key of that chunk and no other, and leaves the other entries but for their
-- accessed bits.
pub allocate_chunk-GivenOut :
    (fuel : ℕ) (s : System) (i : ℕ) (c : Cache)
    → IsSound s
    → allocate_chunk fuel s.cache ≡ some (i, c)
    → GivenOut s i c
unfolding allocate_chunk
allocate_chunk-GivenOut fuel s i c v h = elim (Option-cases (search fuel s.cache)) [
  | inl n ↦ absurd (ground arith)
  | inr (r, e) ↦
      let p : (r.clock_idx, evicted r) ≡ (i, c) =
        some-injective (r.clock_idx, evicted r) (i, c)
          (sym (allocate_chunk_lem fuel s r v e) ∙ h) in
      let g = evicted-GivenOut s r v (search-Searched fuel s.cache r v.clock e) in
      subst (λ x. GivenOut s x.0 x.1) p g
]
