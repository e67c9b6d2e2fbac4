-- ===== src/ReadCache/System/Sound.antt =====
-- src/shared_read_cache.cc: what holds of a chunk and of the whole cache.
use lsvd_rbd.Base.{
  ℕ, suc, ◌<◌, ◌≡◌, ◌==◌, refl, sym, ◌∙◌, Bool, false, Bool-cases, inl, inr, Option, none, some,
  List, [], ◌∷◌, ◌++◌, length, arith,
}
use lsvd_rbd.ReadCache.{ChunkKey, EntryState, empty, fetching, filling, valid, is_empty}
use lsvd_rbd.ReadCache.System.{Flight, System, idle, new_system}

-- Every key of a list is this one.
abbrev pub AllAre : ChunkKey → List ChunkKey → Type 0
AllAre k [] = Unit {0}
AllAre k (j ∷ js) = (j ≡ k) × AllAre k js

pub AllAre-snoc :
    (k j : ChunkKey) (ks : List ChunkKey) → AllAre k ks → j ≡ k → AllAre k (ks ++ (j ∷ []))
AllAre-snoc k j [] v h = (h, tt)
AllAre-snoc k j (x ∷ xs) v h = (v.0, AllAre-snoc k j xs v.1 h)

-- What a chunk, its requests and its place in the store look like, by the stage that it is in: empty,
-- being fetched, notifying the reads that waited, being written into the store, or valid. Each
-- request holds one reference, and all of them are for the key of the entry.
pub data Chunk (e : EntryState) (f : Flight) (d : Option ChunkKey) : Type 0 where
  empty_chunk :
      (a : Bool)
      → e ≡ record {
        status = empty;
        accessed = a;
        refcount = 0;
        pending_fill_data = none;
        pending_reads = [];
        key = none;
      }
      → f ≡ idle
      → Chunk e f d
  fetching_chunk :
      (a : Bool) (k : ChunkKey) (waiting : List ChunkKey)
      → e ≡ record {
        status = fetching;
        accessed = a;
        refcount = suc (length waiting);
        pending_fill_data = some none;
        pending_reads = waiting;
        key = some k;
      }
      → f ≡ record { hits = []; misses = k ∷ []; dispatched = []; notified = []; stores = [] }
      → AllAre k waiting
      → Chunk e f d
  notifying_chunk :
      (a : Bool) (k : ChunkKey) (waiting : List ChunkKey)
      → e ≡ record {
        status = filling;
        accessed = a;
        refcount = suc (length waiting);
        pending_fill_data = some (some k);
        pending_reads = [];
        key = some k;
      }
      → f ≡ record { hits = []; misses = []; dispatched = k ∷ []; notified = waiting; stores = [] }
      → AllAre k waiting
      → Chunk e f d
  storing_chunk :
      (a : Bool) (k : ChunkKey)
      → e ≡ record {
        status = filling;
        accessed = a;
        refcount = 1;
        pending_fill_data = some (some k);
        pending_reads = [];
        key = some k;
      }
      → f ≡ record { hits = []; misses = []; dispatched = []; notified = []; stores = k ∷ [] }
      → Chunk e f d
  valid_chunk :
      (a : Bool) (k : ChunkKey) (reading : List ChunkKey)
      → e ≡ record {
        status = valid;
        accessed = a;
        refcount = length reading;
        pending_fill_data = none;
        pending_reads = [];
        key = some k;
      }
      → f ≡ record { hits = reading; misses = []; dispatched = []; notified = []; stores = [] }
      → AllAre k reading
      → d ≡ some k
      → Chunk e f d

-- Every finished read was given the bytes of its chunk.
abbrev pub AllServed : List (ChunkKey × Option ChunkKey) → Type 0
AllServed [] = Unit {0}
AllServed ((k, d) ∷ rs) = (d ≡ some k) × AllServed rs

pub AllServed-snoc :
    (rs : List (ChunkKey × Option ChunkKey)) (k : ChunkKey) (d : Option ChunkKey)
    → AllServed rs
    → d ≡ some k
    → AllServed (rs ++ ((k, d) ∷ []))
AllServed-snoc [] k d v h = (h, tt)
AllServed-snoc (r ∷ rs) k d v h = (v.0, AllServed-snoc rs k d v.1 h)

-- Each chunk is in a stage, and what the map finds is a chunk in use with this key.
pub record IsSound (s : System) : Type 0 where
  pub clock : s.cache.clock_idx < s.cache.size_in_chunks
  pub chunks : (i : ℕ) → Chunk (s.cache.cache_state i) (s.flight i) (s.store i)
  pub mapped :
      (k : ChunkKey) (i : ℕ)
      → s.cache.cache_map k ≡ some i
      → (i < s.cache.size_in_chunks)
        × ((s.cache.cache_state i).key ≡ some k)
        × (is_empty (s.cache.cache_state i).status ≡ false)
  pub served : AllServed s.replies

pub new_system-IsSound : (n : ℕ) → 0 < n → IsSound (new_system n)
new_system-IsSound n h = record {
  clock = h;
  chunks = λ i. empty_chunk false refl refl;
  mapped = λ k i e. absurd (ground arith);
  served = tt;
}

-- A step on one chunk keeps the cache sound if it leaves the chunk in a stage under its key, and the
-- replies right.
pub step_lem :
    (s s' : System) (i : ℕ)
    → IsSound s
    → s'.cache.clock_idx ≡ s.cache.clock_idx
    → s'.cache.size_in_chunks ≡ s.cache.size_in_chunks
    → ((k : ChunkKey) → s'.cache.cache_map k ≡ s.cache.cache_map k)
    → ((j : ℕ)
        → j == i ≡ false
        → (s'.cache.cache_state j ≡ s.cache.cache_state j)
          × (s'.flight j ≡ s.flight j)
          × (s'.store j ≡ s.store j))
    → (s'.cache.cache_state i).key ≡ (s.cache.cache_state i).key
    → is_empty (s'.cache.cache_state i).status ≡ is_empty (s.cache.cache_state i).status
    → Chunk (s'.cache.cache_state i) (s'.flight i) (s'.store i)
    → AllServed s'.replies
    → IsSound s'
step_lem s s' i v clock size maps others key status chunk served =
    let keys : (j : ℕ)
        → ((s'.cache.cache_state j).key ≡ (s.cache.cache_state j).key)
          × (is_empty (s'.cache.cache_state j).status ≡ is_empty (s.cache.cache_state j).status) =
      λ j. elim (Bool-cases (j == i)) [
        | inl e ↦ let same : j ≡ i = ground arith in rw (same) (key, status)
        | inr e ↦ let (p, q, r) = others j e in rw (p) (refl, refl)
      ] in
    record {
      clock = rw (clock, size) v.clock;
      chunks = λ j. elim (Bool-cases (j == i)) [
        | inl e ↦ let same : j ≡ i = ground arith in rw (same) chunk
        | inr e ↦ let (p, q, r) = others j e in rw (p, q, r) (v.chunks j)
      ];
      mapped = λ k j e.
          let m = v.mapped k j (sym (maps k) ∙ e) in
          (rw (size) m.0, (keys j).0 ∙ m.1, (keys j).1 ∙ m.2);
      served = served;
    }
