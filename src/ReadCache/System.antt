-- ===== src/ReadCache/System.antt =====
-- src/shared_read_cache.cc: the cache with its requests in flight. Each step is one stretch of code
-- that holds the lock, or one completion.
use lsvd_rbd.Base.{◌>>=◌, ℕ, zero, suc, ◌≡◌, Option, none, some, List, [], ◌∷◌, ◌++◌, get_elem?}
use lsvd_rbd.ReadCache.{
  ChunkKey, Contents, Cache, new_cache, put, fetching, set_entry, ReadReq, cache_hit, copied,
  pending_read, cache_miss, make_read_req, insert_object, on_backend_done, on_store_done,
  dec_chunk_refcount,
}
pub mod Sound
pub mod Steps
pub mod Allocate
pub mod Entry
pub mod Reach
pub mod Total

-- The requests of one chunk, each as the key that it asked for: hits that read the store, misses
-- whose backend request is out, misses that have their bytes and are notifying the reads that waited
-- (`notified` are those still to come), and writes into the store.
pub record Flight : Type 0 where
  pub hits : List ChunkKey
  pub misses : List ChunkKey
  pub dispatched : List ChunkKey
  pub notified : List ChunkKey
  pub stores : List ChunkKey

-- The cache, the requests by chunk, what each chunk of the store holds, and the finished reads: the
-- key asked for, and the key of the bytes handed out.
pub record System : Type 0 where
  pub cache : Cache
  pub flight : ℕ → Flight
  pub store : ℕ → Contents
  pub replies : List (ChunkKey × Contents)

abbrev pub idle : Flight
idle = record { hits = []; misses = []; dispatched = []; notified = []; stores = [] }

abbrev pub new_system : ℕ → System
new_system num_cache_blocks = record {
  cache = new_cache num_cache_blocks;
  flight = λ i. idle;
  store = λ i. none;
  replies = [];
}

abbrev pub set_flight : ℕ → Flight → System → System
set_flight i f s = record s { flight = put i f s.flight }

abbrev pub with_cache : Cache → System → System
with_cache c s = record s { cache = c }

abbrev pub reply : ChunkKey → Contents → System → System
reply k d s = record s { replies = s.replies ++ ((k, d) ∷ []) }

-- The caller of `make_read_req` keeps the request.
pub keep_request : ChunkKey → ReadReq → System → System
keep_request k (cache_hit i) s =
    set_flight i (record (s.flight i) { hits = k ∷ (s.flight i).hits }) s
keep_request k (copied d) s = reply k d s
keep_request k (pending_read i) s = s
keep_request k (cache_miss i) s =
    set_flight i (record (s.flight i) { misses = k ∷ (s.flight i).misses }) s

unfoldable pub read_step : ℕ → ChunkKey → ℕ → ℕ → System → Option System
unfolding keep_request
read_step fuel k adjust req_size s = make_read_req fuel k adjust req_size s.cache >>= λ r.
    some (keep_request k r.0 (with_cache r.1 s))

unfoldable pub insert_step : ℕ → ChunkKey → System → Option System
insert_step fuel k s = insert_object fuel k s.cache >>= λ r. some (
    set_flight r.0 (record (s.flight r.0) { stores = k ∷ (s.flight r.0).stores })
      (with_cache r.1 s))

-- The list without its element at a position.
abbrev pub remove {ℓ} : {A : Type ℓ} → ℕ → List A → List A
remove n [] = []
remove zero (x ∷ xs) = xs
remove (suc n) (x ∷ xs) = x ∷ remove n xs

-- `cache_hit_request::notify`, of the hit at a position: the store has been read.
unfoldable pub hit_step : ℕ → ℕ → System → Option System
hit_step i n s = do
  k ← get_elem? (s.flight i).hits n
  c ← dec_chunk_refcount i s.cache
  some (
      reply k (s.store i)
        (set_flight i (record (s.flight i) { hits = remove n (s.flight i).hits }) (with_cache c s)))

-- `cache_miss_request::run`: the status is set again.
unfoldable pub run_step : ℕ → System → Option System
run_step i s = elim (s.flight i).misses [
  | [] ↦ none
  | k ∷ ks ↦
      some
        (with_cache (set_entry i (record (s.cache.cache_state i) { status = fetching }) s.cache) s)
]

-- `cache_miss_request::on_backend_done`, up to the loop.
unfoldable pub backend_step : ℕ → System → Option System
backend_step i s = elim (s.flight i).misses [
  | [] ↦ none
  | k ∷ ks ↦
      let (reqs, c) = on_backend_done k i s.cache in
      some (
        set_flight i
          (record (s.flight i) {
            misses = ks;
            dispatched = k ∷ (s.flight i).dispatched;
            notified = reqs;
          })
          (with_cache c s))
]

-- `pending_read_request::on_backend_done`, of the next read of the loop.
unfoldable pub notify_step : ℕ → System → Option System
notify_step i s = elim (s.flight i).dispatched [
  | [] ↦ none
  | k ∷ ks ↦ elim (s.flight i).notified [
    | [] ↦ none
    | j ∷ js ↦ do
      c ← dec_chunk_refcount i s.cache
      some
          (reply j (some k) (set_flight i (record (s.flight i) { notified = js }) (with_cache c s)))
  ]
]

-- The rest of `cache_miss_request::on_backend_done`: its own read is served, and the store begins.
unfoldable pub fill_step : ℕ → System → Option System
fill_step i s = elim (s.flight i).dispatched [
  | [] ↦ none
  | k ∷ ks ↦ elim (s.flight i).notified [
    | [] ↦ some (
        reply k (some k) (
          set_flight i (record (s.flight i) { dispatched = ks; stores = k ∷ (s.flight i).stores })
            s))
    | j ∷ js ↦ none
  ]
]

-- The write into the store is done: `on_store_done`, of a miss or of an insertion.
unfoldable pub store_step : ℕ → System → Option System
store_step i s = elim (s.flight i).stores [
  | [] ↦ none
  | k ∷ ks ↦
      some
        (record (set_flight i (record (s.flight i) { stores = ks })
          (with_cache (on_store_done i s.cache) s)) { store = put i (some k) s.store })
]

-- What may happen next.
pub data Step : System → System → Type 0 where
  reads :
      {s s' : System} (fuel : ℕ) (k : ChunkKey) (adjust req_size : ℕ)
      → read_step fuel k adjust req_size s ≡ some s'
      → Step s s'
  inserts : {s s' : System} (fuel : ℕ) (k : ChunkKey) → insert_step fuel k s ≡ some s' → Step s s'
  hit_ends : {s s' : System} (i n : ℕ) → hit_step i n s ≡ some s' → Step s s'
  miss_runs : {s s' : System} (i : ℕ) → run_step i s ≡ some s' → Step s s'
  backend_ends : {s s' : System} (i : ℕ) → backend_step i s ≡ some s' → Step s s'
  read_notified : {s s' : System} (i : ℕ) → notify_step i s ≡ some s' → Step s s'
  fill_begins : {s s' : System} (i : ℕ) → fill_step i s ≡ some s' → Step s s'
  store_ends : {s s' : System} (i : ℕ) → store_step i s ≡ some s' → Step s s'

pub data Reachable (n : ℕ) : System → Type 0 where
  start : Reachable n (new_system n)
  step : {s s' : System} → Reachable n s → Step s s' → Reachable n s'
