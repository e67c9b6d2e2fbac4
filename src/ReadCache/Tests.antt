-- ===== src/ReadCache/Tests.antt =====
-- Concrete runs of the read cache.
use lsvd_rbd.Base.{◌≡◌, refl, false, Option, none, some, [], ◌∷◌, arith}
use lsvd_rbd.ReadCache.{
  ChunkKey, Cache, new_cache, search, allocate_chunk, fetching, make_read_req, insert_object,
  key_beq, on_backend_done, dec_chunk_refcount, on_store_done,
}
use lsvd_rbd.ReadCache.Search.{search_spins}
use lsvd_rbd.ReadCache.System.{
  System, new_system, read_step, backend_step, fill_step, store_step, insert_step, hit_step,
  Reachable, start, step, reads, backend_ends, fill_begins, store_ends, hit_ends, notify_step,
  read_notified,
}
use lsvd_rbd.ReadCache.System.Sound.{IsSound, AllServed, new_system-IsSound}
use lsvd_rbd.ReadCache.System.Allocate.{GivenOut, evicted, allocate_chunk-GivenOut}
use lsvd_rbd.ReadCache.System.Reach.{Reachable-IsSound, Reachable-AllServed}
use lsvd_rbd.ReadCache.System.Total.{read_step-runs}

abbrev key : ChunkKey
key = record { img_prefix = "img"; seqnum = 3; obj_offset = 65536 }

abbrev result : Option System → System
result none = new_system 2
result (some s) = s

-- Two reads of one chunk, the second while the first is being fetched, then a third that hits.
abbrev fetched : System
fetched = result (read_step 4 key 0 512 (new_system 2))

abbrev waiting : System
waiting = result (read_step 4 key 512 1024 fetched)

abbrev arrived : System
arrived = result (backend_step 0 waiting)

abbrev notified : System
notified = result (notify_step 0 arrived)

abbrev filled : System
filled = result (fill_step 0 notified)

abbrev stored : System
stored = result (store_step 0 filled)

abbrev hit : System
hit = result (read_step 4 key 0 4096 stored)

abbrev ended : System
ended = result (hit_step 0 0 hit)

ended-served : ended.replies ≡ (key, some key) ∷ (key, some key) ∷ (key, some key) ∷ []
unfolding read_step backend_step notify_step fill_step store_step hit_step make_read_req key_beq
    on_backend_done dec_chunk_refcount on_store_done
ended-served = refl

ended-Reachable : Reachable 2 ended
unfolding read_step backend_step notify_step fill_step store_step hit_step make_read_req key_beq
    on_backend_done dec_chunk_refcount on_store_done
ended-Reachable =
    let a : Reachable 2 fetched = step start (reads 4 key 0 512 refl) in
    let b : Reachable 2 waiting = step a (reads 4 key 512 1024 refl) in
    let c : Reachable 2 arrived = step b (backend_ends 0 refl) in
    let d : Reachable 2 notified = step c (read_notified 0 refl) in
    let e : Reachable 2 filled = step d (fill_begins 0 refl) in
    let f : Reachable 2 stored = step e (store_ends 0 refl) in
    let g : Reachable 2 hit = step f (reads 4 key 0 4096 refl) in step g (hit_ends 0 0 refl)

Reachable-IsSound_example : IsSound ended
Reachable-IsSound_example = Reachable-IsSound 2 ended (omega arith) ended-Reachable

Reachable-AllServed_example : AllServed ended.replies
Reachable-AllServed_example = Reachable-AllServed 2 ended (omega arith) ended-Reachable

-- An object is inserted under a key that the cache has: two chunks hold it, and the map finds the first.
abbrev twice : System
twice = result (insert_step 4 key stored)

twice_keys :
    ((twice.cache.cache_state 0).key ≡ some key)
    × ((twice.cache.cache_state 1).key ≡ some key)
    × (twice.cache.cache_map key ≡ some 0)
unfolding read_step backend_step notify_step fill_step store_step insert_step make_read_req key_beq
    on_backend_done dec_chunk_refcount on_store_done insert_object
twice_keys = (refl, refl, refl)

read_step-runs_example : (s' : System) × (read_step 4 key 512 1024 (new_system 2) ≡ some s')
read_step-runs_example =
    read_step-runs 4 key 512 1024 1 (new_system 2) (new_system-IsSound 2 (omega arith)) refl
      (omega arith) (omega arith) refl (omega arith)

-- Both chunks are in use.
abbrev busy : Cache
busy = record (new_cache 2) {
  cache_state = λ i. record {
    status = fetching;
    accessed = false;
    refcount = 1;
    pending_fill_data = some none;
    pending_reads = [];
    key = some key;
  };
}

search_spins_example : search 100 busy ≡ none
search_spins_example = search_spins 100 busy (omega arith) (λ i h. (omega arith, refl))

allocate_chunk-GivenOut_example : GivenOut (new_system 2) 0 (evicted (new_cache 2))
unfolding allocate_chunk
allocate_chunk-GivenOut_example =
    allocate_chunk-GivenOut 4 (new_system 2) 0 (evicted (new_cache 2))
      (new_system-IsSound 2 (omega arith)) refl
