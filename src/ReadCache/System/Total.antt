-- ===== src/ReadCache/System/Total.antt =====
-- src/shared_read_cache.cc, `make_read_req`: when it returns.
use lsvd_rbd.Base.{
  ℕ, ◌+◌, ◌*◌, ◌%◌, ◌<◌, ◌≤◌, ◌≡◌, ◌≢◌, refl, false, leb-true, none, some, Option-cases, inl, inr,
  arith,
}
use lsvd_rbd.ReadCache.{
  ChunkKey, Cache, Status, empty, fetching, filling, valid, is_empty, ReadReq, cache_miss,
  read_entry, start_fetch, find_or_fetch, make_read_req, chunk_size,
}
use lsvd_rbd.ReadCache.Search.{distance, search-ends}
use lsvd_rbd.ReadCache.System.{System, keep_request, with_cache, read_step}
use lsvd_rbd.ReadCache.System.Sound.{IsSound}
use lsvd_rbd.ReadCache.System.Allocate.{allocate_chunk_lem, evicted}

read_entry-ne-none :
    (k : ChunkKey) (i : ℕ) (c : Cache) (t : Status)
    → (c.cache_state i).status ≡ t
    → is_empty t ≡ false
    → read_entry k i c ≢ none
unfolding read_entry
read_entry-ne-none k i c empty h u e = ground arith
read_entry-ne-none k i c fetching h u e = ground arith
read_entry-ne-none k i c filling h u e = ground arith
read_entry-ne-none k i c valid h u e = ground arith

read_entry-runs :
    (k : ChunkKey) (i : ℕ) (c : Cache) (t : Status)
    → (c.cache_state i).status ≡ t
    → is_empty t ≡ false
    → (r : ReadReq × Cache) × (read_entry k i c ≡ some r)
read_entry-runs k i c t h u = elim (Option-cases (read_entry k i c)) [
  | inl e ↦ absurd (read_entry-ne-none k i c t h u e)
  | inr x ↦ x
]

find_or_fetch-runs :
    (fuel : ℕ) (k : ChunkKey) (i : ℕ) (s : System)
    → IsSound s
    → i < s.cache.size_in_chunks
    → (s.cache.cache_state i).refcount ≡ 0
    → 2 * s.cache.size_in_chunks ≤ fuel
    → (r : ReadReq × Cache) × (find_or_fetch fuel k s.cache ≡ some r)
unfolding find_or_fetch
find_or_fetch-runs fuel k i s v range free enough = elim (Option-cases (s.cache.cache_map k)) [
  | inl new ↦
      let clock : s.cache.clock_idx < s.cache.size_in_chunks = v.clock in
      let near : distance s.cache.size_in_chunks s.cache.clock_idx i < s.cache.size_in_chunks =
        ground arith in
      let (r, found) = search-ends fuel s.cache i v.clock range free (omega arith) in
      let allocated = allocate_chunk_lem fuel s r v found in
      ((cache_miss r.clock_idx, start_fetch k r.clock_idx (evicted r)), ground arith)
  | inr (j, found) ↦
      let (r, runs) =
        read_entry-runs k j s.cache (s.cache.cache_state j).status refl (v.mapped k j found).2 in
      (r, ground arith)
]

-- In a sound cache with a chunk to which nothing refers, a read that is aligned and stays in its chunk
-- runs: no assertion fails, and going round the clock twice is enough to find a chunk.
pub read_step-runs :
    (fuel : ℕ) (k : ChunkKey) (adjust req_size i : ℕ) (s : System)
    → IsSound s
    → k.obj_offset % chunk_size ≡ 0
    → adjust + req_size ≤ chunk_size
    → i < s.cache.size_in_chunks
    → (s.cache.cache_state i).refcount ≡ 0
    → 2 * s.cache.size_in_chunks ≤ fuel
    → (s' : System) × (read_step fuel k adjust req_size s ≡ some s')
unfolding read_step make_read_req
read_step-runs fuel k adjust req_size i s v aligned fits range free enough =
    let (r, runs) = find_or_fetch-runs fuel k i s v range free enough in
    (
      keep_request k r.0 (with_cache r.1 s),
      rw (aligned, leb-true (adjust + req_size) chunk_size fits, runs) refl,
    )
