-- ===== src/ReadCache/Objects.antt =====
-- src/shared_read_cache.cc, `sharded_cache`: an object cut into chunks.
use Prim.Native.String.{String}
use lsvd_rbd.Base.{
  ℕ, zero, suc, ◌+◌, ◌-◌, ◌%◌, ◌<◌, ◌≤◌, ◌≡◌, ◌⊎◌, ltb-true, ltb-false, refl, ltb, if◌then◌else◌,
  min, List, [], ◌∷◌, lt_or_le, inl, inr, arith,
}
use lsvd_rbd.ReadCache.{ChunkKey, chunk_size}

-- The loop of `sharded_cache::insert_object`: the keys of the chunks and the bytes copied to each.
unfoldable pub chop : ℕ → String → ℕ → ℕ → ℕ → List (ChunkKey × ℕ)
chop zero img_prefix seqnum obj_size processed_bytes = []
chop (suc fuel) img_prefix seqnum obj_size processed_bytes =
    let to_copy = min (obj_size - processed_bytes) chunk_size in
    let key : ChunkKey = record {
      img_prefix = img_prefix;
      seqnum = seqnum;
      obj_offset = processed_bytes;
    } in
    let rest = chop fuel img_prefix seqnum obj_size (processed_bytes + to_copy) in
    if ltb processed_bytes obj_size then (key, to_copy) ∷ rest else []

-- Chunks of one object that follow one another from a byte to the end of the object: each is whole but
-- the last, and begins at a multiple of the chunk's size.
abbrev pub Chopped : String → ℕ → ℕ → ℕ → List (ChunkKey × ℕ) → Type 0
Chopped img_prefix seqnum obj_size at [] = obj_size ≤ at
Chopped img_prefix seqnum obj_size at ((k, n) ∷ ks) =
    (k ≡ record { img_prefix = img_prefix; seqnum = seqnum; obj_offset = at })
    × (at % chunk_size ≡ 0)
    × (0 < n)
    × (n ≤ chunk_size)
    × ((n ≡ chunk_size) ⊎ (at + n ≡ obj_size))
    × Chopped img_prefix seqnum obj_size (at + n) ks

chop-from :
    (fuel : ℕ) (img_prefix : String) (seqnum obj_size at : ℕ)
    → obj_size ≤ at + fuel
    → (at % chunk_size ≡ 0) ⊎ (obj_size ≤ at)
    → Chopped img_prefix seqnum obj_size at (chop fuel img_prefix seqnum obj_size at)
unfolding chop
chop-from zero p seqnum obj_size at f h = omega arith
chop-from (suc fuel) p seqnum obj_size at f h = elim (lt_or_le at obj_size) [
  | inl k ↦
      let n = min (obj_size - at) chunk_size in
      let whole : (n ≡ chunk_size) ⊎ (at + n ≡ obj_size) = grind arith in
      let next : ((at + n) % chunk_size ≡ 0) ⊎ (obj_size ≤ at + n) = grind arith in
      rw (ltb-true at obj_size k) (
        refl,
        omega arith,
        omega arith,
        omega arith,
        whole,
        chop-from fuel p seqnum obj_size (at + n) (omega arith) next,
      )
  | inr k ↦ rw (ltb-false at obj_size k) k
]

-- An object is cut into chunks that cover it from its first byte to its last, each whole but the last
-- one, under keys that are multiples of the chunk's size; one round for each byte is enough.
pub chop-Chopped :
    (img_prefix : String) (seqnum obj_size : ℕ)
    → Chopped img_prefix seqnum obj_size 0 (chop obj_size img_prefix seqnum obj_size 0)
chop-Chopped img_prefix seqnum obj_size =
    chop-from obj_size img_prefix seqnum obj_size 0 (omega arith) (inl refl)
