-- ===== src/ReadCache.antt =====
-- src/shared_read_cache.cc: the chunks of a shard of the read cache and its operations.
use Prim.Native.String.{String}
use text.Mathlib.Text
use lsvd_rbd.Base.{
  ◌>>=◌, ◌>>◌, assert, ℕ, zero, suc, ◌+◌, ◌-◌, ◌*◌, ◌%◌, ◌==◌, leb, if◌then◌else◌, Bool, true,
  false, not, ◌&&◌, ◌||◌, Option, none, some, List, [], ◌∷◌, ◌++◌,
}
pub mod Key
pub mod Search
pub mod System
pub mod Objects
mod Tests

abbrev pub chunk_size : ℕ
chunk_size = 65536

abbrev pub header_size : ℕ
header_size = 4096

-- `chunk_key`: the object's name has two parts, the image's prefix and a number.
pub record ChunkKey : Type 0 where
  pub img_prefix : String
  pub seqnum : ℕ
  pub obj_offset : ℕ

pub key_beq : ChunkKey → ChunkKey → Bool
key_beq k j =
    Text.◌==◌ k.img_prefix j.img_prefix && (k.seqnum == j.seqnum && k.obj_offset == j.obj_offset)

pub data Status : Type 0 where
  empty : Status
  fetching : Status
  filling : Status
  valid : Status

abbrev pub is_empty : Status → Bool
is_empty empty = true
is_empty _ = false

-- What a buffer or the store holds of a chunk: the bytes of a key, or nothing yet.
abbrev pub Contents : Type 0
Contents = Option ChunkKey

-- `pending_fill_data` is null or a buffer, which stands as its contents. A pending read stands as the
-- key that it asked for. An entry that was never used has no key.
pub record EntryState : Type 0 where
  pub status : Status
  pub accessed : Bool
  pub refcount : ℕ
  pub pending_fill_data : Option Contents
  pub pending_reads : List ChunkKey
  pub key : Option ChunkKey

-- `shared_read_cache`: the entries by index, below `size_in_chunks`.
pub record Cache : Type 0 where
  pub cache_state : ℕ → EntryState
  pub size_in_chunks : ℕ
  pub cache_map : ChunkKey → Option ℕ
  pub clock_idx : ℕ

abbrev pub new_entry : EntryState
new_entry = record {
  status = empty;
  accessed = false;
  refcount = 0;
  pending_fill_data = none;
  pending_reads = [];
  key = none;
}

-- The constructor.
abbrev pub new_cache : ℕ → Cache
new_cache num_cache_blocks = record {
  cache_state = λ i. new_entry;
  size_in_chunks = num_cache_blocks;
  cache_map = λ k. none;
  clock_idx = 0;
}

-- A function changed at one point.
abbrev pub put {ℓ} : {A : Type ℓ} → ℕ → A → (ℕ → A) → ℕ → A
put i a f j = if j == i then a else f j

abbrev pub set_entry : ℕ → EntryState → Cache → Cache
set_entry i e c = record c { cache_state = put i e c.cache_state }

abbrev pub advance : Cache → Cache
advance c = record c { clock_idx = (c.clock_idx + 1) % c.size_in_chunks }

-- `unordered_map::erase`, of the key of an entry, and `insert`, which keeps a value that is there.
abbrev pub erase_key : Option ChunkKey → (ChunkKey → Option ℕ) → ChunkKey → Option ℕ
erase_key none m j = m j
erase_key (some k) m j = if key_beq k j then none else m j

abbrev pub or_value : Option ℕ → ℕ → Option ℕ
or_value none i = some i
or_value (some j) i = some j

abbrev pub insert_key : ChunkKey → ℕ → (ChunkKey → Option ℕ) → ChunkKey → Option ℕ
insert_key k i m j = if key_beq k j then or_value (m j) i else m j

abbrev pub evictable : EntryState → Bool
evictable e = is_empty e.status || (e.refcount == 0 && not e.accessed)

-- The accessed bit is cleared only if the entry is not in use.
abbrev pub clear_abit : EntryState → EntryState
clear_abit e = if e.refcount == 0 then record e { accessed = false } else e

-- The loop of `allocate_chunk`; `none` is out of fuel.
unfoldable pub search : ℕ → Cache → Option Cache
search zero c = none
search (suc fuel) c =
    let e = c.cache_state c.clock_idx in
    let rest = search fuel (advance (set_entry c.clock_idx (clear_abit e) c)) in
    if evictable e then some c else rest

abbrev pub is_none {ℓ} : {A : Type ℓ} → Option A → Bool
is_none none = true
is_none (some a) = false

abbrev pub is_nil {ℓ} : {A : Type ℓ} → List A → Bool
is_nil [] = true
is_nil (x ∷ xs) = false

-- `allocate_chunk`; `none` is a failed assertion, or out of fuel.
unfoldable pub allocate_chunk : ℕ → Cache → Option (ℕ × Cache)
unfolding search
allocate_chunk fuel c = do
  c₁ ← search fuel c
  let i = c₁.clock_idx
  let e = c₁.cache_state i
  assert (is_none e.pending_fill_data)
  assert (is_nil e.pending_reads)
  let c₂ : Cache = set_entry i (record e { status = empty }) c₁
  some (i, advance (record c₂ { cache_map = erase_key e.key c₁.cache_map }))

-- What `make_read_req` returns: a request of one of three kinds on a chunk, or nothing, the bytes of
-- a buffer having been copied.
pub data ReadReq : Type 0 where
  cache_hit : ℕ → ReadReq
  copied : Contents → ReadReq
  pending_read : ℕ → ReadReq
  cache_miss : ℕ → ReadReq

abbrev pub pointed : Option Contents → Contents
pointed none = none
pointed (some d) = d

-- The entry is there: it is pinned, and its status decides.
pub read_entry : ChunkKey → ℕ → Cache → Option (ReadReq × Cache)
read_entry k i c =
    let e = c.cache_state i in
    let pinned : EntryState = record e { refcount = e.refcount + 1; accessed = true } in
    elim e.status [
      | empty ↦ none
      | valid ↦ some (cache_hit i, set_entry i pinned c)
      | filling ↦
          some (copied (pointed e.pending_fill_data), set_entry i (record e { accessed = true }) c)
      | fetching ↦ some (
        pending_read i,
        set_entry i (record pinned { pending_reads = e.pending_reads ++ (k ∷ []) }) c,
      )
    ]

-- The entry of a chunk just allocated becomes that of a fetch; nothing is in the new buffer yet.
pub start_fetch : ChunkKey → ℕ → Cache → Cache
start_fetch k i c =
    let e = c.cache_state i in
    let e' : EntryState = record e {
      pending_fill_data = some none;
      refcount = e.refcount + 1;
      status = fetching;
      key = some k;
    } in
    record (set_entry i e' c) { cache_map = insert_key k i c.cache_map }

-- `make_read_req` behind its assertions: a hit, or a miss that allocates a chunk.
pub find_or_fetch : ℕ → ChunkKey → Cache → Option (ReadReq × Cache)
unfolding allocate_chunk read_entry start_fetch
find_or_fetch fuel k c =
    let miss : Option (ReadReq × Cache) =
      allocate_chunk fuel c >>= λ r. some (cache_miss r.0, start_fetch k r.0 r.1) in
    let hit : ℕ → Option (ReadReq × Cache) = λ i. read_entry k i c in
    elim (c.cache_map k) [ some i ↦ hit i | none ↦ miss ]

unfoldable pub make_read_req : ℕ → ChunkKey → ℕ → ℕ → Cache → Option (ReadReq × Cache)
unfolding find_or_fetch
make_read_req fuel k adjust req_size c =
    assert (k.obj_offset % chunk_size == 0)
    >> (assert (leb (adjust + req_size) chunk_size) >> find_or_fetch fuel k c)

-- `insert_object` of a shard: the chunk whose store begins.
unfoldable pub insert_object : ℕ → ChunkKey → Cache → Option (ℕ × Cache)
unfolding allocate_chunk
insert_object fuel k c = do
  (i, c₁) ← allocate_chunk fuel c
  let e = c₁.cache_state i
  let e' : EntryState = record e {
    refcount = e.refcount + 1;
    accessed = false;
    status = filling;
    pending_fill_data = some (some k);
    key = some k;
  }
  some (i, record (set_entry i e' c₁) { cache_map = insert_key k i c₁.cache_map })

-- `cache_miss_request::on_backend_done`, under the lock: the reads to be notified. The backend has put
-- the bytes of `buf` into the buffer.
unfoldable pub on_backend_done : ChunkKey → ℕ → Cache → List ChunkKey × Cache
on_backend_done buf i c =
    let e = c.cache_state i in
    (
      e.pending_reads,
      set_entry i
          (record e { status = filling; pending_fill_data = some (some buf); pending_reads = [] })
          c,
    )

unfoldable pub on_store_done : ℕ → Cache → Cache
on_store_done i c =
    let e = c.cache_state i in
    set_entry i (record e { status = valid; pending_fill_data = none; refcount = e.refcount - 1 }) c

unfoldable pub dec_chunk_refcount : ℕ → Cache → Option Cache
dec_chunk_refcount i c =
    let e = c.cache_state i in
    assert (leb 1 e.refcount) >> some (set_entry i (record e { refcount = e.refcount - 1 }) c)
