-- ===== src/ReadCache/Search.antt =====
-- src/shared_read_cache.cc, `allocate_chunk`: the search for a chunk ends.
use native.Mathlib.Nat.{mod-eq_of_lt, mod_self}
use mathlib.Core.Option.{some-injective}
use lsvd_rbd.Base.{
  ℕ, zero, suc, ◌+◌, ◌-◌, ◌%◌, ◌<◌, ◌≡◌, ◌≢◌, refl, ◌==◌, ltb, if◌then◌else◌, Bool, true, false,
  none, some, subst, sym, ◌∙◌, ap, Bool-cases, inl, inr, lt_or_le, arith,
}
use lsvd_rbd.ReadCache.{
  ChunkKey, EntryState, Cache, set_entry, advance, evictable, is_empty, clear_abit, search,
}

-- The clock goes round.
pub next_lem : (x n : ℕ) → x < n → (x + 1) % n ≡ (if ltb (x + 1) n then x + 1 else 0)
next_lem x n h = elim (lt_or_le (x + 1) n) [
  | inl k ↦ ground (arith, mod-eq_of_lt k)
  | inr k ↦ let e : x + 1 ≡ n = omega arith in ground (arith, mod_self n)
]

-- The entries from the clock on to an index.
abbrev pub distance : ℕ → ℕ → ℕ → ℕ
distance size clock i = if ltb i clock then i + size - clock else i - clock

distance-next :
    (size clock i : ℕ)
    → clock < size
    → i < size
    → i ≢ clock
    → suc (distance size ((clock + 1) % size) i) ≡ distance size clock i
distance-next size clock i v h ne = elim (lt_or_le (clock + 1) size) [
  | inl k ↦ ground (arith, next_lem clock size v)
  | inr k ↦ ground (arith, next_lem clock size v)
]

distance_self :
    (size clock : ℕ) → clock < size → suc (distance size ((clock + 1) % size) clock) ≡ size
distance_self size clock v = ground (arith, next_lem clock size v)

pub clear_abit-evictable : (e : EntryState) → evictable e ≡ true → evictable (clear_abit e) ≡ true
clear_abit-evictable e h = ground arith

pub clear_abit-free : (e : EntryState) → e.refcount ≡ 0 → evictable (clear_abit e) ≡ true
clear_abit-free e h = ground arith

-- One round of the loop that does not stop.
abbrev pub step_on : Cache → Cache
step_on c = advance (set_entry c.clock_idx (clear_abit (c.cache_state c.clock_idx)) c)

search-stop :
    (fuel : ℕ) (c : Cache)
    → evictable (c.cache_state c.clock_idx) ≡ true
    → search (suc fuel) c ≡ some c
unfolding search
search-stop fuel c h = rw (search, h) refl

search-on :
    (fuel : ℕ) (c : Cache)
    → evictable (c.cache_state c.clock_idx) ≡ false
    → search (suc fuel) c ≡ search fuel (step_on c)
unfolding search
search-on fuel c h = rw (search, h) refl

step_on-evictable :
    (c : Cache) (i : ℕ)
    → evictable (c.cache_state i) ≡ true
    → evictable ((step_on c).cache_state i) ≡ true
step_on-evictable c i h = elim (Bool-cases (i == c.clock_idx)) [
  | inl e ↦
      let same : i ≡ c.clock_idx = ground arith in
      rw (e) (
        clear_abit-evictable (c.cache_state c.clock_idx)
          (subst (λ j. evictable (c.cache_state j) ≡ true) same h))
  | inr e ↦ rw (e) h
]

step_on-refcount :
    (c : Cache) (i : ℕ) → ((step_on c).cache_state i).refcount ≡ (c.cache_state i).refcount
step_on-refcount c i = elim (Bool-cases (i == c.clock_idx)) [
  | inl e ↦ let same : i ≡ c.clock_idx = ground arith in ground arith
  | inr e ↦ rw (e) refl
]

search-evictable :
    (fuel : ℕ) (c : Cache) (i : ℕ)
    → c.clock_idx < c.size_in_chunks
    → i < c.size_in_chunks
    → evictable (c.cache_state i) ≡ true
    → distance c.size_in_chunks c.clock_idx i < fuel
    → (r : Cache) × (search fuel c ≡ some r)
search-evictable zero c i v h e f = elim (f) [ ]
search-evictable (suc fuel) c i v h e f =
    elim (Bool-cases (evictable (c.cache_state c.clock_idx))) [
      | inl k ↦ (c, search-stop fuel c k)
      | inr k ↦
          let other : i ≢ c.clock_idx = λ q. ground arith in
          rw (search-on fuel c k) (
            search-evictable fuel (step_on c) i
              (ground (arith, next_lem c.clock_idx c.size_in_chunks v)) h (step_on-evictable c i e)
              (omega (arith, distance-next c.size_in_chunks c.clock_idx i v h other)))
    ]

-- Twice round the clock is enough when one chunk is not in use.
pub search-ends :
    (fuel : ℕ) (c : Cache) (i : ℕ)
    → c.clock_idx < c.size_in_chunks
    → i < c.size_in_chunks
    → (c.cache_state i).refcount ≡ 0
    → distance c.size_in_chunks c.clock_idx i + c.size_in_chunks < fuel
    → (r : Cache) × (search fuel c ≡ some r)
search-ends zero c i v h e f = elim (f) [ ]
search-ends (suc fuel) c i v h e f = elim (Bool-cases (evictable (c.cache_state c.clock_idx))) [
  | inl k ↦ (c, search-stop fuel c k)
  | inr k ↦ rw (search-on fuel c k) (elim (Bool-cases (i == c.clock_idx)) [
    | inl q ↦
        let same : i ≡ c.clock_idx = ground arith in
        search-evictable fuel (step_on c) i
          (ground (arith, next_lem c.clock_idx c.size_in_chunks v)) h
          (rw (q) (
            clear_abit-free (c.cache_state c.clock_idx)
              (subst (λ j. (c.cache_state j).refcount ≡ 0) same e)))
          (subst (λ j. distance c.size_in_chunks ((c.clock_idx + 1) % c.size_in_chunks) j < fuel)
            (sym same) (omega (arith, distance_self c.size_in_chunks c.clock_idx v)))
    | inr q ↦
        let other : i ≢ c.clock_idx = ground arith in
        search-ends fuel (step_on c) i (ground (arith, next_lem c.clock_idx c.size_in_chunks v)) h
          (step_on-refcount c i ∙ e)
          (omega (arith, distance-next c.size_in_chunks c.clock_idx i v h other))
  ])
]

-- What the search leaves: an entry to evict at the clock, and every entry as it was but for its
-- accessed bit.
pub record Searched (c r : Cache) : Type 0 where
  pub in_range : r.clock_idx < r.size_in_chunks
  pub size : r.size_in_chunks ≡ c.size_in_chunks
  pub map : (k : ChunkKey) → r.cache_map k ≡ c.cache_map k
  pub found : evictable (r.cache_state r.clock_idx) ≡ true
  pub entries : (i : ℕ) → (a : Bool) × (r.cache_state i ≡ record (c.cache_state i) { accessed = a })

clear_abit_lem : (e : EntryState) → (a : Bool) × (clear_abit e ≡ record e { accessed = a })
clear_abit_lem e = elim (Bool-cases (e.refcount == 0)) [
  | inl q ↦ (false, rw (q) refl)
  | inr q ↦ (e.accessed, rw (q) refl)
]

abbrev with_abit : Bool → EntryState → EntryState
with_abit a e = record e { accessed = a }

step_on-entries :
    (c : Cache) (i : ℕ)
    → (a : Bool) × ((step_on c).cache_state i ≡ record (c.cache_state i) { accessed = a })
step_on-entries c i = elim (Bool-cases (i == c.clock_idx)) [
  | inl q ↦
      let same : i ≡ c.clock_idx = ground arith in
      let (a, p) = clear_abit_lem (c.cache_state c.clock_idx) in
      (
        a,
        rw (q) (
            subst
              (λ j.
                clear_abit (c.cache_state c.clock_idx) ≡ record (c.cache_state j) { accessed = a })
              (sym same) p),
      )
  | inr q ↦ ((c.cache_state i).accessed, rw (q) refl)
]

pub search-Searched :
    (fuel : ℕ) (c r : Cache)
    → c.clock_idx < c.size_in_chunks
    → search fuel c ≡ some r
    → Searched c r
unfolding search
search-Searched zero c r v h = absurd (ground arith)
search-Searched (suc fuel) c r v h = elim (Bool-cases (evictable (c.cache_state c.clock_idx))) [
  | inl k ↦
      let same : c ≡ r = some-injective c r (sym (search-stop fuel c k) ∙ h) in
      subst (λ r'. Searched c r') same
        (record {
          in_range = v;
          size = refl;
          map = λ q. refl;
          found = k;
          entries = λ i. ((c.cache_state i).accessed, refl);
        })
  | inr k ↦
      let rest =
        search-Searched fuel (step_on c) r (ground (arith, next_lem c.clock_idx c.size_in_chunks v))
          (sym (search-on fuel c k) ∙ h) in
      record {
        in_range = rest.in_range;
        size = rest.size;
        map = rest.map;
        found = rest.found;
        entries = λ i.
            let (a, p) = rest.entries i in
            let (b, q) = step_on-entries c i in (a, p ∙ ap (with_abit a) q);
      }
]

-- While every chunk is in use, with the clock on one of them, the search finds nothing however long it
-- runs.
pub search_spins :
    (fuel : ℕ) (c : Cache)
    → c.clock_idx < c.size_in_chunks
    → ((i : ℕ)
        → i < c.size_in_chunks
        → (0 < (c.cache_state i).refcount) × (is_empty (c.cache_state i).status ≡ false))
    → search fuel c ≡ none
unfolding search
search_spins zero c v h = refl
search_spins (suc fuel) c v h =
    let used = h c.clock_idx v in
    let k : evictable (c.cache_state c.clock_idx) ≡ false = ground arith in
    search-on fuel c k
    ∙ search_spins fuel (step_on c) (ground (arith, next_lem c.clock_idx c.size_in_chunks v))
        (λ i q. let (a, p) = step_on-entries c i in rw (p) (h i q))
