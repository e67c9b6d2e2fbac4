-- ===== src/ReadCache/System/Entry.antt =====
-- src/shared_read_cache.cc, a chunk given a new key keeps the cache sound.
use mathlib.Core.Option.{some-injective, none-ne-some}
use lsvd_rbd.Base.{
  ℕ, ◌<◌, ◌≡◌, ◌≢◌, ◌==◌, refl, sym, subst, ap, ◌∙◌, true, false, Bool-cases, Option, Option-cases,
  none, some, inl, inr, arith,
}
use lsvd_rbd.ReadCache.{ChunkKey, Cache, is_empty, key_beq, erase_key, insert_key}
use lsvd_rbd.ReadCache.Key.{key_beq_self, key_beq→eq}
use lsvd_rbd.ReadCache.System.{System}
use lsvd_rbd.ReadCache.System.Sound.{Chunk, AllServed, IsSound}
use lsvd_rbd.ReadCache.System.Allocate.{GivenOut, Chunk-abit}

erase_key-some :
    (o : Option ChunkKey) (m : ChunkKey → Option ℕ) (k : ChunkKey) (j : ℕ)
    → erase_key o m k ≡ some j
    → (m k ≡ some j) × (o ≢ some k)
erase_key-some none m k j h = (h, λ q. none-ne-some k q)
erase_key-some (some old) m k j h = elim (Bool-cases (key_beq old k)) [
  | inl e ↦ absurd (ground arith)
  | inr e ↦ (
    ground arith,
    λ q.
        let same : old ≡ k = some-injective old k q in
        let t : key_beq old k ≡ true = rw (same) (key_beq_self k) in ground arith,
  )
]

module _ (s s' : System) (i : ℕ) (c : Cache) (k : ChunkKey) (v : IsSound s) (g : GivenOut s i c)
    (clock : s'.cache.clock_idx ≡ c.clock_idx) (size : s'.cache.size_in_chunks ≡ c.size_in_chunks)
    (maps : (q : ChunkKey) → s'.cache.cache_map q ≡ insert_key k i c.cache_map q)
    (others : (j : ℕ)
      → j == i ≡ false
      → (s'.cache.cache_state j ≡ c.cache_state j)
        × (s'.flight j ≡ s.flight j)
        × (s'.store j ≡ s.store j))
    (key : (s'.cache.cache_state i).key ≡ some k)
    (used : is_empty (s'.cache.cache_state i).status ≡ false)
    (chunk : Chunk (s'.cache.cache_state i) (s'.flight i) (s'.store i))
    (served : AllServed s'.replies) where
  same_key :
      (j : ℕ)
      → j == i ≡ false
      → ((s'.cache.cache_state j).key ≡ (s.cache.cache_state j).key)
        × (is_empty (s'.cache.cache_state j).status ≡ is_empty (s.cache.cache_state j).status)
  same_key j h = let (p, q, r) = others j h in let (b, u) = g.others j h in rw (p, u) (refl, refl)

  mapped_before :
      (q : ChunkKey) (j : ℕ)
      → c.cache_map q ≡ some j
      → (s.cache.cache_map q ≡ some j) × (j == i ≡ false)
  mapped_before q j h =
      let (m, n) =
        erase_key-some (s.cache.cache_state i).key s.cache.cache_map q j (sym (g.map q) ∙ h) in
      (
        m,
        elim (Bool-cases (j == i)) [
          | inl e ↦
              let same : j ≡ i = ground arith in
              absurd (n (subst (λ x. (s.cache.cache_state x).key ≡ some q) same (v.mapped q j m).1))
          | inr e ↦ e
        ],
      )

  abbrev Mapped : ChunkKey → ℕ → Type 0
  Mapped q j =
      (j < s'.cache.size_in_chunks)
      × ((s'.cache.cache_state j).key ≡ some q)
      × (is_empty (s'.cache.cache_state j).status ≡ false)

  still-Mapped : (q : ChunkKey) (j : ℕ) → c.cache_map q ≡ some j → Mapped q j
  still-Mapped q j before =
      let (p, other) = mapped_before q j before in
      let w = v.mapped q j p in
      let same = same_key j other in (rw (size, g.size) w.0, same.0 ∙ w.1, same.1 ∙ w.2)

  -- A key that is mapped stays where it is, also the one that is put in.
  occupied-Mapped : (q : ChunkKey) (j : ℕ) → s'.cache.cache_map q ≡ some j → Mapped q j
  occupied-Mapped q j h = elim (Bool-cases (key_beq k q)) [
    | inl e ↦
        let same : k ≡ q = key_beq→eq k q e in
        elim (Option-cases (c.cache_map q)) [
          | inl free ↦
              let here : i ≡ j = some-injective i j (sym (maps q ∙ rw (e, free) refl) ∙ h) in
              subst (Mapped q) here (rw (size, g.size) g.in_range, key ∙ ap some same, used)
          | inr (l, there) ↦ still-Mapped q j (there ∙ (sym (maps q ∙ rw (e, there) refl) ∙ h))
        ]
    | inr e ↦ still-Mapped q j (sym (maps q ∙ rw (e) refl) ∙ h)
  ]

  -- Under any key, the chunk given out leads to a sound cache.
  pub occupied-IsSound : IsSound s'
  occupied-IsSound = record {
    clock = rw (clock, size) g.clock;
    chunks = λ j. elim (Bool-cases (j == i)) [
      | inl e ↦ let same : j ≡ i = ground arith in rw (same) chunk
      | inr e ↦
          let (p, q, r) = others j e in
          let (b, u) = g.others j e in
          rw (p, q, r, u)
            (Chunk-abit (s.cache.cache_state j) (s.flight j) (s.store j) b (v.chunks j))
    ];
    mapped = occupied-Mapped;
    served = served;
  }
