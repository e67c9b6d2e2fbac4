-- ===== src/Translate/Checkpointing/Crash.antt =====
-- src/translate.cc, `write_checkpoint`: the backend at every point where it may be cut short.
use Prim.Native.String.{String}
use lsvd_rbd.Base.{
  ℕ, ◌+◌, ◌≤◌, ◌<◌, ◌≡◌, refl, sym, ap, Bool, true, false, ltb, ◌||◌, ◌==◌, if◌then◌else◌,
  Bool-cases, inl, inr, List, [], ◌∷◌, ◌++◌, map, length, take, min, subst, zero, suc, arith,
}
use lsvd_rbd.Translate.{
  Event, State, cache_insert, put_object, put_checkpoint, put_superblock, delete_object,
}
use lsvd_rbd.Translate.Checkpointing.{checkpoint_of, keep_last, checkpoint_ops}

-- The backend as far as a restart looks at it: the numbers of the objects that are there, and the
-- checkpoints that the superblock names.
pub record Store : Type 0 where
  pub present : ℕ → Bool
  pub named : List ℕ

abbrev pub has : ℕ → List ℕ → Bool
has c [] = false
has c (d ∷ ds) = (d == c) || has c ds

abbrev pub effect : Event → Store → Store
effect (cache_insert pf seq size) st = st
effect (put_object pf h) st = record st { present = λ c. if h.seq == c then true else st.present c }
effect (put_checkpoint n cp) st = record st {
  present = λ c. if cp.seq == c then true else st.present c;
}
effect (put_superblock n ks cl) st = record st { named = ks }
effect (delete_object n d) st = record st { present = λ c. if d == c then false else st.present c }

abbrev pub replay : List Event → Store → Store
replay [] st = st
replay (e ∷ es) st = replay es (effect e st)

-- Every checkpoint that the superblock names is there.
abbrev pub IsConsistent : Store → Type 0
IsConsistent st = (c : ℕ) → has c st.named ≡ true → st.present c ≡ true

-- The numbers rise, from `lo` on.
abbrev pub Rising : ℕ → List ℕ → Type 0
Rising lo [] = Unit {0}
Rising lo (c ∷ cs) = (lo ≤ c) × Rising (c + 1) cs

-- The kept checkpoints are the last three, or all if there are no more.
pub keep_last_lem :
    (l : List ℕ)
    → ((keep_last l).0 ++ (keep_last l).1 ≡ l) × (length (keep_last l).1 ≡ min 3 (length l))
unfolding keep_last
keep_last_lem [] = (refl, omega arith)
keep_last_lem (c ∷ cs) =
    let ih = keep_last_lem cs in
    elim (Bool-cases (ltb 3 (length (c ∷ cs)))) [
      | inl h ↦ rw (h, keep_last) (ap (λ k. c ∷ k) ih.0, ground (arith, ih.1))
      | inr h ↦ rw (h, keep_last) (refl, ground arith)
    ]

has-below : (c lo : ℕ) (l : List ℕ) → Rising lo l → c < lo → has c l ≡ false
has-below c lo [] r h = refl
has-below c lo (d ∷ ds) r h = ground (arith, has-below c (d + 1) ds r.1)

Rising-mono : (m n : ℕ) (l : List ℕ) → m ≤ n → Rising n l → Rising m l
Rising-mono m n [] h r = tt
Rising-mono m n (c ∷ cs) h r = (omega arith, r.1)

Rising-drop : (lo : ℕ) (xs ys : List ℕ) → Rising lo (xs ++ ys) → Rising lo ys
Rising-drop lo [] ys r = r
Rising-drop lo (x ∷ xs) ys r =
    Rising-mono lo (x + 1) ys (omega arith) (Rising-drop (x + 1) xs ys r.1)

has-apart : (c lo : ℕ) (xs ys : List ℕ) → Rising lo (xs ++ ys) → has c xs ≡ true → has c ys ≡ false
has-apart c lo [] ys r h = cc
has-apart c lo (x ∷ xs) ys r h = elim (Bool-cases (x == c)) [
  | inl e ↦ has-below c (x + 1) ys (Rising-drop (x + 1) xs ys r.1) (ground arith)
  | inr e ↦ has-apart c (x + 1) xs ys r.1 (ground arith)
]

has-append : (c : ℕ) (xs ys : List ℕ) → has c (xs ++ ys) ≡ (has c xs || has c ys)
has-append c [] ys = refl
has-append c (x ∷ xs) ys = ground (arith, has-append c xs ys)

deletes-IsConsistent :
    (name : String) (olds : List ℕ) (k : ℕ) (st : Store)
    → IsConsistent st
    → ((c : ℕ) → has c olds ≡ true → has c st.named ≡ false)
    → IsConsistent (replay (take k (map (delete_object name) olds)) st)
deletes-IsConsistent name [] zero st v a = v
deletes-IsConsistent name [] (suc k) st v a = v
deletes-IsConsistent name (d ∷ ds) zero st v a = v
deletes-IsConsistent name (d ∷ ds) (suc k) st v a =
    deletes-IsConsistent name ds k _ (λ c h. ground (arith, v c h, a c))
      (λ c h. ground (arith, a c))

module _ (cp_seq : ℕ) (s : State) (st : Store) (v : IsConsistent st)
    (same : st.named ≡ s.checkpoints) (r : Rising 0 (s.checkpoints ++ (cp_seq ∷ []))) where
  named_kept : Store
  named_kept = record {
    present = λ c. if cp_seq == c then true else st.present c;
    named = (keep_last (s.checkpoints ++ (cp_seq ∷ []))).1;
  }

  all_has :
      (c : ℕ)
      → has c (keep_last (s.checkpoints ++ (cp_seq ∷ []))).1 ≡ true
      → (has c s.checkpoints || (cp_seq == c)) ≡ true
  all_has c h =
      let l = s.checkpoints ++ (cp_seq ∷ []) in
      ground (
        arith,
        ap (has c) (keep_last_lem l).0,
        has-append c (keep_last l).0 (keep_last l).1,
        has-append c s.checkpoints (cp_seq ∷ []),
      )

  named_kept-IsConsistent : IsConsistent named_kept
  unfolding named_kept
  named_kept-IsConsistent c h = ground (arith, all_has c h, ap (has c) same, v c)

  -- However far `write_checkpoint` gets with what it sends, every checkpoint that the superblock then
  -- names is in the backend: if that was so before, the superblock named the checkpoints of the
  -- state, and the numbers of these and of the new one rise.
  pub checkpoint_ops-IsConsistent :
      (k : ℕ) → IsConsistent (replay (take k (checkpoint_ops cp_seq s)) st)
  unfolding checkpoint_ops named_kept checkpoint_of
  checkpoint_ops-IsConsistent zero = v
  checkpoint_ops-IsConsistent (suc zero) = λ c h. ground (arith, v c)
  checkpoint_ops-IsConsistent (suc (suc k)) =
      let l = s.checkpoints ++ (cp_seq ∷ []) in
      deletes-IsConsistent s.name (keep_last l).0 k named_kept named_kept-IsConsistent (λ c h.
        has-apart c 0 (keep_last l).0 (keep_last l).1 (subst (Rising 0) (sym (keep_last_lem l).0) r)
          h)
