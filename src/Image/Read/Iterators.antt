-- ===== src/Image/Read/Iterators.antt =====
-- src/image.cc, `handle_reads`: the iterators of the loop, and what `vals` gives at them.
use lsvd_rbd.Base.{
  ℕ, ◌-◌, ◌≤◌, ◌<◌, ◌≡◌, refl, sym, ap, ◌∙◌, min, leb, ltb-true, ltb-false, ◌==◌, Bool-cases,
  lt_or_le, inl, inr, none, some, List, [], ◌∷◌, arith,
}
use lsvd_rbd.Extent.{Target, Extent, limit, vals_in, at}
use lsvd_rbd.Extent.Order.{Above, IsSorted}
use lsvd_rbd.Extent.Map.Position.{Reaches}
use lsvd_rbd.Extent.Map.View.{at-Above, at-hit, at-skip}
use lsvd_rbd.Extent.Pointers.{ObjOffset, obj_target, sector_target}
use lsvd_rbd.Image.Read.{vals_at, skip_obscured, step_past, pass}

-- An iterator that the loop can go on from: its extents reach past `start`.
pub record Ready {P : Type 0} (start : ℕ) (es : List (Extent P)) : Type 0 where
  pub sorted : IsSorted es
  pub reaches : Reaches start es

pub Above-Ready : {P : Type 0} (es : List (Extent P)) (lo s : ℕ) → Above lo es → s ≤ lo → Ready s es
Above-Ready [] lo s v h = record { sorted = tt; reaches = tt }
Above-Ready (e ∷ es) lo s v h = record {
  sorted = (omega arith, v.1, v.2);
  reaches = omega (arith, v.0, v.1);
}

-- The first extent ends at `l` or later.
abbrev pub UpTo : {P : Type 0} → ℕ → List (Extent P) → Type 0
UpTo l [] = Unit {0}
UpTo l (e ∷ es) = l ≤ limit e

-- What the loop learns from `vals` of an extent.
module _ {P : Type 0} ⦃t : Target P⦄ where
  pub record Vals (es : List (Extent P)) (start end : ℕ) (v : ℕ × ℕ × P) : Type 0 where
    pub ge : start ≤ v.0
    pub hole : (x : ℕ) → x < v.0 → x < end → start ≤ x → at es x ≡ none
    pub far : (s : ℕ) → start < v.0 → s ≤ v.0 → Reaches s es
    pub room : v.0 ≡ start → (start < v.1) × (v.1 ≤ end)
    pub hit : v.0 ≡ start → (x : ℕ) → start ≤ x → x < v.1 → at es x ≡ some (t.plus v.2 (x - start))
    pub upto : v.0 ≡ start → UpTo v.1 es
    pub rest : v.0 ≡ start → Ready v.1 (step_past es)
    pub same : v.0 ≡ start → (x : ℕ) → v.1 ≤ x → x < end → at (step_past es) x ≡ at es x

  pub vals_at-Vals :
      (p : P) (es : List (Extent P)) (start end : ℕ)
      → start < end
      → Ready start es
      → Vals es start end (vals_at p es start end)
  unfolding vals_in
  vals_at-Vals p [] start end h r = record {
    ge = omega arith;
    hole = λ x a b c. refl;
    far = λ s a b. tt;
    room = λ e. absurd (omega arith);
    hit = λ e x a b. absurd (omega arith);
    upto = λ e. tt;
    rest = λ e. record { sorted = tt; reaches = tt };
    same = λ e x a b. refl;
  }
  vals_at-Vals p (e ∷ es) start end h r = elim (lt_or_le e.base start) [
    | inl over ↦
        rw (ltb-true e.base start over, vals_in)
          (record {
            ge = omega arith;
            hole = λ x a b c. absurd (omega arith);
            far = λ s a b. absurd (omega arith);
            room = λ q. (omega (arith, r.reaches), omega arith);
            hit = λ q x a b.
                rw
                  (
                    at-hit e es x (omega arith) (omega arith),
                    t.plus-plus e.ptr (start - e.base) (x - start),
                  )
                  (ap (λ k. some (t.plus e.ptr k)) (omega arith));
            upto = λ q. omega arith;
            rest = λ q. Above-Ready es (limit e) (min (limit e) end) r.sorted.2 (omega arith);
            same = λ q x a b. sym (at-skip e es x (omega arith));
          })
    | inr from ↦
        rw (ltb-false e.base start from, vals_in)
          (record {
            ge = from;
            hole = λ x a b c. at-Above (e ∷ es) e.base x (omega arith, r.sorted.1, r.sorted.2) a;
            far = λ s a b. omega (arith, r.sorted.1);
            room = λ q. (omega (arith, r.reaches), omega arith);
            hit = λ q x a b. rw (at-hit e es x (omega arith) (omega arith), q);
            upto = λ q. omega arith;
            rest = λ q. Above-Ready es (limit e) (min (limit e) end) r.sorted.2 (omega arith);
            same = λ q x a b. sym (at-skip e es x (omega arith));
          })
  ]

pub skip_obscured-Ready :
    (l lo : ℕ) (es : List (Extent ObjOffset)) → Above lo es → Ready l (skip_obscured l es)
unfolding skip_obscured
skip_obscured-Ready l lo [] v = record { sorted = tt; reaches = tt }
skip_obscured-Ready l lo (e ∷ es) v = elim (Bool-cases (leb (limit e) l)) [
  | inl h ↦ rw (h, skip_obscured) (skip_obscured-Ready l (limit e) es v.2)
  | inr h ↦
      rw (h, skip_obscured) (record { sorted = (omega arith, v.1, v.2); reaches = ground arith })
]

pub at-skip_obscured :
    (l x : ℕ) (es : List (Extent ObjOffset)) → l ≤ x → at (skip_obscured l es) x ≡ at es x
unfolding skip_obscured
at-skip_obscured l x [] h = refl
at-skip_obscured l x (e ∷ es) h = elim (Bool-cases (leb (limit e) l)) [
  | inl k ↦ rw (k, skip_obscured) (at-skip_obscured l x es h ∙ sym (at-skip e es x (ground arith)))
  | inr k ↦ rw (k, skip_obscured)
]

pub pass-Ready :
    (l : ℕ) (es : List (Extent ObjOffset)) → IsSorted es → UpTo l es → Ready l (pass l es)
pass-Ready l [] v u = record { sorted = tt; reaches = tt }
pass-Ready l (e ∷ es) v u = elim (Bool-cases (l == limit e)) [
  | inl h ↦ rw (h, pass) (Above-Ready es (limit e) l v.2 u)
  | inr h ↦ rw (h, pass) (record { sorted = v; reaches = ground arith })
]

pub at-pass : (l x : ℕ) (es : List (Extent ObjOffset)) → l ≤ x → at (pass l es) x ≡ at es x
at-pass l x [] h = refl
at-pass l x (e ∷ es) h = elim (Bool-cases (l == limit e)) [
  | inl k ↦ rw (k, pass) (sym (at-skip e es x (ground arith)))
  | inr k ↦ rw (k, pass)
]

pub UpTo-mono : {P : Type 0} (m n : ℕ) (es : List (Extent P)) → m ≤ n → UpTo n es → UpTo m es
UpTo-mono m n [] h u = tt
UpTo-mono m n (e ∷ es) h u = omega arith

pub Reaches-mono :
    {P : Type 0} (m n : ℕ) (es : List (Extent P)) → m ≤ n → Reaches n es → Reaches m es
Reaches-mono m n [] h u = tt
Reaches-mono m n (e ∷ es) h u = omega arith
