-- ===== src/Translate/Gc/Moved.antt =====
-- src/translate.cc, `write_gc`: no sector changes its data.
use mathlib.Core.Option.{some-injective, none-ne-some}
use lsvd_rbd.Base.{
  ℕ, ◌+◌, ◌-◌, ◌≤◌, ◌<◌, ◌≡◌, ◌&&◌, refl, sym, ◌∙◌, Bool-cases, leb, ltb, ltb-true, ltb-false,
  lt_or_le, ◌==◌, inl, inr, some, Option-cases, List, [], ◌∷◌, ◌++◌, map, arith,
}
use lsvd_rbd.Extent.{Extent, limit, vals_in, at}
use lsvd_rbd.Extent.Order.{Above, IsSorted}
use lsvd_rbd.Extent.Map.{lookup, lower_bound}
use lsvd_rbd.Extent.Map.Position.{Reaches, lower_bound-Found}
use lsvd_rbd.Extent.Map.Clear.{Found-high}
use lsvd_rbd.Extent.Map.View.{at-Above, at-hit, at-skip}
use lsvd_rbd.Extent.Pointers.{ObjOffset, obj_target}
use lsvd_rbd.Translate.{Entry, sum_len}
use lsvd_rbd.Translate.Batch.{placed}
use lsvd_rbd.Translate.Gc.{Piece, revalidate, revalidate_all, extent_of, copied_from}

Above-Reaches : (b n : ℕ) (es : List (Extent ObjOffset)) → Above n es → b ≤ n → Reaches b es
Above-Reaches b n [] v h = tt
Above-Reaches b n (e ∷ es) v h = omega (arith, v.0, v.1)

vals_in-from : (e : Extent ObjOffset) (b l : ℕ) → b ≤ (vals_in e b l).0
unfolding vals_in
vals_in-from e b l = elim (lt_or_le e.base b) [
  | inl c ↦ rw (ltb-true e.base b c) (omega arith)
  | inr c ↦ rw (ltb-false e.base b c) c
]

abbrev From : ℕ → List Piece → Type 0
From b [] = Unit {0}
From b (p ∷ ps) = (b ≤ p.lba) × From b ps

revalidate-From :
    (obj in_ptr b l : ℕ) (es : List (Extent ObjOffset)) → From b (revalidate obj in_ptr b l es)
unfolding revalidate vals_in
revalidate-From obj in_ptr b l [] = tt
revalidate-From obj in_ptr b l (e ∷ es) =
    let ih = revalidate-From obj in_ptr b l es in
    elim (lt_or_le e.base l) [
      | inr k ↦ rw (ltb-false e.base l k) tt
      | inl k ↦ elim (Bool-cases ((vals_in e b l).2.obj == obj)) [
        | inr o ↦ rw (ltb-true e.base l k, o) ih
        | inl o ↦ rw (ltb-true e.base l k, o) (vals_in-from e b l, ih)
      ]
    ]

module _ {D : Type 0} (disk : ObjOffset → D) (gc_data : ℕ → D) where
  -- The data that a piece takes are those of its sectors.
  abbrev pub Good : List (Extent ObjOffset) → List Piece → Type 0
  Good m [] = Unit {0}
  Good m (p ∷ ps) =
      (0 < p.len)
      × ((x : ℕ)
          → p.lba ≤ x
          → x < p.lba + p.len
          → (q : ObjOffset) × (at m x ≡ some q) × (gc_data (p.src + (x - p.lba)) ≡ disk q))
      × Good m ps

  -- Where a sector of a range is mapped into the object of its entry, the data read are those there.
  abbrev pub HasData : List (Extent ObjOffset) → ℕ → ℕ → ℕ → ℕ → Type 0
  HasData m obj in_ptr b l =
      (x : ℕ) (q : ObjOffset)
      → b ≤ x
      → x < l
      → at m x ≡ some q
      → q.obj ≡ obj
      → gc_data (in_ptr + (x - b)) ≡ disk q

  Good-append :
      (m : List (Extent ObjOffset)) (ps qs : List Piece) → Good m ps → Good m qs → Good m (ps ++ qs)
  Good-append m [] qs v w = w
  Good-append m (p ∷ ps) qs v w = (v.0, v.1, Good-append m ps qs v.2 w)

  -- Where the pieces are placed in the new object, it has the data of the sector.
  pub placed-Good :
      (m : List (Extent ObjOffset)) (seq off x : ℕ) (ps : List Piece) (q : ObjOffset)
      → Good m ps
      → placed seq off (map extent_of ps) x ≡ some q
      → (k : ℕ) × (q ≡ record { obj = seq; offset = off + k })
        × (k < sum_len (map extent_of ps))
        × ((p : ObjOffset) × (at m x ≡ some p) × (gc_data (copied_from ps k) ≡ disk p))
  unfolding sum_len
  placed-Good m seq off x [] q v h = absurd (none-ne-some q h)
  placed-Good m seq off x (p ∷ ps) q v h =
      elim (Option-cases (placed seq (off + p.len) (map extent_of ps) x)) [
        | inl n ↦ elim (Bool-cases (leb p.lba x && ltb x (p.lba + p.len))) [
          | inl t ↦
              let from : p.lba ≤ x = ground arith in
              let to : x < p.lba + p.len = ground arith in
              let (r, there, same) = v.1 x from to in
              let here : ObjOffset = record { obj = seq; offset = off + (x - p.lba) } in
              (
                x - p.lba,
                sym (some-injective here q (rw (n, t) at h)),
                omega arith,
                (r, there, rw (ltb-true (x - p.lba) p.len (omega arith)) same),
              )
          | inr t ↦ absurd (none-ne-some q (rw (n, t) at h))
        ]
        | inr (q', n) ↦
            let (k, eq, few, found) = placed-Good m seq (off + p.len) x ps q' v.2 n in
            let (r, there, same) = found in
            let sum : off + p.len + k ≡ off + (p.len + k) = omega arith in
            let less : p.len + k - p.len ≡ k = omega arith in
            (
              p.len + k,
              sym (some-injective q' q (rw (n) at h)) ∙ (eq ∙ rw (sum) refl),
              omega arith,
              (r, there, rw (ltb-false (p.len + k) p.len (omega arith), less) same),
            )
      ]

  HasData-rest :
      (obj in_ptr b l : ℕ) (e : Extent ObjOffset) (es : List (Extent ObjOffset))
      → Above (limit e) es
      → HasData (e ∷ es) obj in_ptr b l
      → HasData es obj in_ptr b l
  HasData-rest obj in_ptr b l e es v d x q from to there same = elim (lt_or_le x (limit e)) [
    | inl h ↦ absurd (none-ne-some q (sym (at-Above es (limit e) x v h) ∙ there))
    | inr h ↦ d x q from to (at-skip e es x h ∙ there) same
  ]

  Good-tail :
      (e : Extent ObjOffset) (es : List (Extent ObjOffset)) (ps : List Piece)
      → Above (limit e) es
      → Good es ps
      → Good (e ∷ es) ps
  Good-tail e es [] v g = tt
  Good-tail e es (p ∷ ps) v g = (
    g.0,
    (λ x from to.
        let (q, there, same) = g.1 x from to in
        elim (lt_or_le x (limit e)) [
          | inl h ↦ absurd (none-ne-some q (sym (at-Above es (limit e) x v h) ∙ there))
          | inr h ↦ (q, at-skip e es x h ∙ there, same)
        ]),
    Good-tail e es ps v g.2,
  )

  revalidate-Good :
      (obj in_ptr b l n : ℕ) (es : List (Extent ObjOffset))
      → Above n es
      → Reaches b es
      → b < l
      → HasData es obj in_ptr b l
      → Good es (revalidate obj in_ptr b l es)
  unfolding revalidate vals_in
  revalidate-Good obj in_ptr b l n [] v r h d = tt
  revalidate-Good obj in_ptr b l n (e ∷ es) v r h d =
      let ih = Good-tail e es (revalidate obj in_ptr b l es) v.2 (
        revalidate-Good obj in_ptr b l (limit e) es v.2
          (Above-Reaches b (limit e) es v.2 (omega arith)) h
          (HasData-rest obj in_ptr b l e es v.2 d)) in
      elim (lt_or_le e.base l) [
        | inr k ↦ rw (ltb-false e.base l k) tt
        | inl k ↦ elim (Bool-cases (e.ptr.obj == obj)) [
          | inr o ↦ elim (lt_or_le e.base b) [
            | inl c ↦ rw (ltb-true e.base l k, ltb-true e.base b c, o) ih
            | inr c ↦ rw (ltb-true e.base l k, ltb-false e.base b c, o) ih
          ]
          | inl o ↦ elim (lt_or_le e.base b) [
            | inl c ↦
                rw (ltb-true e.base l k, ltb-true e.base b c, o)
                  (
                    omega (arith, v.1),
                    (λ x from to.
                        let q : ObjOffset = obj_target.plus e.ptr (x - e.base) in
                        let there : at (e ∷ es) x ≡ some q =
                          at-hit e es x (omega arith) (omega arith) in
                        let sum : in_ptr + (b - b) + (x - b) ≡ in_ptr + (x - b) = omega arith in
                        let own : e.ptr.obj ≡ obj = ground arith in
                        (q, there, rw (sum) (d x q (omega arith) (omega arith) there own))),
                    ih,
                  )
            | inr c ↦
                rw (ltb-true e.base l k, ltb-false e.base b c, o)
                  (
                    omega (arith, v.1),
                    (λ x from to.
                        let q : ObjOffset = obj_target.plus e.ptr (x - e.base) in
                        let there : at (e ∷ es) x ≡ some q =
                          at-hit e es x (omega arith) (omega arith) in
                        let sum : in_ptr + (e.base - b) + (x - e.base) ≡ in_ptr + (x - b) =
                          omega arith in
                        let own : e.ptr.obj ≡ obj = ground arith in
                        (q, there, rw (sum) (d x q (omega arith) (omega arith) there own))),
                    ih,
                  )
          ]
        ]
      ]

  Good-subst :
      (m es : List (Extent ObjOffset)) (b : ℕ) (ps : List Piece)
      → ((x : ℕ) → b ≤ x → at es x ≡ at m x)
      → From b ps
      → Good es ps
      → Good m ps
  Good-subst m es b [] same f g = tt
  Good-subst m es b (p ∷ ps) same f g = (
    g.0,
    (λ x from to.
        let (q, there, copy) = g.1 x from to in
        (q, sym (same x (omega (arith, f.0))) ∙ there, copy)),
    Good-subst m es b ps same f.1 g.2,
  )

  -- For the entries of a request, whose data stand one behind the other from `in_ptr` on.
  abbrev pub HaveData : List (Extent ObjOffset) → ℕ → List Entry → Type 0
  HaveData m in_ptr [] = Unit {0}
  HaveData m in_ptr (e ∷ es) =
      (0 < e.len) × HasData m e.obj in_ptr e.lba (e.lba + e.len) × HaveData m (in_ptr + e.len) es

  pub revalidate_all-Good :
      (in_ptr : ℕ) (es : List Entry) (m : List (Extent ObjOffset))
      → IsSorted m
      → HaveData m in_ptr es
      → Good m (revalidate_all in_ptr es m)
  unfolding revalidate_all lookup
  revalidate_all-Good in_ptr [] m v d = tt
  revalidate_all-Good in_ptr (e ∷ es) m v d =
      let f = lower_bound-Found m e.lba v in
      let rest = (lower_bound m e.lba).rest in
      let l = e.lba + e.len in
      let same : (x : ℕ) → e.lba ≤ x → at rest x ≡ at m x =
        λ x h. Found-high m e.lba x (lower_bound m e.lba) f h in
      Good-append m (revalidate e.obj in_ptr e.lba l rest) (revalidate_all (in_ptr + e.len) es m)
        (Good-subst m rest e.lba (revalidate e.obj in_ptr e.lba l rest) same
          (revalidate-From e.obj in_ptr e.lba l rest)
          (revalidate-Good e.obj in_ptr e.lba l f.hi rest f.after f.reaches (omega (arith, d.0))
            (λ x q from to there own. d.1 x q from to (sym (same x from) ∙ there) own)))
        (revalidate_all-Good (in_ptr + e.len) es m v d.2)
