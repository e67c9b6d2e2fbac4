-- ===== src/Translate/Writes/Pieces.antt =====
-- src/translate.cc, `translate_req::notify`: the pieces of one entry.
use lsvd_rbd.Base.{
  or_assoc, and_false, and_true, or_false, ℕ, ◌+◌, ◌-◌, ◌*◌, ◌≤◌, ◌<◌, ◌≡◌, ◌⊎◌, refl, ap, ◌∙◌,
  Bool, true, false, ◌&&◌, ◌||◌, leb, ltb, ltb-true, ltb-false, leb-false, min, max, lt_or_le,
  Bool-cases, inl, inr, if◌then◌else◌, Option, none, some, List, [], ◌∷◌, ◌++◌, arith,
}
use lsvd_rbd.Extent.{Extent, limit, vals_in, at}
use lsvd_rbd.Extent.Order.{Above}
use lsvd_rbd.Extent.Map.Position.{Reaches}
use lsvd_rbd.Extent.Map.View.{at-Above, at-hit, at-skip, at-miss}
use lsvd_rbd.Extent.Pointers.{SectorPtr, sector_target}
use lsvd_rbd.Translate.{Entry}
use lsvd_rbd.Translate.Writes.{in_buffer, collect}

-- A sector points into a buffer, and lies in one of some ranges.
abbrev pub points_in : ℕ → ℕ → Option SectorPtr → Bool
points_in lo hi none = false
points_in lo hi (some p) = in_buffer lo hi p

abbrev pub in_pieces : ℕ → List (ℕ × ℕ) → Bool
in_pieces x [] = false
in_pieces x ((b, l) ∷ ps) = (leb b x && ltb x l) || in_pieces x ps

abbrev pub in_entries : ℕ → List Entry → Bool
in_entries x [] = false
in_entries x (e ∷ es) = (leb e.lba x && ltb x (e.lba + e.len)) || in_entries x es

abbrev pub AllNonempty : List Entry → Type 0
AllNonempty [] = Unit {0}
AllNonempty (e ∷ es) = (0 < e.len) × AllNonempty es

-- No extent crosses an end of the buffer: it points into it, or below it, or above it.
abbrev pub IsApart : ℕ → ℕ → List (Extent SectorPtr) → Type 0
IsApart lo hi [] = Unit {0}
IsApart lo hi (e ∷ es) =
    (((lo ≤ e.ptr.buf) × (e.ptr.buf + e.len * 512 ≤ hi))
      ⊎ (e.ptr.buf + e.len * 512 ≤ lo)
      ⊎ (hi ≤ e.ptr.buf))
    × IsApart lo hi es

-- All sectors of such an extent point into the buffer if its first sector does.
pub same_side :
    (lo hi : ℕ) (e : Extent SectorPtr) (n : ℕ)
    → ((lo ≤ e.ptr.buf) × (e.ptr.buf + e.len * 512 ≤ hi))
      ⊎ (e.ptr.buf + e.len * 512 ≤ lo)
      ⊎ (hi ≤ e.ptr.buf)
    → n < e.len
    → in_buffer lo hi (record { buf = e.ptr.buf + n * 512 }) ≡ in_buffer lo hi e.ptr
same_side lo hi e n (inl h) k = ground arith
same_side lo hi e n (inr (inl h)) k = ground arith
same_side lo hi e n (inr (inr h)) k = ground arith

pub leb-max : (a b x : ℕ) → b ≤ x → leb (max a b) x ≡ leb a x
leb-max a b x h = ground arith

pub ltb-min : (x a b : ℕ) → x < a → ltb x (min a b) ≡ ltb x b
ltb-min x a b h = ground arith

pub if_if :
    (a b : Bool) (o : Option SectorPtr)
    → (if b then none else (if a then none else o)) ≡ (if a || b then none else o)
if_if true true o = refl
if_if true false o = refl
if_if false b o = refl

pub in_pieces-append :
    (x : ℕ) (ps qs : List (ℕ × ℕ)) → in_pieces x (ps ++ qs) ≡ (in_pieces x ps || in_pieces x qs)
in_pieces-append x [] qs = refl
in_pieces-append x ((b, l) ∷ ps) qs =
    ap (λ t. (leb b x && ltb x l) || t) (in_pieces-append x ps qs)
    ∙ or_assoc (leb b x && ltb x l) (in_pieces x ps) (in_pieces x qs)

pub Above-Reaches : (b n : ℕ) (es : List (Extent SectorPtr)) → Above n es → b ≤ n → Reaches b es
Above-Reaches b n [] v h = tt
Above-Reaches b n (e ∷ es) v h = omega (arith, v.0, v.1)

-- The piece of the first extent.
pub in_pieces-head :
    (lo hi b l x : ℕ) (e : Extent SectorPtr) (es : List (Extent SectorPtr))
    → ((lo ≤ e.ptr.buf) × (e.ptr.buf + e.len * 512 ≤ hi))
      ⊎ (e.ptr.buf + e.len * 512 ≤ lo)
      ⊎ (hi ≤ e.ptr.buf)
    → b < limit e
    → e.base < l
    → in_pieces x (collect lo hi b l (e ∷ es)) ≡ (
        ((leb (max b e.base) x && ltb x (min (limit e) l)) && in_buffer lo hi e.ptr)
        || in_pieces x (collect lo hi b l es))
unfolding collect vals_in
in_pieces-head lo hi b l x e es a r k = elim (lt_or_le e.base b) [
  | inl h ↦
      let side = same_side lo hi e (b - e.base) a (omega arith) in
      let m : max b e.base ≡ b = omega arith in
      elim (Bool-cases (in_buffer lo hi e.ptr)) [
        | inl q ↦
            rw (ltb-true e.base l k, ltb-true e.base b h, side, q, m)
              (rw (and_true (leb b x && ltb x (min (limit e) l))) refl)
        | inr q ↦
            rw (ltb-true e.base l k, ltb-true e.base b h, side, q, m)
              (rw (and_false (leb b x && ltb x (min (limit e) l))) refl)
      ]
  | inr h ↦
      let m : max b e.base ≡ e.base = omega arith in
      elim (Bool-cases (in_buffer lo hi e.ptr)) [
        | inl q ↦
            rw (ltb-true e.base l k, ltb-false e.base b h, q, m)
              (rw (and_true (leb e.base x && ltb x (min (limit e) l))) refl)
        | inr q ↦
            rw (ltb-true e.base l k, ltb-false e.base b h, q, m)
              (rw (and_false (leb e.base x && ltb x (min (limit e) l))) refl)
      ]
]

pub in_pieces-collect :
    (lo hi b l x : ℕ) (es : List (Extent SectorPtr)) (n : ℕ)
    → Above n es
    → Reaches b es
    → IsApart lo hi es
    → in_pieces x (collect lo hi b l es) ≡ ((leb b x && ltb x l) && points_in lo hi (at es x))
unfolding collect
in_pieces-collect lo hi b l x [] n v r a = rw (and_false (leb b x && ltb x l)) refl
in_pieces-collect lo hi b l x (e ∷ es) n v r a =
    let ih =
      in_pieces-collect lo hi b l x es (limit e) v.2
        (Above-Reaches b (limit e) es v.2 (omega arith)) a.1 in
    elim (lt_or_le e.base l) [
      | inl k ↦ in_pieces-head lo hi b l x e es a.0 r k ∙ (elim (lt_or_le x e.base) [
        | inl low ↦ rw (leb-false (max b e.base) x (omega arith), at-miss e es x low) ih
        | inr from ↦ elim (lt_or_le x (limit e)) [
          | inl h ↦
              rw
                (
                  at-hit e es x from h,
                  same_side lo hi e (x - e.base) a.0 (omega arith),
                  ih,
                  at-Above es (limit e) x v.2 h,
                  and_false (leb b x && ltb x l),
                  leb-max b e.base x from,
                  ltb-min x (limit e) l h,
                  or_false ((leb b x && ltb x l) && in_buffer lo hi e.ptr),
                )
                refl
          | inr past ↦
              rw
                (
                  ltb-false x (min (limit e) l) (omega arith),
                  and_false (leb (max b e.base) x),
                  at-skip e es x past,
                )
                ih
        ]
      ])
      | inr k ↦ rw (ltb-false e.base l k) (elim (lt_or_le x e.base) [
        | inl low ↦
            let none_there : at (e ∷ es) x ≡ none =
              at-Above (e ∷ es) e.base x (omega arith, v.1, v.2) low in
            rw (none_there, and_false (leb b x && ltb x l)) refl
        | inr from ↦ rw (ltb-false x l (omega arith), and_false (leb b x)) refl
      ])
    ]
