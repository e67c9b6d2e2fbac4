-- ===== src/Extent.antt =====
-- src/extent.h: the extents of the map and the operations on one of them.
pub mod Map
pub mod Lists
pub mod Order
pub mod Pointers
mod Tests
use lsvd_rbd.Base.{
  ℕ, ◌+◌, ◌-◌, ◌≡◌, Bool, true, false, ◌&&◌, leb, ltb, ◌==◌, if◌then◌else◌, min, Option, none, some,
  List, [], ◌∷◌,
}

-- What an extent points to (`T_out`): an `obj_offset` or a `sector_ptr`, moved by whole sectors.
pub record Target (P : Type 0) : Type 0 where
  pub plus : P → ℕ → P
  pub minus : P → ℕ → P
  pub beq : P → P → Bool
  pub beq→eq : (p q : P) → beq p q ≡ true → p ≡ q
  pub plus-zero : (p : P) → plus p 0 ≡ p
  pub plus-plus : (p : P) (m n : ℕ) → plus (plus p m) n ≡ plus p (m + n)
  pub minus-plus : (p : P) (n : ℕ) → minus (plus p n) n ≡ p

-- `_lba2obj` and `_lba2buf`: the fields of an extent, the accessed and dirty bits included.
pub record Extent (P : Type 0) : Type 0 where
  pub base : ℕ
  pub len : ℕ
  pub ptr : P
  pub a : Bool
  pub d : Bool

module _ {P : Type 0} where
  abbrev pub limit : Extent P → ℕ
  limit e = e.base + e.len

  -- A new extent is dirty.
  abbrev pub new_extent : ℕ → ℕ → P → Extent P
  new_extent b n p = record { base = b; len = n; ptr = p; a = false; d = true }

  abbrev pub relimit : Extent P → ℕ → Extent P
  relimit e l = record e { len = l - e.base; d = true }

  abbrev pub vals : Extent P → ℕ × ℕ × P
  vals e = (e.base, limit e, e.ptr)

module _ {P : Type 0} ⦃t : Target P⦄ where
  -- The pointer moves by the same amount as the base, in either direction.
  abbrev pub rebase : Extent P → ℕ → Extent P
  rebase e b =
      if leb e.base b
      then record e {
        base = b;
        len = e.len - (b - e.base);
        ptr = t.plus e.ptr (b - e.base);
        d = true;
      }
      else record e {
        base = b;
        len = e.len + (e.base - b);
        ptr = t.minus e.ptr (e.base - b);
        d = true;
      }

  -- The part of an extent inside a range.
  unfoldable pub vals_in : Extent P → ℕ → ℕ → ℕ × ℕ × P
  vals_in e b l =
      if ltb e.base b
      then (b, min (limit e) l, t.plus e.ptr (b - e.base))
      else (e.base, min (limit e) l, e.ptr)

  abbrev pub adjacent : Extent P → Extent P → Bool
  adjacent x y = limit x == y.base && t.beq (t.plus x.ptr (limit x - x.base)) y.ptr

  -- What a sector is mapped to by a sequence of extents: the abstract view of a map.
  abbrev pub at : List (Extent P) → ℕ → Option P
  at [] x = none
  at (e ∷ es) x =
      if leb e.base x && ltb x (limit e) then some (t.plus e.ptr (x - e.base)) else at es x
