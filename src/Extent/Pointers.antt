-- ===== src/Extent/Pointers.antt =====
-- src/extent.h: what the extents of the object map and of the buffer map point to.
use lsvd_rbd.Base.{ℕ, ◌+◌, ◌-◌, ◌*◌, ◌≡◌, Bool, true, ◌&&◌, ◌==◌, arith}
use lsvd_rbd.Extent.{Target}

-- A sector of a backend object: the object's sequence number and the offset in it.
pub record ObjOffset : Type 0 where
  pub obj : ℕ
  pub offset : ℕ

abbrev obj_plus : ObjOffset → ℕ → ObjOffset
obj_plus p n = record p { offset = p.offset + n }

abbrev obj_minus : ObjOffset → ℕ → ObjOffset
obj_minus p n = record p { offset = p.offset - n }

abbrev obj_beq : ObjOffset → ObjOffset → Bool
obj_beq p q = p.obj == q.obj && p.offset == q.offset

pub obj_beq→eq : (p q : ObjOffset) → obj_beq p q ≡ true → p ≡ q
obj_beq→eq p q h = ground arith

pub obj_plus-zero : (p : ObjOffset) → obj_plus p 0 ≡ p
obj_plus-zero p = ground arith

pub obj_plus-plus : (p : ObjOffset) (m n : ℕ) → obj_plus (obj_plus p m) n ≡ obj_plus p (m + n)
obj_plus-plus p m n = ground arith

pub obj_minus-plus : (p : ObjOffset) (n : ℕ) → obj_minus (obj_plus p n) n ≡ p
obj_minus-plus p n = ground arith

instance abbrev pub obj_target : Target ObjOffset
obj_target = record {
  plus = obj_plus;
  minus = obj_minus;
  beq = obj_beq;
  beq→eq = obj_beq→eq;
  plus-zero = obj_plus-zero;
  plus-plus = obj_plus-plus;
  minus-plus = obj_minus-plus;
}

-- An address in memory, of a byte; a sector is 512 bytes.
pub record SectorPtr : Type 0 where
  pub buf : ℕ

abbrev sector_plus : SectorPtr → ℕ → SectorPtr
sector_plus p n = record { buf = p.buf + n * 512 }

abbrev sector_minus : SectorPtr → ℕ → SectorPtr
sector_minus p n = record { buf = p.buf - n * 512 }

abbrev sector_beq : SectorPtr → SectorPtr → Bool
sector_beq p q = p.buf == q.buf

pub sector_beq→eq : (p q : SectorPtr) → sector_beq p q ≡ true → p ≡ q
sector_beq→eq p q h = ground arith

pub sector_plus-zero : (p : SectorPtr) → sector_plus p 0 ≡ p
sector_plus-zero p = ground arith

pub sector_plus-plus :
    (p : SectorPtr) (m n : ℕ) → sector_plus (sector_plus p m) n ≡ sector_plus p (m + n)
sector_plus-plus p m n = ground arith

pub sector_minus-plus : (p : SectorPtr) (n : ℕ) → sector_minus (sector_plus p n) n ≡ p
sector_minus-plus p n = ground arith

instance abbrev pub sector_target : Target SectorPtr
sector_target = record {
  plus = sector_plus;
  minus = sector_minus;
  beq = sector_beq;
  beq→eq = sector_beq→eq;
  plus-zero = sector_plus-zero;
  plus-plus = sector_plus-plus;
  minus-plus = sector_minus-plus;
}
