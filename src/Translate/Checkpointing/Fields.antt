-- ===== src/Translate/Checkpointing/Fields.antt =====
-- src/objects.h, `ckpt_obj` and `ckpt_mapentry`: numbers that their fields can hold.
use lsvd_rbd.Base.{
  ℕ, ◌-◌, ◌*◌, ◌%◌, ◌^◌, ◌<◌, ◌≡◌, refl, ap, ◌∙◌, ltb-true, List, [], ◌∷◌, map, arith,
}
use lsvd_rbd.Base.Int.{pos}
use lsvd_rbd.Extent.{Extent, limit}
use lsvd_rbd.Extent.Pointers.{ObjOffset, obj_target}
use lsvd_rbd.Translate.{ObjInfo, CkptMapentry, signed}
use lsvd_rbd.Translate.Checkpointing.{entry_of, obj_of}

pub signed-pos : (w v : ℕ) → v * 2 < 2 ^ w → signed w v ≡ pos v
unfolding signed
signed-pos w v h = rw (ltb-true (v * 2) (2 ^ w) h) refl

-- Each number of an extent stays below the sign of its field.
abbrev pub AllFit : List (Extent ObjOffset) → Type 0
AllFit [] = Unit {0}
AllFit (e ∷ es) =
    (e.base < 2 ^ 35)
    × (limit e - e.base < 2 ^ 27)
    × (e.ptr.obj < 2 ^ 31)
    × (e.ptr.offset < 2 ^ 31)
    × AllFit es

abbrev pub AllInfosFit : List (ℕ × ObjInfo) → Type 0
AllInfosFit [] = Unit {0}
AllInfosFit ((seq, i) ∷ os) =
    (seq < 2 ^ 32) × (i.hdr < 2 ^ 32) × (i.data_len < 2 ^ 32) × (i.live < 2 ^ 32) × AllInfosFit os

abbrev pub whole_entry : Extent ObjOffset → CkptMapentry
whole_entry e = record {
  lba = pos e.base;
  len = pos (limit e - e.base);
  obj = pos e.ptr.obj;
  offset = pos e.ptr.offset;
}

cut_lem : (w v n : ℕ) → v % n ≡ v → v * 2 < 2 ^ w → signed w (v % n) ≡ pos v
cut_lem w v n same h = ap (signed w) same ∙ signed-pos w v h

pub map-entry_of : (es : List (Extent ObjOffset)) → AllFit es → map entry_of es ≡ map whole_entry es
unfolding entry_of
map-entry_of [] h = refl
map-entry_of (e ∷ es) (a, b, c, d, f) =
    let lba = cut_lem 36 e.base (2 ^ 36) (omega arith) (omega arith) in
    let len = cut_lem 28 (limit e - e.base) (2 ^ 28) (omega arith) (omega arith) in
    let obj = cut_lem 32 e.ptr.obj (2 ^ 32) (omega arith) (omega arith) in
    let offset = cut_lem 32 e.ptr.offset (2 ^ 32) (omega arith) (omega arith) in
    let rest = map-entry_of es f in
    λ k. record { lba = lba k; len = len k; obj = obj k; offset = offset k } ∷ rest k

pub map-obj_of : (os : List (ℕ × ObjInfo)) → AllInfosFit os → map obj_of os ≡ os
unfolding obj_of
map-obj_of [] h = refl
map-obj_of ((seq, i) ∷ os) (a, b, c, d, f) =
    let num : seq % 2 ^ 32 ≡ seq = omega arith in
    let hdr : i.hdr % 2 ^ 32 ≡ i.hdr = omega arith in
    let data_len : i.data_len % 2 ^ 32 ≡ i.data_len = omega arith in
    let live : i.live % 2 ^ 32 ≡ i.live = omega arith in
    let rest = map-obj_of os f in
    λ k. (num k, record { hdr = hdr k; data_len = data_len k; live = live k }) ∷ rest k
