-- ===== src/Format/Checkpoint/Entries.antt =====
-- src/objects.h, `ckpt_obj`, `ckpt_mapentry` and the layout of a checkpoint object: what is written is read
-- back.
use lsvd_rbd.Base.{
  ℕ, ◌+◌, ◌-◌, ◌*◌, ◌/◌, ◌%◌, ◌^◌, ◌<◌, ◌≡◌, refl, ap, ◌∙◌, ◌++◌, length, drop, arith,
}
use lsvd_rbd.Base.Int.{pos}
use lsvd_rbd.Translate.{Entry, ObjInfo, CkptMapentry, signed}
use lsvd_rbd.Translate.Checkpointing.Fields.{signed-pos}
use lsvd_rbd.Format.{Bytes, le, decode, blit}
use lsvd_rbd.Format.Bytes.{decode-le, blit_front, blit_past}
use lsvd_rbd.Format.Checkpoint.{put_obj, read_obj, put_mapentry, read_mapentry, ckpt_hdr}

abbrev pub ObjFits : ℕ × ObjInfo → Type 0
ObjFits (seq, i) = (seq < 2 ^ 32) × (i.hdr < 2 ^ 32) × (i.data_len < 2 ^ 32) × (i.live < 2 ^ 32)

-- Below the sign of each field.
abbrev pub EntryFits : Entry → Type 0
EntryFits e = (e.lba < 2 ^ 35) × (e.len < 2 ^ 27) × (e.obj < 2 ^ 31) × (e.offset < 2 ^ 31)

abbrev pub shown : Entry → CkptMapentry
shown e = record { lba = pos e.lba; len = pos e.len; obj = pos e.obj; offset = pos e.offset }

pub length-put_obj : (x : ℕ × ObjInfo) → length (put_obj x) ≡ 16
unfolding put_obj
length-put_obj (seq, i) = refl

pub length-put_mapentry : (e : Entry) → length (put_mapentry e) ≡ 16
unfolding put_mapentry
length-put_mapentry e = refl

pub read_obj-put_obj :
    (x : ℕ × ObjInfo) (rest : Bytes) → ObjFits x → read_obj (put_obj x ++ rest) ≡ x
unfolding read_obj put_obj
read_obj-put_obj (seq, i) rest (a, b, c, d) =
    let after₁ : Bytes = le 4 i.hdr ++ (le 4 i.data_len ++ (le 4 i.live ++ rest)) in
    λ k. (
      decode-le 4 seq after₁ a k,
      record {
        hdr = decode-le 4 i.hdr (le 4 i.data_len ++ (le 4 i.live ++ rest)) b k;
        data_len = decode-le 4 i.data_len (le 4 i.live ++ rest) c k;
        live = decode-le 4 i.live rest d k;
      },
    )

pub read_mapentry-put_mapentry :
    (e : Entry) (rest : Bytes) → EntryFits e → read_mapentry (put_mapentry e ++ rest) ≡ shown e
unfolding read_mapentry put_mapentry
read_mapentry-put_mapentry e rest (a, b, c, d) =
    let v : ℕ = e.lba % 2 ^ 36 + 2 ^ 36 * (e.len % 2 ^ 28) in
    let first : decode 8 (le 8 v ++ (le 4 e.obj ++ (le 4 e.offset ++ rest))) ≡ v =
      decode-le 8 v (le 4 e.obj ++ (le 4 e.offset ++ rest)) (omega arith) in
    let lo : v % 2 ^ 36 ≡ e.lba = omega arith in
    let hi : v / 2 ^ 36 ≡ e.len = omega arith in
    let lba : signed 36 (decode 8 (le 8 v ++ (le 4 e.obj ++ (le 4 e.offset ++ rest))) % 2 ^ 36)
        ≡ pos e.lba =
      ap (λ t. signed 36 (t % 2 ^ 36)) first
      ∙ (ap (signed 36) lo ∙ signed-pos 36 e.lba (omega arith)) in
    let len : signed 28 (decode 8 (le 8 v ++ (le 4 e.obj ++ (le 4 e.offset ++ rest))) / 2 ^ 36)
        ≡ pos e.len =
      ap (λ t. signed 28 (t / 2 ^ 36)) first
      ∙ (ap (signed 28) hi ∙ signed-pos 28 e.len (omega arith)) in
    let obj : signed 32 (decode 4 (le 4 e.obj ++ (le 4 e.offset ++ rest))) ≡ pos e.obj =
      ap (signed 32) (decode-le 4 e.obj (le 4 e.offset ++ rest) (omega arith))
      ∙ signed-pos 32 e.obj (omega arith) in
    let offset : signed 32 (decode 4 (le 4 e.offset ++ rest)) ≡ pos e.offset =
      ap (signed 32) (decode-le 4 e.offset rest (omega arith))
      ∙ signed-pos 32 e.offset (omega arith) in
    λ k. record { lba = lba k; len = len k; obj = obj k; offset = offset k }

pub length-ckpt_hdr : (a b c d e : ℕ) → length (ckpt_hdr a b c d e) ≡ 40
unfolding ckpt_hdr
length-ckpt_hdr a b c d e = refl

-- Four parts written one behind the other.
pub layout :
    (front hdr objs maps buf : Bytes) (n : ℕ)
    → length front ≡ 44
    → length hdr ≡ 40
    → length objs ≡ n
    → blit (84 + n) maps (blit 84 objs (blit 44 hdr (blit 0 front buf)))
      ≡ front ++ (hdr ++ (objs ++ (maps ++ drop (length maps) (drop n (drop 40 (drop 44 buf))))))
layout front hdr objs maps buf n h k l =
    let rest : Bytes = drop 40 (drop 44 buf) in
    let in_hdr : 84 + n - 44 ≡ 40 + n = omega arith in
    let in_objs : 40 + n - 40 ≡ n = omega arith in
    let in_maps : n - n ≡ 0 = omega arith in
    rw
      (
        blit_front front buf,
        blit_past 44 hdr front (drop (length front) buf) (omega arith),
        h,
        blit_front hdr (drop 44 buf),
        blit_past 84 objs front (hdr ++ drop (length hdr) (drop 44 buf)) (omega arith),
        h,
        blit_past 40 objs hdr (drop (length hdr) (drop 44 buf)) (omega arith),
        k,
        blit_front objs rest,
        blit_past (84 + n) maps front (hdr ++ (objs ++ drop (length objs) rest)) (omega arith),
        h,
        in_hdr,
        blit_past (40 + n) maps hdr (objs ++ drop (length objs) rest) (omega arith),
        k,
        in_objs,
        blit_past n maps objs (drop (length objs) rest) (omega arith),
        l,
        in_maps,
        blit_front maps (drop n rest),
      )
      refl
