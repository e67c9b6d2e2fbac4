-- ===== src/ReadCache/Key.antt =====
-- src/shared_read_cache.cc, `chunk_key`: the test for equal keys, and the map of keys.
use text.Mathlib.Text
use text.Mathlib.TextEquality.{eq_iff}
use text.Mathlib.TextPositions.{eq_refl}
use lsvd_rbd.Base.{ℕ, ◌==◌, ◌≡◌, refl, Bool, true, ◌&&◌, arith}
use lsvd_rbd.ReadCache.{ChunkKey, key_beq}

and_left : (a b : Bool) → (a && b) ≡ true → a ≡ true
and_left a b h = ground arith

and_right : (a b : Bool) → (a && b) ≡ true → b ≡ true
and_right a b h = ground arith

beq→eq : (a b : ℕ) → (a == b) ≡ true → a ≡ b
beq→eq a b h = ground arith

pub beq_self : (a : ℕ) → (a == a) ≡ true
beq_self a = ground arith

pub key_beq_self : (k : ChunkKey) → key_beq k k ≡ true
unfolding key_beq
key_beq_self k = rw (eq_refl k.img_prefix, beq_self k.seqnum, beq_self k.obj_offset) refl

pub key_beq→eq : (k j : ChunkKey) → key_beq k j ≡ true → k ≡ j
unfolding key_beq
key_beq→eq k j h =
    let names = Text.◌==◌ k.img_prefix j.img_prefix in
    let nums = k.seqnum == j.seqnum in
    let offs = k.obj_offset == j.obj_offset in
    let p = (eq_iff k.img_prefix j.img_prefix).0 (and_left names (nums && offs) h) in
    let q = beq→eq k.seqnum j.seqnum (and_left nums offs (and_right names (nums && offs) h)) in
    let r =
      beq→eq k.obj_offset j.obj_offset (and_right nums offs (and_right names (nums && offs) h)) in
    λ i. record { img_prefix = p i; seqnum = q i; obj_offset = r i }
