-- ===== src/Format/Superblock/Reload.antt =====
-- src/objects.cc, `serialise_superblock` and `read_superblock`: what is written is read back.
use lsvd_rbd.Base.{
  drop-drop, ℕ, zero, suc, ◌+◌, ◌-◌, ◌*◌, ◌/◌, ◌%◌, ◌^◌, ◌<◌, ◌≡◌, refl, ◌∙◌, ltb, ltb-true,
  ltb-false, lt_or_le, inl, inr, if◌then◌else◌, some, List, [], ◌∷◌, ◌++◌, length, drop,
  drop-append, zero_sub, suc_sub, sub_zero, arith,
}
use lsvd_rbd.Format.{Bytes, le, decode, field, zeros, resize, blit}
use lsvd_rbd.Format.Bytes.{length-le, decode-le, drop_past, field-past, blit_front, blit_past}
use lsvd_rbd.Format.Headers.{
  lsvd_magic, common_hdr, read_common, length-common_hdr, read_common-common_hdr,
}
use lsvd_rbd.Format.Tables.{read_entries, table, All, length-table, read_entries-table}
use lsvd_rbd.Format.Fetch.{value}
use lsvd_rbd.Format.Superblock.{
  superblock, req_size, clone_bytes, write_clones, super_hdr, serialise_superblock, record_offsets,
  deserialise_ptrs_with_len, read_superblock,
}

-- A number spelled by bytes and zeros behind them.
decode-zeros : (w k : ℕ) → decode w (zeros k) ≡ 0
unfolding decode
decode-zeros zero k = refl
decode-zeros (suc w) zero = refl
decode-zeros (suc w) (suc k) = omega (arith, decode-zeros w k)

decode-append : (w : ℕ) (bs : Bytes) (k : ℕ) → decode w (bs ++ zeros k) ≡ decode w bs
unfolding decode
decode-append zero bs k = refl
decode-append (suc w) [] k = decode-zeros (suc w) k
decode-append (suc w) (b ∷ bs) k = rw (decode-append w bs k) refl

drop-zeros : (n k : ℕ) → drop n (zeros k) ≡ zeros (k - n)
drop-zeros zero k = rw (sub_zero k) refl
drop-zeros (suc n) zero = rw (zero_sub (suc n)) refl
drop-zeros (suc n) (suc k) = rw (suc_sub k n) (drop-zeros n k)

field-resize : (w off n : ℕ) (buf : Bytes) → field w off (resize n buf) ≡ field w off buf
unfolding field resize
field-resize w off n buf =
    rw
      (drop-append off buf (zeros (n - length buf)), drop-zeros (off - length buf) (n - length buf))
      (decode-append w (drop off buf) (n - length buf - (off - length buf)))

field-drop : (w m n : ℕ) (buf : Bytes) → field w m (drop n buf) ≡ field w (n + m) buf
unfolding field
field-drop w m n buf = rw (drop-drop m n buf) refl

length-super_hdr : (v a b c d : ℕ) → length (super_hdr v a b c d) ≡ 32
unfolding super_hdr
length-super_hdr v a b c d = refl

-- Three parts written one behind the other.
layout :
    (front hdr tab buf : Bytes)
    → length front ≡ 44
    → length hdr ≡ 32
    → blit 76 tab (blit 44 hdr (blit 0 front buf))
      ≡ front ++ (hdr ++ (tab ++ drop (length tab) (drop 32 (drop 44 buf))))
layout front hdr tab buf h k =
    rw
      (
        blit_front front buf,
        blit_past 44 hdr front (drop (length front) buf) (omega arith),
        h,
        blit_front hdr (drop 44 buf),
        blit_past 76 tab front (hdr ++ drop (length hdr) (drop 44 buf)) (omega arith),
        h,
        blit_past 32 tab hdr (drop (length hdr) (drop 44 buf)) (omega arith),
        k,
        blit_front tab (drop 32 (drop 44 buf)),
      )
      refl

module _ (buf : Bytes) (ckpts : List ℕ) (uuid : Bytes) (vol_size : ℕ) (u : length uuid ≡ 16)
    (fits : All (λ c. c < 2 ^ 32) ckpts) (few : length ckpts * 4 < 2 ^ 32) (vol : vol_size < 2 ^ 64)
    (no_clones : field 4 64 buf ≡ 0) where
  front : Bytes
  front = common_hdr uuid superblock 0 (req_size ckpts [] / 512) 0 0

  -- The buffer, long enough.
  space : Bytes
  space = if ltb (length buf) (req_size ckpts []) then resize (req_size ckpts []) buf else buf

  field-space : field 4 64 space ≡ 0
  unfolding space
  field-space = elim (lt_or_le (length buf) (req_size ckpts [])) [
    | inl short ↦
        rw
          (
            ltb-true (length buf) (req_size ckpts []) short,
            field-resize 4 64 (req_size ckpts []) buf,
          )
          no_clones
    | inr long ↦ rw (ltb-false (length buf) (req_size ckpts []) long) no_clones
  ]

  length-front : length front ≡ 44
  unfolding front
  length-front = length-common_hdr uuid superblock 0 (req_size ckpts [] / 512) 0 0 u

  -- The buffer that is written.
  written : Bytes
  written =
      front
      ++ (super_hdr (vol_size / 512) 76 (length ckpts * 4) 76 0
          ++ (table (le 4) ckpts ++ drop (length (table (le 4) ckpts)) (drop 32 (drop 44 space))))

  clones_kept : field 4 64 (blit 0 front space) ≡ 0
  clones_kept =
      rw
        (
          blit_front front space,
          field-past 4 64 front (drop (length front) space) (omega (arith, length-front)),
          length-front,
          field-drop 4 20 44 space,
        )
        field-space

  serialise_steps :
      serialise_superblock buf ckpts [] uuid vol_size
      ≡ some (
          blit 76 (table (le 4) ckpts) (
            blit 44
              (super_hdr
                (vol_size / 512)
                76
                (length ckpts * 4)
                76
                (field 4 64 (blit 0 front space)))
              (blit 0 front space)))
  unfolding serialise_superblock write_clones front space
  serialise_steps = refl

  serialise-written : serialise_superblock buf ckpts [] uuid vol_size ≡ some written
  unfolding written
  serialise-written =
      rw
        (
          serialise_steps,
          clones_kept,
          layout front (super_hdr (vol_size / 512) 76 (length ckpts * 4) 76 0) (table (le 4) ckpts)
              space length-front (length-super_hdr (vol_size / 512) 76 (length ckpts * 4) 76 0),
        )
        refl

  length-ckpts : length (table (le 4) ckpts) ≡ length ckpts * 4
  length-ckpts = length-table (le 4) 4 (length-le 4) ckpts

  -- What stands behind the common header.
  behind : Bytes
  behind =
      super_hdr (vol_size / 512) 76 (length ckpts * 4) 76 0
      ++ (table (le 4) ckpts ++ drop (length (table (le 4) ckpts)) (drop 32 (drop 44 space)))

  field-written : (w off : ℕ) → field w (44 + off) written ≡ field w off behind
  unfolding written behind
  field-written w off =
      let past : 44 + off - 44 ≡ off = omega arith in
      rw
        (
          field-past w (44 + off) front
              (super_hdr (vol_size / 512) 76 (length ckpts * 4) 76 0
                ++ (table (le 4) ckpts
                    ++ drop (length (table (le 4) ckpts)) (drop 32 (drop 44 space))))
              (omega (arith, length-front)),
          length-front,
          past,
        )
        refl

  volume : field 8 0 behind ≡ vol_size / 512
  unfolding behind super_hdr field
  volume = decode-le 8 (vol_size / 512) (drop 8 behind) (omega arith)

  ckpts_offset : field 4 8 behind ≡ 76
  unfolding behind super_hdr field decode
  ckpts_offset = refl

  ckpts_len : field 4 12 behind ≡ length ckpts * 4
  unfolding behind super_hdr field
  ckpts_len = decode-le 4 (length ckpts * 4) (drop 16 behind) (omega arith)

  clones_offset : field 4 16 behind ≡ 76
  unfolding behind super_hdr field decode
  clones_offset = refl

  clones_len : field 4 20 behind ≡ 0
  unfolding behind super_hdr field decode
  clones_len = refl

  snaps_len : field 4 28 behind ≡ 0
  unfolding behind super_hdr field decode
  snaps_len = refl

  tables :
      drop 76 written
      ≡ table (le 4) ckpts ++ drop (length (table (le 4) ckpts)) (drop 32 (drop 44 space))
  unfolding written super_hdr
  tables =
      rw
        (
          drop_past 76 front
              (super_hdr (vol_size / 512) 76 (length ckpts * 4) 76 0
                ++ (table (le 4) ckpts
                    ++ drop (length (table (le 4) ckpts)) (drop 32 (drop 44 space))))
              (omega (arith, length-front)),
          length-front,
        )
        refl

  ckpts_read : read_entries (decode 4) 4 (length ckpts * 4 / 4) (drop 76 written) ≡ ckpts
  ckpts_read =
      let count : length ckpts * 4 / 4 ≡ length ckpts = omega arith in
      rw (tables, count)
        (read_entries-table (le 4) 4 (length-le 4) (decode 4) (λ c. c < 2 ^ 32) (decode-le 4) ckpts
          (drop (length (table (le 4) ckpts)) (drop 32 (drop 44 space))) fits)

  common : read_common written ≡ record {
    magic = lsvd_magic;
    version = 1;
    vol_uuid = uuid;
    obj_type = superblock;
    seq = 0;
    hdr_sectors = req_size ckpts [] / 512;
    data_sectors = 0;
    crc = 0;
  }
  unfolding written front req_size clone_bytes
  common =
      read_common-common_hdr uuid superblock 0 (req_size ckpts [] / 512) 0 0
        (super_hdr (vol_size / 512) 76 (length ckpts * 4) 76 0
          ++ (table (le 4) ckpts ++ drop (length (table (le 4) ckpts)) (drop 32 (drop 44 space))))
        u (omega arith) (omega arith) (omega arith) (omega arith) (omega arith)

  read-written :
      read_superblock (some written)
      ≡ value (record {
        superblock_buf = written;
        vol_size = vol_size / 512 * 512;
        ckpts = ckpts;
        clones = [];
        snaps = [];
        uuid = uuid;
      })
  unfolding read_superblock deserialise_ptrs_with_len record_offsets
  read-written =
      let whole : (vol_size / 512 * 512) % 2 ^ 64 ≡ vol_size / 512 * 512 = omega arith in
      rw
        (
          common,
          field-written 8 0,
          field-written 4 8,
          field-written 4 12,
          field-written 4 16,
          field-written 4 20,
          field-written 4 24,
          field-written 4 28,
          volume,
          ckpts_offset,
          ckpts_len,
          clones_len,
          snaps_len,
          whole,
          ckpts_read,
        )
        refl

  -- A superblock that is written for an image without clones is read back: its checkpoints, its identifier
  -- and its size in whole sectors, whatever buffer it is written over, if that holds no length of clones;
  -- and the buffer holds none afterwards.
  pub read_superblock-serialise_superblock :
      (w : Bytes) × ((serialise_superblock buf ckpts [] uuid vol_size ≡ some w)
        × (read_superblock (some w)
            ≡ value (record {
              superblock_buf = w;
              vol_size = vol_size / 512 * 512;
              ckpts = ckpts;
              clones = [];
              snaps = [];
              uuid = uuid;
            }))
        × (field 4 64 w ≡ 0))
  read_superblock-serialise_superblock =
      (written, (serialise-written, read-written, field-written 4 20 ∙ clones_len))
