-- ===== src/Format/Headers.antt =====
-- src/objects.h, `common_obj_hdr`, and the tables of fixed-size entries, with `deserialise_ptrs` and
-- `deserialise_cpy` of src/objects.cc, which differ in what they keep of an entry.
use lsvd_rbd.Base.{
  ℕ, ◌+◌, ◌-◌, ◌^◌, ◌<◌, ◌≡◌, refl, ◌++◌, length, take, drop, append_assoc, length-append, arith,
}
use lsvd_rbd.Format.{Bytes, le, decode, field}
use lsvd_rbd.Format.Bytes.{spelled, drop_past, take_front}

abbrev pub lsvd_magic : ℕ
lsvd_magic = 1146508108

pub record CommonHdr : Type 0 where
  pub magic : ℕ
  pub version : ℕ
  pub vol_uuid : Bytes
  pub obj_type : ℕ
  pub seq : ℕ
  pub hdr_sectors : ℕ
  pub data_sectors : ℕ
  pub crc : ℕ

-- The numbers behind the identifier of the volume.
abbrev pub hdr_numbers : ℕ → ℕ → ℕ → ℕ → ℕ → Bytes
hdr_numbers obj_type seq hdr payload crc =
    le 4 obj_type ++ (le 4 seq ++ (le 4 hdr ++ (le 4 payload ++ le 4 crc)))

-- `serialise_common_hdr`: the bytes of the header.
unfoldable pub common_hdr : Bytes → ℕ → ℕ → ℕ → ℕ → ℕ → Bytes
common_hdr uuid obj_type seq hdr payload crc =
    le 4 lsvd_magic ++ (le 4 1 ++ (uuid ++ hdr_numbers obj_type seq hdr payload crc))

-- The header at the start of a buffer.
unfoldable pub read_common : Bytes → CommonHdr
read_common buf = record {
  magic = field 4 0 buf;
  version = field 4 4 buf;
  vol_uuid = take 16 (drop 8 buf);
  obj_type = field 4 24 buf;
  seq = field 4 28 buf;
  hdr_sectors = field 4 32 buf;
  data_sectors = field 4 36 buf;
  crc = field 4 40 buf;
}

pub length-common_hdr :
    (uuid : Bytes) (obj_type seq hdr payload crc : ℕ)
    → length uuid ≡ 16
    → length (common_hdr uuid obj_type seq hdr payload crc) ≡ 44
unfolding common_hdr
length-common_hdr uuid obj_type seq hdr payload crc h =
    rw (length-append uuid (hdr_numbers obj_type seq hdr payload crc), h) refl

-- Numbers that fit the fields are read back.
module _ (uuid : Bytes) (obj_type seq hdr payload crc : ℕ) (rest : Bytes)
    (u : length uuid ≡ 16) where
  behind :
      (n : ℕ)
      → drop (16 + n) (uuid ++ (hdr_numbers obj_type seq hdr payload crc ++ rest))
        ≡ drop n (hdr_numbers obj_type seq hdr payload crc ++ rest)
  behind n =
      let past : 16 + n - 16 ≡ n = omega arith in
      rw
        (
          drop_past (16 + n) uuid (hdr_numbers obj_type seq hdr payload crc ++ rest) (omega arith),
          u,
          past,
        )
        refl

  pub read_common-common_hdr :
      obj_type < 256 ^ 4
      → seq < 256 ^ 4
      → hdr < 256 ^ 4
      → payload < 256 ^ 4
      → crc < 256 ^ 4
      → read_common (common_hdr uuid obj_type seq hdr payload crc ++ rest) ≡ record {
        magic = lsvd_magic;
        version = 1;
        vol_uuid = uuid;
        obj_type = obj_type;
        seq = seq;
        hdr_sectors = hdr;
        data_sectors = payload;
        crc = crc;
      }
  unfolding read_common common_hdr field decode
  read_common-common_hdr a b c d e =
      rw
        (
          append_assoc uuid (hdr_numbers obj_type seq hdr payload crc) rest,
          behind 0,
          behind 4,
          behind 8,
          behind 12,
          behind 16,
        )
        (rw (take_front 16 uuid (hdr_numbers obj_type seq hdr payload crc ++ rest) u) (λ i. record {
          magic = lsvd_magic;
          version = 1;
          vol_uuid = uuid;
          obj_type = spelled 4 obj_type a i;
          seq = spelled 4 seq b i;
          hdr_sectors = spelled 4 hdr c i;
          data_sectors = spelled 4 payload d i;
          crc = spelled 4 crc e i;
        }))
