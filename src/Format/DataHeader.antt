-- ===== src/Format/DataHeader.antt =====
-- src/translate.cc, `make_obj_hdr`, and src/objects.cc, `object_reader::read_data_hdr`: the header of a
-- data object as it is written and as recovery reads it. `crc32` is that of zlib.
pub mod Reload
use lsvd_rbd.Base.{
  ℕ, zero, suc, ◌+◌, ◌-◌, ◌*◌, ◌/◌, ◌%◌, ◌^◌, ◌≤◌, ◌<◌, ◌≡◌, refl, sym, ap, ◌∙◌, Bool, true, false,
  not, leb, leb-true, leb→le, ◌==◌, if◌then◌else◌, Bool-cases, inl, inr, Option, none, some, List,
  [], ◌∷◌, ◌++◌, length, drop, append_assoc, length-append, arith,
}
use mathlib.Core.Option.{some-injective, none-ne-some}
use lsvd_rbd.Format.{Bytes, le, decode, field, zeros}
use lsvd_rbd.Format.Bytes.{
  length-le, length-zeros, spelled, decode-le, drop_past, drop_front, field-past,
}
use lsvd_rbd.Format.Headers.{
  CommonHdr, lsvd_magic, common_hdr, read_common, length-common_hdr, read_common-common_hdr,
}
use lsvd_rbd.Format.Tables.{
  read_entries, deserialise_ptrs, table, All, length-table, read_entries-table, put_map, read_map,
  MapFits, length-put_map, read_map-put_map,
}
use lsvd_rbd.Format.Fetch.{
  Fetched, Outcome, value, nullopt, thrown, and_then, fetch_object_header, HeaderThere, GivesPrefix,
  fetch-HeaderThere,
}

abbrev pub logdata : ℕ
logdata = 2

-- `obj_data_hdr`
pub record ObjDataHdr : Type 0 where
  pub cache_seq : ℕ
  pub objs_cleaned_offset : ℕ
  pub objs_cleaned_len : ℕ
  pub data_map_offset : ℕ
  pub data_map_len : ℕ
  pub is_gc : ℕ

abbrev pub data_hdr : ℕ → Bool → Bytes
data_hdr map_len is_gc =
    le 8 0 ++ (le 4 0 ++ (le 4 0 ++ (le 4 72 ++ (le 4 map_len ++ le 4 (if is_gc then 1 else 0)))))

-- What stands behind the common header: `map_offset` is 72, and the rest of the sectors is cleared.
pub hdr_body : ℕ → List (ℕ × ℕ) → Bool → Bytes
unfolding put_map table
hdr_body hdr_sectors extents is_gc =
    data_hdr (length extents * 8) is_gc
    ++ (table put_map extents ++ zeros (512 * hdr_sectors - (72 + length extents * 8)))

-- The header as it is put before the data of an object; `none` is the first assertion. The second
-- holds by the way the table is written. The sum is over the header with a sum of 0.
unfoldable pub make_obj_hdr : (Bytes → ℕ) → Bytes → ℕ → ℕ → ℕ → List (ℕ × ℕ) → Bool → Option Bytes
unfolding hdr_body common_hdr
make_obj_hdr crc32 uuid seq hdr_sectors data_sectors extents is_gc =
    let body = hdr_body hdr_sectors extents is_gc in
    let crc = crc32 (common_hdr uuid logdata seq hdr_sectors data_sectors 0 ++ body) in
    if leb (72 + length extents * 8) (hdr_sectors * 512)
    then some (common_hdr uuid logdata seq hdr_sectors data_sectors crc ++ body)
    else none

-- `parsed_data_hdr`
pub record ParsedDataHdr : Type 0 where
  pub hdr : CommonHdr
  pub data_hdr : ObjDataHdr
  pub cleaned : List (ℕ × ℕ)
  pub data_map : List (ℕ × ℕ)

-- `obj_cleaned`
unfoldable pub read_cleaned : Bytes → ℕ × ℕ
read_cleaned bs = (decode 4 bs, decode 4 (drop 4 bs))

unfoldable pub read_obj_data_hdr : Bytes → ObjDataHdr
unfolding field
read_obj_data_hdr buf = record {
  cache_seq = field 8 44 buf;
  objs_cleaned_offset = field 4 52 buf;
  objs_cleaned_len = field 4 56 buf;
  data_map_offset = field 4 60 buf;
  data_map_len = field 4 64 buf;
  is_gc = field 4 68 buf;
}

unfoldable pub parse_data_hdr : Bytes → Outcome ParsedDataHdr
parse_data_hdr buf =
    let h = read_common buf in
    let d = read_obj_data_hdr buf in
    if h.obj_type == logdata
    then value (record {
      hdr = h;
      data_hdr = d;
      cleaned = deserialise_ptrs read_cleaned 8 buf d.objs_cleaned_offset d.objs_cleaned_len;
      data_map = deserialise_ptrs read_map 8 buf d.data_map_offset d.data_map_len;
    })
    else nullopt

unfoldable pub read_data_hdr : (ℕ → Fetched) → Outcome ParsedDataHdr
unfolding fetch_object_header and_then parse_data_hdr
read_data_hdr read = and_then (fetch_object_header read) parse_data_hdr
