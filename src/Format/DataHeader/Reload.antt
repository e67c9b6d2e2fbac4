-- ===== src/Format/DataHeader/Reload.antt =====
-- src/translate.cc, `make_obj_hdr`, and src/objects.cc, `read_data_hdr`: what is written is read back.
use lsvd_rbd.Base.{
  ℕ, ◌+◌, ◌-◌, ◌*◌, ◌/◌, ◌^◌, ◌≤◌, ◌<◌, ◌≡◌, refl, sym, ◌∙◌, Bool, true, false, leb, leb-true,
  leb→le, if◌then◌else◌, Bool-cases, inl, inr, some, List, [], ◌++◌, length, append_assoc,
  length-append, arith,
}
use mathlib.Core.Option.{some-injective, none-ne-some}
use lsvd_rbd.Format.{Bytes, decode, field, zeros}
use lsvd_rbd.Format.Bytes.{length-zeros, spelled, drop_past}
use lsvd_rbd.Format.Headers.{
  lsvd_magic, common_hdr, read_common, length-common_hdr, read_common-common_hdr,
}
use lsvd_rbd.Format.Tables.{
  deserialise_ptrs, table, All, length-table, read_entries-table, put_map, read_map, MapFits,
  length-put_map, read_map-put_map,
}
use lsvd_rbd.Format.Fetch.{
  Fetched, value, and_then, fetch_object_header, HeaderThere, GivesPrefix, fetch-HeaderThere,
}
use lsvd_rbd.Format.DataHeader.{
  logdata, data_hdr, hdr_body, make_obj_hdr, ParsedDataHdr, read_obj_data_hdr, parse_data_hdr,
  read_data_hdr,
}

-- What is read back of a header.
abbrev pub reloaded : (Bytes → ℕ) → Bytes → ℕ → ℕ → ℕ → List (ℕ × ℕ) → Bool → ParsedDataHdr
reloaded crc32 uuid seq hdr_sectors data_sectors extents is_gc = record {
  hdr = record {
    magic = lsvd_magic;
    version = 1;
    vol_uuid = uuid;
    obj_type = logdata;
    seq = seq;
    hdr_sectors = hdr_sectors;
    data_sectors = data_sectors;
    crc = crc32 (
        common_hdr uuid logdata seq hdr_sectors data_sectors 0
        ++ hdr_body hdr_sectors extents is_gc);
  };
  data_hdr = record {
    cache_seq = 0;
    objs_cleaned_offset = 0;
    objs_cleaned_len = 0;
    data_map_offset = 72;
    data_map_len = length extents * 8;
    is_gc = if is_gc then 1 else 0;
  };
  cleaned = [];
  data_map = extents;
}

module _ (crc32 : Bytes → ℕ) (sum_fits : (bs : Bytes) → crc32 bs < 2 ^ 32) (uuid : Bytes)
    (u : length uuid ≡ 16) (seq hdr_sectors data_sectors : ℕ) (extents : List (ℕ × ℕ))
    (is_gc : Bool) (seq_fits : seq < 2 ^ 32) (data_fits : data_sectors < 2 ^ 32)
    (hdr_fits : hdr_sectors * 512 < 2 ^ 32) (fits : All MapFits extents) where
  sum : ℕ
  sum =
      crc32 (
        common_hdr uuid logdata seq hdr_sectors data_sectors 0
        ++ hdr_body hdr_sectors extents is_gc)

  front : Bytes
  front = common_hdr uuid logdata seq hdr_sectors data_sectors sum

  front_reads :
      (rest : Bytes)
      → read_common (front ++ rest)
        ≡ (reloaded crc32 uuid seq hdr_sectors data_sectors extents is_gc).hdr
  unfolding front sum
  front_reads rest =
      read_common-common_hdr uuid logdata seq hdr_sectors data_sectors sum rest u (omega arith)
        (omega arith) (omega arith) (omega arith)
        (omega (
          arith,
          sum_fits (
              common_hdr uuid logdata seq hdr_sectors data_sectors 0
              ++ hdr_body hdr_sectors extents is_gc),
        ))

  length-front : length front ≡ 44
  unfolding front
  length-front = length-common_hdr uuid logdata seq hdr_sectors data_sectors sum u

  length-table_maps : length (table put_map extents) ≡ length extents * 8
  length-table_maps = length-table put_map 8 length-put_map extents

  flag_small : (b : Bool) → (if b then 1 else 0) < 256 ^ 4
  flag_small true = omega arith
  flag_small false = omega arith

  asserted :
      (hdr : Bytes)
      → make_obj_hdr crc32 uuid seq hdr_sectors data_sectors extents is_gc ≡ some hdr
      → 72 + length extents * 8 ≤ hdr_sectors * 512
  unfolding make_obj_hdr
  asserted hdr made = elim (Bool-cases (leb (72 + length extents * 8) (hdr_sectors * 512))) [
    | inl t ↦ leb→le (72 + length extents * 8) (hdr_sectors * 512) t
    | inr short ↦ absurd (none-ne-some hdr (rw (short) at made))
  ]

  module _ (enough : 72 + length extents * 8 ≤ hdr_sectors * 512) where
    length-body : length (front ++ hdr_body hdr_sectors extents is_gc) ≡ hdr_sectors * 512
    unfolding hdr_body
    length-body =
        rw
          (
            length-append front (hdr_body hdr_sectors extents is_gc),
            length-front,
            length-append (table put_map extents)
                (zeros (512 * hdr_sectors - (72 + length extents * 8))),
            length-table_maps,
            length-zeros (512 * hdr_sectors - (72 + length extents * 8)),
          )
          (omega arith)

    -- The buffer behind the common header.
    behind : Bytes → Bytes
    behind more =
        data_hdr (length extents * 8) is_gc
        ++ (table put_map extents
            ++ (zeros (512 * hdr_sectors - (72 + length extents * 8)) ++ more))

    behind_front :
        (more : Bytes)
        → ((front ++ hdr_body hdr_sectors extents is_gc) ++ more) ≡ (front ++ behind more)
    unfolding hdr_body behind
    behind_front more =
        rw
          (
            append_assoc front (hdr_body hdr_sectors extents is_gc) more,
            append_assoc (table put_map extents)
                (zeros (512 * hdr_sectors - (72 + length extents * 8))) more,
          )
          refl

    front_data_hdr :
        (more : Bytes)
        → read_obj_data_hdr (front ++ behind more)
          ≡ (reloaded crc32 uuid seq hdr_sectors data_sectors extents is_gc).data_hdr
    unfolding read_obj_data_hdr field decode behind
    front_data_hdr more =
        let y : Bytes = behind more in
        rw
          (
            drop_past 44 front y (omega (arith, length-front)),
            drop_past 52 front y (omega (arith, length-front)),
            drop_past 56 front y (omega (arith, length-front)),
            drop_past 60 front y (omega (arith, length-front)),
            drop_past 64 front y (omega (arith, length-front)),
            drop_past 68 front y (omega (arith, length-front)),
            length-front,
          )
          (λ i. record {
            cache_seq = 0;
            objs_cleaned_offset = 0;
            objs_cleaned_len = 0;
            data_map_offset = 72;
            data_map_len = spelled 4 (length extents * 8) (omega arith) i;
            is_gc = spelled 4 (if is_gc then 1 else 0) (flag_small is_gc) i;
          })

    front_maps :
        (more : Bytes)
        → deserialise_ptrs read_map 8 (front ++ behind more) 72 (length extents * 8) ≡ extents
    unfolding deserialise_ptrs behind
    front_maps more =
        let count : length extents * 8 / 8 ≡ length extents = omega arith in
        rw (drop_past 72 front (behind more) (omega (arith, length-front)), length-front, count)
          (read_entries-table put_map 8 length-put_map read_map MapFits read_map-put_map extents
            (zeros (512 * hdr_sectors - (72 + length extents * 8)) ++ more) fits)

    parse_front :
        (more : Bytes)
        → parse_data_hdr ((front ++ hdr_body hdr_sectors extents is_gc) ++ more)
          ≡ value (reloaded crc32 uuid seq hdr_sectors data_sectors extents is_gc)
    unfolding parse_data_hdr sum deserialise_ptrs
    parse_front more =
        rw (behind_front more, front_reads (behind more), front_data_hdr more, front_maps more) refl

    make_obj_hdr-front :
        make_obj_hdr crc32 uuid seq hdr_sectors data_sectors extents is_gc
        ≡ some (front ++ hdr_body hdr_sectors extents is_gc)
    unfolding make_obj_hdr front sum
    make_obj_hdr-front = rw (leb-true (72 + length extents * 8) (hdr_sectors * 512) enough) refl

    -- Reading the object back from a backend that gives the first bytes of it, whatever data follow, gives
    -- the fields and the map that the header was made of, whether the header fits the first read or not.
    read_back :
        (read : ℕ → Fetched) (payload : Bytes)
        → GivesPrefix read ((front ++ hdr_body hdr_sectors extents is_gc) ++ payload)
        → read_data_hdr read
          ≡ value (reloaded crc32 uuid seq hdr_sectors data_sectors extents is_gc)
    unfolding read_data_hdr and_then
    read_back read payload gives =
        let f : HeaderThere (front ++ hdr_body hdr_sectors extents is_gc)
            (fetch_object_header read) =
          fetch-HeaderThere read
            (reloaded crc32 uuid seq hdr_sectors data_sectors extents is_gc).hdr front
            (hdr_body hdr_sectors extents is_gc) payload length-body front_reads length-front refl
            refl (omega arith) hdr_fits gives in
        rw (f.there) (parse_front f.more)

  -- A header that make_obj_hdr makes, whose numbers fit their fields, is read back by read_data_hdr: from
  -- a backend that gives the first bytes of the object, whatever data follow the header and whether the
  -- header fits the first read or not, the fields and the map are those that it was made of.
  pub read_data_hdr-make_obj_hdr :
      (hdr : Bytes)
      → make_obj_hdr crc32 uuid seq hdr_sectors data_sectors extents is_gc ≡ some hdr
      → (read : ℕ → Fetched) (payload : Bytes) → GivesPrefix read (hdr ++ payload)
      → read_data_hdr read ≡ value (reloaded crc32 uuid seq hdr_sectors data_sectors extents is_gc)
  read_data_hdr-make_obj_hdr hdr made read payload gives =
      let enough : 72 + length extents * 8 ≤ hdr_sectors * 512 = asserted hdr made in
      let same : front ++ hdr_body hdr_sectors extents is_gc ≡ hdr =
        some-injective (front ++ hdr_body hdr_sectors extents is_gc) hdr
          (sym (make_obj_hdr-front enough) ∙ made) in
      read_back enough read payload (rw (sym same) at gives)
