-- ===== src/Format/Checkpoint/Reload.antt =====
-- src/translate.cc, `write_checkpoint`, and src/objects.cc, `read_checkpoint`: a checkpoint that is
-- written is read back.
use lsvd_rbd.Base.{
  ℕ, ◌+◌, ◌-◌, ◌*◌, ◌/◌, ◌^◌, ◌≤◌, ◌<◌, ◌≡◌, refl, ap, ◌∙◌, List, [], ◌++◌, map, length, drop,
  append_assoc, append_nil, length-append, length-drop, arith,
}
use lsvd_rbd.Translate.{Entry, ObjInfo}
use lsvd_rbd.Format.{Bytes, decode, field, zeros}
use lsvd_rbd.Format.Bytes.{length-zeros, decode-le, drop_past, drop_front, field-past}
use lsvd_rbd.Format.Headers.{
  CommonHdr, lsvd_magic, common_hdr, read_common, length-common_hdr, read_common-common_hdr,
}
use lsvd_rbd.Format.Tables.{
  read_entries, deserialise_ptrs, table, All, length-table, read_entries-table, read_entries-shown,
}
use lsvd_rbd.Format.Fetch.{
  Fetched, value, and_then, fetch_object_header, HeaderThere, GivesPrefix, fetch-HeaderThere,
}
use lsvd_rbd.Format.Checkpoint.{
  checkpoint_type, put_obj, read_obj, put_mapentry, read_mapentry, ckpt_hdr, ckpt_sectors,
  checkpoint_bytes, parse_checkpoint, read_checkpoint,
}
use lsvd_rbd.Format.Checkpoint.Entries.{
  ObjFits, EntryFits, shown, length-put_obj, length-put_mapentry, read_obj-put_obj,
  read_mapentry-put_mapentry, length-ckpt_hdr, layout,
}

module _ (uuid : Bytes) (u : length uuid ≡ 16) (cp_seq cache_seq : ℕ) (objects : List (ℕ × ObjInfo))
    (dmap : List Entry) (seq_fits : cp_seq < 2 ^ 32) (cache_fits : cache_seq < 2 ^ 64)
    (size_fits : ckpt_sectors objects dmap * 512 < 2 ^ 32) (objs_fit : All ObjFits objects)
    (map_fits : All EntryFits dmap) where
  abbrev common : CommonHdr
  common = record {
    magic = lsvd_magic;
    version = 1;
    vol_uuid = uuid;
    obj_type = checkpoint_type;
    seq = cp_seq;
    hdr_sectors = ckpt_sectors objects dmap;
    data_sectors = 0;
    crc = 0;
  }

  front : Bytes
  front = common_hdr uuid checkpoint_type cp_seq (ckpt_sectors objects dmap) 0 0

  objs : Bytes
  objs = table put_obj objects

  maps : Bytes
  maps = table put_mapentry dmap

  spare : Bytes
  unfolding maps
  spare =
      drop (length maps)
        (drop (length objects * 16) (drop 40 (drop 44 (zeros (ckpt_sectors objects dmap * 512)))))

  abbrev hdr : Bytes
  hdr = ckpt_hdr cache_seq 84 (length objects * 16) (84 + length objects * 16) (length dmap * 16)

  body : Bytes
  body = hdr ++ (objs ++ (maps ++ spare))

  length-front : length front ≡ 44
  unfolding front
  length-front = length-common_hdr uuid checkpoint_type cp_seq (ckpt_sectors objects dmap) 0 0 u

  length-objs : length objs ≡ length objects * 16
  unfolding objs
  length-objs = length-table put_obj 16 length-put_obj objects

  length-maps : length maps ≡ length dmap * 16
  unfolding maps
  length-maps = length-table put_mapentry 16 length-put_mapentry dmap

  bytes_parts : checkpoint_bytes uuid cp_seq cache_seq objects dmap ≡ front ++ body
  unfolding checkpoint_bytes front body objs maps spare
  bytes_parts =
      layout front hdr (table put_obj objects) (table put_mapentry dmap)
        (zeros (ckpt_sectors objects dmap * 512)) (length objects * 16) length-front
        (length-ckpt_hdr cache_seq 84 (length objects * 16) (84 + length objects * 16)
          (length dmap * 16))
        length-objs

  enough : 84 + length dmap * 16 + length objects * 16 ≤ ckpt_sectors objects dmap * 512
  unfolding ckpt_sectors
  enough = omega arith

  length-spare :
      length spare ≡ ckpt_sectors objects dmap * 512 - (84 + length objects * 16 + length dmap * 16)
  unfolding spare
  length-spare =
      rw
        (
          length-drop (length maps) (
              drop (length objects * 16)
                (drop 40 (drop 44 (zeros (ckpt_sectors objects dmap * 512))))),
          length-drop (length objects * 16)
              (drop 40 (drop 44 (zeros (ckpt_sectors objects dmap * 512)))),
          length-drop 40 (drop 44 (zeros (ckpt_sectors objects dmap * 512))),
          length-drop 44 (zeros (ckpt_sectors objects dmap * 512)),
          length-zeros (ckpt_sectors objects dmap * 512),
          length-maps,
        )
        (omega arith)

  length-bytes : length (front ++ body) ≡ ckpt_sectors objects dmap * 512
  unfolding body
  length-bytes =
      rw
        (
          length-append front (hdr ++ (objs ++ (maps ++ spare))),
          length-append hdr (objs ++ (maps ++ spare)),
          length-append objs (maps ++ spare),
          length-append maps spare,
          length-front,
          length-ckpt_hdr cache_seq 84 (length objects * 16) (84 + length objects * 16)
              (length dmap * 16),
          length-objs,
          length-maps,
          length-spare,
        )
        (omega (arith, enough))

  front_reads : (rest : Bytes) → read_common (front ++ rest) ≡ common
  unfolding front
  front_reads rest =
      read_common-common_hdr uuid checkpoint_type cp_seq (ckpt_sectors objects dmap) 0 0 rest u
        (omega arith) (omega arith) (omega arith) (omega arith) (omega arith)

  -- The fields of the second header.
  module _ (more : Bytes) where
    field_behind :
        (w off : ℕ) → field w (44 + off) ((front ++ body) ++ more) ≡ field w off (body ++ more)
    field_behind w off =
        let past : 44 + off - 44 ≡ off = omega arith in
        rw
          (
            append_assoc front body more,
            field-past w (44 + off) front (body ++ more) (omega (arith, length-front)),
            length-front,
            past,
          )
          refl

    cache_read : field 8 0 (body ++ more) ≡ cache_seq
    unfolding body ckpt_hdr field
    cache_read = decode-le 8 cache_seq (drop 8 (body ++ more)) cache_fits

    constants :
        (field 4 12 (body ++ more) ≡ 0)
        × (field 4 16 (body ++ more) ≡ 84)
        × (field 4 28 (body ++ more) ≡ 0)
    unfolding body ckpt_hdr field decode
    constants = (refl, refl, refl)

    objs_len : field 4 20 (body ++ more) ≡ length objects * 16
    unfolding body ckpt_hdr field
    objs_len = decode-le 4 (length objects * 16) (drop 24 (body ++ more)) (omega (arith, enough))

    map_offset : field 4 32 (body ++ more) ≡ 84 + length objects * 16
    unfolding body ckpt_hdr field
    map_offset =
        decode-le 4 (84 + length objects * 16) (drop 36 (body ++ more)) (omega (arith, enough))

    map_len : field 4 36 (body ++ more) ≡ length dmap * 16
    unfolding body ckpt_hdr field
    map_len = decode-le 4 (length dmap * 16) (drop 40 (body ++ more)) (omega (arith, enough))

    whole : ((front ++ body) ++ more) ≡ front ++ (hdr ++ (objs ++ (maps ++ (spare ++ more))))
    unfolding body
    whole =
        rw
          (
            append_assoc front (hdr ++ (objs ++ (maps ++ spare))) more,
            append_assoc hdr (objs ++ (maps ++ spare)) more,
            append_assoc objs (maps ++ spare) more,
            append_assoc maps spare more,
          )
          refl

    length-hdr : length hdr ≡ 40
    length-hdr =
        length-ckpt_hdr cache_seq 84 (length objects * 16) (84 + length objects * 16)
          (length dmap * 16)

    at_objs : drop 84 ((front ++ body) ++ more) ≡ objs ++ (maps ++ (spare ++ more))
    at_objs =
        rw
          (
            whole,
            drop_past 84 front (hdr ++ (objs ++ (maps ++ (spare ++ more))))
                (omega (arith, length-front)),
            length-front,
          )
          (drop_front 40 hdr (objs ++ (maps ++ (spare ++ more))) length-hdr)

    at_maps : drop (84 + length objects * 16) ((front ++ body) ++ more) ≡ maps ++ (spare ++ more)
    at_maps =
        let after_front : 84 + length objects * 16 - 44 ≡ 40 + length objects * 16 = omega arith in
        let after_hdr : 40 + length objects * 16 - 40 ≡ length objects * 16 = omega arith in
        rw
          (
            whole,
            drop_past (84 + length objects * 16) front (hdr ++ (objs ++ (maps ++ (spare ++ more))))
                (omega (arith, length-front)),
            length-front,
            after_front,
            drop_past (40 + length objects * 16) hdr (objs ++ (maps ++ (spare ++ more)))
                (omega (arith, length-hdr)),
            length-hdr,
            after_hdr,
          )
          (drop_front (length objects * 16) objs (maps ++ (spare ++ more)) length-objs)

    objects_read :
        deserialise_ptrs read_obj 16 ((front ++ body) ++ more) 84 (length objects * 16) ≡ objects
    unfolding deserialise_ptrs objs
    objects_read =
        let count : length objects * 16 / 16 ≡ length objects = omega arith in
        rw (at_objs, count)
          (read_entries-table put_obj 16 length-put_obj read_obj ObjFits read_obj-put_obj objects
            (maps ++ (spare ++ more)) objs_fit)

    maps_read :
        deserialise_ptrs read_mapentry 16
          ((front ++ body) ++ more)
          (84 + length objects * 16)
          (length dmap * 16)
        ≡ map shown dmap
    unfolding deserialise_ptrs maps
    maps_read =
        let count : length dmap * 16 / 16 ≡ length dmap = omega arith in
        rw (at_maps, count)
          (read_entries-shown put_mapentry read_mapentry shown 16 EntryFits length-put_mapentry
            read_mapentry-put_mapentry dmap (spare ++ more) map_fits)

    parse_bytes :
        parse_checkpoint ((front ++ body) ++ more)
        ≡ value (record {
          hdr = common;
          cache_seq = cache_seq;
          ckpts = [];
          objects = objects;
          deletes = [];
          dmap = map shown dmap;
        })
    unfolding parse_checkpoint deserialise_ptrs read_entries
    parse_bytes =
        let hdr_read : read_common ((front ++ body) ++ more) ≡ common =
          ap read_common (append_assoc front body more) ∙ front_reads (body ++ more) in
        rw
          (
            hdr_read,
            field_behind 8 0,
            field_behind 4 8,
            field_behind 4 12,
            field_behind 4 16,
            field_behind 4 20,
            field_behind 4 24,
            field_behind 4 28,
            field_behind 4 32,
            field_behind 4 36,
            cache_read,
            constants.0,
            constants.1,
            constants.2,
            objs_len,
            map_offset,
            map_len,
            objects_read,
            maps_read,
          )
          refl

  -- A checkpoint object whose numbers fit their fields is read back from a backend that gives the first
  -- bytes of it, whether it fits the first read or not: its number, the objects with their counts and the
  -- map, entry by entry.
  pub read_checkpoint-checkpoint_bytes :
      (read : ℕ → Fetched)
      → GivesPrefix read (checkpoint_bytes uuid cp_seq cache_seq objects dmap)
      → read_checkpoint read
        ≡ value (record {
          hdr = record {
            magic = lsvd_magic;
            version = 1;
            vol_uuid = uuid;
            obj_type = checkpoint_type;
            seq = cp_seq;
            hdr_sectors = ckpt_sectors objects dmap;
            data_sectors = 0;
            crc = 0;
          };
          cache_seq = cache_seq;
          ckpts = [];
          objects = objects;
          deletes = [];
          dmap = map shown dmap;
        })
  unfolding read_checkpoint and_then
  read_checkpoint-checkpoint_bytes read gives =
      let f : HeaderThere (front ++ body) (fetch_object_header read) =
        fetch-HeaderThere read common front body [] length-bytes front_reads length-front refl refl
          (omega (arith, enough)) size_fits
          (rw (append_nil (front ++ body)) (rw (bytes_parts) at gives)) in
      rw (f.there) (parse_bytes f.more)
