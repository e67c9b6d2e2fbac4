-- ===== src/Format/Checkpoint.antt =====
-- src/translate.cc, the bytes of `write_checkpoint`, and src/objects.cc,
-- `object_reader::read_checkpoint`.
pub mod Entries
pub mod Reload
use lsvd_rbd.Base.{
  ℕ, zero, suc, ◌+◌, ◌-◌, ◌*◌, ◌/◌, ◌%◌, ◌^◌, ◌≤◌, ◌<◌, leb, ltb, ◌==◌, if◌then◌else◌, List, [],
  ◌∷◌, ◌++◌, length, drop,
}
use lsvd_rbd.Base.Int.{ℤ, pos, negsuc}
use lsvd_rbd.Translate.{Entry, ObjInfo, CkptMapentry, signed, div_round_up}
use lsvd_rbd.Format.{Bytes, le, decode, field, zeros, blit}
use lsvd_rbd.Format.Headers.{CommonHdr, common_hdr, read_common}
use lsvd_rbd.Format.Tables.{deserialise_ptrs, table}
use lsvd_rbd.Format.Fetch.{Fetched, Outcome, value, nullopt, and_then, fetch_object_header}

abbrev pub checkpoint_type : ℕ
checkpoint_type = 3

-- `ckpt_obj`
unfoldable pub put_obj : ℕ × ObjInfo → Bytes
put_obj (seq, info) = le 4 seq ++ (le 4 info.hdr ++ (le 4 info.data_len ++ le 4 info.live))

unfoldable pub read_obj : Bytes → ℕ × ObjInfo
unfolding decode
read_obj bs = (
  decode 4 bs,
  record {
    hdr = decode 4 (drop 4 bs);
    data_len = decode 4 (drop 8 bs);
    live = decode 4 (drop 12 bs);
  },
)

-- `ckpt_mapentry`: bit fields of 36 and 28 bits, and two numbers, all signed when they are read.
unfoldable pub put_mapentry : Entry → Bytes
put_mapentry e = le 8 (e.lba % 2 ^ 36 + 2 ^ 36 * (e.len % 2 ^ 28)) ++ (le 4 e.obj ++ le 4 e.offset)

unfoldable pub read_mapentry : Bytes → CkptMapentry
unfolding decode signed
read_mapentry bs = record {
  lba = signed 36 (decode 8 bs % 2 ^ 36);
  len = signed 28 (decode 8 bs / 2 ^ 36);
  obj = signed 32 (decode 4 (drop 8 bs));
  offset = signed 32 (decode 4 (drop 12 bs));
}

-- `obj_ckpt_hdr`
unfoldable pub ckpt_hdr : ℕ → ℕ → ℕ → ℕ → ℕ → Bytes
ckpt_hdr cache_seq objs_offset objs_len map_offset map_len =
    le 8 cache_seq
    ++ (le 4 0
        ++ (le 4 0
            ++ (le 4 objs_offset
                ++ (le 4 objs_len ++ (le 4 0 ++ (le 4 0 ++ (le 4 map_offset ++ le 4 map_len)))))))

-- The buffer that `write_checkpoint` sends.
unfoldable pub ckpt_sectors : List (ℕ × ObjInfo) → List Entry → ℕ
ckpt_sectors objects dmap = div_round_up (84 + length dmap * 16 + length objects * 16) 512

unfoldable pub checkpoint_bytes : Bytes → ℕ → ℕ → List (ℕ × ObjInfo) → List Entry → Bytes
checkpoint_bytes uuid cp_seq cache_seq objects dmap =
    let objs_bytes = length objects * 16 in
    let map_bytes = length dmap * 16 in
    let sectors = ckpt_sectors objects dmap in
    let buf = blit 0 (common_hdr uuid checkpoint_type cp_seq sectors 0 0) (zeros (sectors * 512)) in
    let buf₁ = blit 44 (ckpt_hdr cache_seq 84 objs_bytes (84 + objs_bytes) map_bytes) buf in
    let buf₂ = blit 84 (table put_obj objects) buf₁ in
    blit (84 + objs_bytes) (table put_mapentry dmap) buf₂

-- `parsed_checkpoint`
pub record ParsedCheckpoint : Type 0 where
  pub hdr : CommonHdr
  pub cache_seq : ℕ
  pub ckpts : List ℕ
  pub objects : List (ℕ × ObjInfo)
  pub deletes : List (ℕ × ℕ)
  pub dmap : List CkptMapentry

-- `deferred_delete`
unfoldable pub read_delete : Bytes → ℕ × ℕ
unfolding decode
read_delete bs = (decode 4 bs, decode 4 (drop 4 bs))

unfoldable pub parse_checkpoint : Bytes → Outcome ParsedCheckpoint
parse_checkpoint buf =
    let h = read_common buf in
    if h.obj_type == checkpoint_type
    then value (record {
      hdr = h;
      cache_seq = field 8 44 buf;
      ckpts = deserialise_ptrs (decode 4) 4 buf (field 4 52 buf) (field 4 56 buf);
      objects = deserialise_ptrs read_obj 16 buf (field 4 60 buf) (field 4 64 buf);
      deletes = deserialise_ptrs read_delete 8 buf (field 4 68 buf) (field 4 72 buf);
      dmap = deserialise_ptrs read_mapentry 16 buf (field 4 76 buf) (field 4 80 buf);
    })
    else nullopt

unfoldable pub read_checkpoint : (ℕ → Fetched) → Outcome ParsedCheckpoint
unfolding fetch_object_header and_then parse_checkpoint
read_checkpoint read = and_then (fetch_object_header read) parse_checkpoint
