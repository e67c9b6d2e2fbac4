-- ===== src/Format/Superblock.antt =====
-- src/objects.cc, `serialise_superblock` and `object_reader::read_superblock`.
pub mod Reload
use lsvd_rbd.Base.{
  ◌>>=◌, ℕ, zero, suc, ◌+◌, ◌-◌, ◌*◌, ◌/◌, ◌%◌, ◌^◌, ◌≤◌, ◌<◌, max, Bool, true, false, leb, ltb,
  ◌==◌, if◌then◌else◌, Option, none, some, List, [], ◌∷◌, ◌++◌, length, drop,
}
use lsvd_rbd.Format.{Bytes, le, decode, field, zeros, resize, blit}
use lsvd_rbd.Format.Headers.{CommonHdr, lsvd_magic, common_hdr, read_common}
use lsvd_rbd.Format.Tables.{deserialise_ptrs, table}
use lsvd_rbd.Format.Fetch.{Outcome, value, nullopt}

abbrev pub superblock : ℕ
superblock = 1

-- `clone_base`, the name as bytes.
pub record Clone : Type 0 where
  pub name : Bytes
  pub last_seq : ℕ

abbrev pub round_up : ℕ → ℕ → ℕ
round_up n m = m * ((n + m - 1) / m)

unfoldable pub clone_bytes : List Clone → ℕ
clone_bytes [] = 0
clone_bytes (c ∷ cs) = (21 + round_up (length c.name) 8) + clone_bytes cs

-- `uuid_copy` to an offset; a null source is read, and the process ends.
unfoldable pub uuid_copy : ℕ → Option Bytes → Bytes → Option Bytes
unfolding blit
uuid_copy dst none buf = none
uuid_copy dst (some uuid) buf = some (blit dst uuid buf)

-- The loop over the clones: the end of the records, `clones_len`, which is only added to, and the
-- buffer.
unfoldable pub write_clones : List Clone → ℕ → ℕ → Bytes → Option (ℕ × ℕ × Bytes)
unfolding uuid_copy blit
write_clones [] clonep len buf = some (clonep, len, buf)
write_clones (c ∷ cs) clonep len buf = do
  let padded = round_up (length c.name) 8
  buf₁ ← uuid_copy clonep none (blit (clonep + 16) (le 4 c.last_seq) buf)
  let buf₂ = blit (clonep + 20) (le 1 padded) buf₁
  let buf₃ = blit (clonep + 21) (c.name ++ zeros (padded - length c.name)) buf₂
  write_clones cs (clonep + (21 + padded)) (len + (21 + padded)) buf₃

-- `super_hdr`
unfoldable pub super_hdr : ℕ → ℕ → ℕ → ℕ → ℕ → Bytes
super_hdr vol ckpts_offset ckpts_len clones_offset clones_len =
    le 8 vol
    ++ (le 4 ckpts_offset
        ++ (le 4 ckpts_len ++ (le 4 clones_offset ++ (le 4 clones_len ++ (le 4 0 ++ le 4 0)))))

unfoldable pub req_size : List ℕ → List Clone → ℕ
unfolding clone_bytes
req_size ckpts clones = round_up (max (76 + length ckpts * 4 + clone_bytes clones) 8) 512

-- `serialise_superblock`. The fields of `super_hdr`, which the source sets one by one, are put together
-- after the loop.
unfoldable pub serialise_superblock : Bytes → List ℕ → List Clone → Bytes → ℕ → Option Bytes
unfolding write_clones
serialise_superblock buf ckpts clones uuid vol_size = do
  let req = req_size ckpts clones
  let buf₁ = if ltb (length buf) req then resize req buf else buf
  let buf₂ = blit 0 (common_hdr uuid superblock 0 (req / 512) 0 0) buf₁
  (clonep, clones_len, buf₃) ← write_clones clones 76 (field 4 64 buf₂) buf₂
  let hdr = super_hdr (vol_size / 512) clonep (length ckpts * 4) 76 clones_len
  some (blit clonep (table (le 4) ckpts) (blit 44 hdr buf₃))

-- `deserialise_ptrs_with_len`: the offsets of records of a size with `name_len` at a place in them and
-- the name behind them. Each record has a size above 0, so `len` rounds are enough.
unfoldable pub record_offsets : ℕ → ℕ → ℕ → Bytes → ℕ → ℕ → List ℕ
unfolding field
record_offsets zero size name_len buf p end = []
record_offsets (suc fuel) size name_len buf p end =
    let rest =
      record_offsets fuel size name_len buf (p + (size + field 1 (p + name_len) buf)) end in
    if ltb p end then p ∷ rest else []

unfoldable pub deserialise_ptrs_with_len : ℕ → ℕ → Bytes → ℕ → ℕ → List ℕ
unfolding record_offsets
deserialise_ptrs_with_len size name_len buf offset len =
    record_offsets len size name_len buf offset (offset + len)

-- `parsed_superblock`; the pointers into the buffer are offsets.
pub record ParsedSuperblock : Type 0 where
  pub superblock_buf : Bytes
  pub vol_size : ℕ
  pub ckpts : List ℕ
  pub clones : List ℕ
  pub snaps : List ℕ
  pub uuid : Bytes

-- `read_superblock`, from what `read_whole_obj` gives.
unfoldable pub read_superblock : Option Bytes → Outcome ParsedSuperblock
unfolding field deserialise_ptrs deserialise_ptrs_with_len
read_superblock none = nullopt
read_superblock (some buf) =
    let hdr = read_common buf in
    if hdr.magic == lsvd_magic
    then if hdr.version == 1
      then if hdr.obj_type == superblock
        then value (record {
          superblock_buf = buf;
          vol_size = (field 8 44 buf * 512) % 2 ^ 64;
          ckpts = deserialise_ptrs (decode 4) 4 buf (field 4 52 buf) (field 4 56 buf);
          clones = deserialise_ptrs_with_len 21 20 buf (field 4 60 buf) (field 4 64 buf);
          snaps = deserialise_ptrs_with_len 5 4 buf (field 4 68 buf) (field 4 72 buf);
          uuid = hdr.vol_uuid;
        })
        else nullopt
      else nullopt
    else nullopt
