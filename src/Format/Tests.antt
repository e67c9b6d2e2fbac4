-- ===== src/Format/Tests.antt =====
-- Runs of the byte formats of src/objects.cc, and the theorems at concrete objects.
use lsvd_rbd.Base.{
  ℕ, ◌*◌, ◌/◌, ◌%◌, ◌^◌, ◌<◌, ◌≡◌, refl, false, none, some, List, [], ◌∷◌, ◌++◌, map, length, take,
  arith,
}
use lsvd_rbd.Translate.{Entry, ObjInfo}
use lsvd_rbd.Format.{Bytes, field, zeros}
use lsvd_rbd.Format.Headers.{lsvd_magic}
use lsvd_rbd.Format.Fetch.{
  Fetched, got, missing, failed, value, nullopt, thrown, GivesPrefix, fetch_object_header,
}
use lsvd_rbd.Format.Superblock.{serialise_superblock, read_superblock, deserialise_ptrs_with_len}
use lsvd_rbd.Format.Superblock.Reload.{read_superblock-serialise_superblock}
use lsvd_rbd.Format.DataHeader.{make_obj_hdr, read_data_hdr}
use lsvd_rbd.Format.DataHeader.Reload.{reloaded, read_data_hdr-make_obj_hdr}
use lsvd_rbd.Format.Checkpoint.{checkpoint_type, ckpt_sectors, checkpoint_bytes, read_checkpoint}
use lsvd_rbd.Format.Checkpoint.Reload.{read_checkpoint-checkpoint_bytes}
use lsvd_rbd.Format.Checkpoint.Entries.{shown}

abbrev uuid : Bytes
uuid = 1 ∷ 2 ∷ 3 ∷ 4 ∷ 5 ∷ 6 ∷ 7 ∷ 8 ∷ 9 ∷ 10 ∷ 11 ∷ 12 ∷ 13 ∷ 14 ∷ 15 ∷ 16 ∷ []

abbrev sum : Bytes → ℕ
sum bs = length bs % 2 ^ 32

sum_fits : (bs : Bytes) → sum bs < 2 ^ 32
sum_fits bs = omega arith

abbrev gives : Bytes → ℕ → Fetched
gives obj n = got (take n obj)

gives-GivesPrefix : (obj : Bytes) → GivesPrefix (gives obj) obj
unfolding GivesPrefix
gives-GivesPrefix obj n = refl

-- An image with a clone base has no superblock: the identifier of the clone is copied from null.
clone_runs :
    serialise_superblock [] [] (record { name = 65 ∷ 66 ∷ []; last_seq = 7 } ∷ []) uuid 1048576
    ≡ none
unfolding serialise_superblock
clone_runs = refl

missing_runs : fetch_object_header (λ n. missing) ≡ nullopt
unfolding fetch_object_header
missing_runs = refl

failed_runs : fetch_object_header (λ n. failed) ≡ thrown
unfolding fetch_object_header
failed_runs = refl

-- Two records of clones, the second behind a name of eight bytes.
offsets_run :
    deserialise_ptrs_with_len 21 20 (zeros 20 ++ (8 ∷ zeros 28 ++ (0 ∷ []))) 0 50 ≡ 0 ∷ 29 ∷ []
unfolding deserialise_ptrs_with_len
offsets_run = refl

read_superblock-serialise_superblock_example :
    (w : Bytes) × ((serialise_superblock (zeros 4) (5 ∷ 9 ∷ []) [] uuid 1048576 ≡ some w)
      × (read_superblock (some w)
          ≡ value (record {
            superblock_buf = w;
            vol_size = 1048576 / 512 * 512;
            ckpts = 5 ∷ 9 ∷ [];
            clones = [];
            snaps = [];
            uuid = uuid;
          }))
      × (field 4 64 w ≡ 0))
unfolding field
read_superblock-serialise_superblock_example =
    read_superblock-serialise_superblock (zeros 4) (5 ∷ 9 ∷ []) uuid 1048576 refl
      (omega arith, (omega arith, tt)) (omega arith) (omega arith) refl

abbrev extents : List (ℕ × ℕ)
extents = (16, 8) ∷ (1024, 3) ∷ []

abbrev header : Bytes
header = elim (make_obj_hdr sum uuid 12 8 11 extents false) [ some h ↦ h | none ↦ [] ]

header_made : make_obj_hdr sum uuid 12 8 11 extents false ≡ some header
unfolding make_obj_hdr
header_made = refl

read_data_hdr-make_obj_hdr_example :
    read_data_hdr (gives (header ++ zeros 20)) ≡ value (reloaded sum uuid 12 8 11 extents false)
read_data_hdr-make_obj_hdr_example =
    read_data_hdr-make_obj_hdr sum sum_fits uuid refl 12 8 11 extents false (omega arith)
      (omega arith) (omega arith) ((omega arith, omega arith), ((omega arith, omega arith), tt))
      header header_made (gives (header ++ zeros 20)) (zeros 20)
      (gives-GivesPrefix (header ++ zeros 20))

abbrev objects : List (ℕ × ObjInfo)
objects = (3, record { hdr = 8; data_len = 16; live = 12 }) ∷ []

abbrev dmap : List Entry
dmap = record { lba = 4; len = 12; obj = 3; offset = 8 } ∷ []

read_checkpoint-checkpoint_bytes_example :
    read_checkpoint (gives (checkpoint_bytes uuid 14 0 objects dmap))
    ≡ value (record {
      hdr = record {
        magic = lsvd_magic;
        version = 1;
        vol_uuid = uuid;
        obj_type = checkpoint_type;
        seq = 14;
        hdr_sectors = ckpt_sectors objects dmap;
        data_sectors = 0;
        crc = 0;
      };
      cache_seq = 0;
      ckpts = [];
      objects = objects;
      deletes = [];
      dmap = map shown dmap;
    })
unfolding ckpt_sectors
read_checkpoint-checkpoint_bytes_example =
    read_checkpoint-checkpoint_bytes uuid refl 14 0 objects dmap (omega arith) (omega arith)
      (omega arith) ((omega arith, omega arith, omega arith, omega arith), tt)
      ((omega arith, omega arith, omega arith, omega arith), tt)
      (gives (checkpoint_bytes uuid 14 0 objects dmap))
      (gives-GivesPrefix (checkpoint_bytes uuid 14 0 objects dmap))
