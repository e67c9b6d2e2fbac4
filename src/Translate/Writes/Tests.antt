-- ===== src/Translate/Writes/Tests.antt =====
-- src/translate.cc: a batch of writes, concretely.
use lsvd_rbd.Base.{
  ◌-◌, ℕ, zero, suc, ◌+◌, ◌*◌, ◌<◌, ◌≡◌, refl, inl, inr, none, List, [], ◌∷◌, ◌&&◌, if◌then◌else◌,
  length, arith,
}
use lsvd_rbd.Extent.{Extent, new_extent, at}
use lsvd_rbd.Extent.Pointers.{ObjOffset, obj_target, SectorPtr, sector_target}
use lsvd_rbd.Translate.{Entry, hdr_sectors_for}
use lsvd_rbd.Translate.Writes.{Request, Writer, new_request, notify}
use lsvd_rbd.Translate.Writes.Complete.{at-notify}
use lsvd_rbd.Translate.Writes.Pieces.{points_in, in_entries}
use lsvd_rbd.Image.Read.Serve.{resolve}
use lsvd_rbd.Translate.Writes.Mirror.{Mirrors, IsWhole, data_of, data_of-notify, writev-Mirrors}
use lsvd_rbd.Translate.Writes.Room.{
  new_request-IsBatch, Buffered, writev-Buffered, header_underruns,
}

abbrev writer : Writer
writer = record {
  current = record (new_request 10000 4096) { len = 2048 };
  workers = [];
  bufmap = [];
  backend_obj_bytes = 4096;
}

-- A write that makes the batch roll over.
writev-Buffered_example : Buffered 50000 1024 3072 writer
writev-Buffered_example =
    writev-Buffered 50000 1024 3072 writer (omega arith)
      (record { start = refl; end = refl; behind = refl; fits = omega arith }) refl refl
      (omega arith) (omega arith)

abbrev entry_at : ℕ → ℕ → Entry
entry_at lba len = record { lba = lba; len = len; obj = 0; offset = 0 }

abbrev batch : Request
batch = record (new_request 10000 4096) { len = 2048; entries = entry_at 2 4 ∷ [] }

-- Sectors 2 and 3 are still in the buffer of the batch, 4 and 5 were overwritten.
abbrev bufmap : List (Extent SectorPtr)
bufmap = new_extent 2 2 (record { buf = 11040 }) ∷ new_extent 4 6 (record { buf = 90000 }) ∷ []

at-notify_example : at (notify batch bufmap) 3 ≡ (
    if in_entries 3 batch.entries && points_in 11040 15136 (at bufmap 3) then none else at bufmap 3)
at-notify_example =
    at-notify batch bufmap 3 (omega arith)
      (inl (omega arith, omega arith), (inr (inr (omega arith)), tt)) (omega arith)

unfoldable copies : ℕ → Entry → List Entry
copies zero e = []
copies (suc n) e = e ∷ copies n e

abbrev full_batch : Request
full_batch = record (new_request 500 98304) { len = 98304; entries = copies 192 (entry_at 0 1) }

header_underruns_example :
    full_batch.data_ptr < full_batch.batch_buf + hdr_sectors_for (length full_batch.entries) * 512
unfolding copies
header_underruns_example =
    header_underruns full_batch
      (record { start = refl; end = refl; behind = refl; fits = omega arith }) refl (omega arith)

-- Its object is number 3, with a header of eight sectors.
abbrev objmap : List (Extent ObjOffset)
objmap = new_extent 2 4 (record { obj = 3; offset = 8 }) ∷ []

abbrev memory_of : SectorPtr → ℕ
memory_of p = p.buf

abbrev object_of : ObjOffset → ℕ
object_of q = 11040 + (q.offset - 8) * 512

batch-Mirrors : Mirrors batch bufmap
batch-Mirrors x h = ground arith

data_of-notify_example :
    data_of memory_of object_of 0 (resolve (at (notify batch bufmap) 3) (at objmap 3))
    ≡ data_of memory_of object_of 0 (resolve (at bufmap 3) (at objmap 3))
data_of-notify_example =
    data_of-notify memory_of object_of 0 batch bufmap objmap 3 8 3 (omega arith)
      (inl (omega arith, omega arith), (inr (inr (omega arith)), tt)) (omega arith) batch-Mirrors
      (λ k h. omega arith) (λ y h. ground arith)

abbrev new_writer : Writer
new_writer = record writer { current = new_request 10000 4096 }

abbrev first_write : Buffered 50000 1024 3072 new_writer
first_write =
    writev-Buffered 50000 1024 3072 new_writer (omega arith) (new_request-IsBatch 10000 4096) refl
      refl (omega arith) (omega arith)

writev-Mirrors_example :
    Mirrors first_write.after.current first_write.after.bufmap × IsWhole first_write.after.current
writev-Mirrors_example =
    writev-Mirrors 50000 1024 3072 new_writer first_write refl refl (λ x h. ground arith) refl
      (λ x. refl)
