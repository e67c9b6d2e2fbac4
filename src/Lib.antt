-- ===== src/Lib.antt =====
-- Verification library of lsvd-rbd, a log-structured virtual disk that keeps a block volume in
-- objects of a backend (RADOS), with a write log and a read cache on local devices.
--
-- A write goes to the write log and into the current batch of the translation layer, where a buffer
-- map finds it. A full batch becomes a data object with the next sequence number, and the object map
-- is pointed at it. Checkpoints save the object map; opening an image loads the last checkpoint and
-- replays the objects behind it. A read asks the buffer map, then the object map, and fills what
-- neither maps with zeros.
--
-- Base: shared names, lists, integers, and the ordered table that stands for std::map.
-- Extent: src/extent.h. `Extent` is an entry of the map with its methods; a target (obj_offset,
--   sector_ptr) is an instance of `Target`, in Extent.Pointers. Extent.Map has lower_bound, update
--   and trim on the sequence of extents that `lists` holds: an iterator is a position in it. The
--   branches of `_update` are `cut_left`, `erase_covered`, `cut_right` and `place`, `clear` is the
--   first three together. `at` is the abstract view, what a sector maps to.
--   Extent.Lists is the two-level array under that sequence: `lists` and `maxes`, with `insert`, `erase`
--   and `expand` for _insert, _erase and _expand; `flat` is the sequence and `index` the place of an
--   iterator in it.
-- Iov: src/smartiov.h, over a memory that is a function from addresses to bytes.
-- Format: src/objects.h and src/objects.cc, with make_obj_hdr and the buffer of write_checkpoint of
--   src/translate.cc: the bytes of superblocks, data headers and checkpoints. The backend is a
--   parameter, a function from the length of a read to what it gives.
-- Translate: src/translate.cc with the records of src/objects.h. `State` holds the fields of
--   translate_impl that the modelled operations use, `process_batch` and `discard` (`trim` in the
--   source) are its operations; `none` is a failed assertion. Calls of the backend and of the read
--   cache are collected as events. Translate.Checkpointing has write_checkpoint, and
--   read_from_checkpoint of src/image.cc. Translate.Writes has the current batch (translate_req),
--   writev and notify; an address that malloc gives is an argument. Translate.Gc has write_gc,
--   Translate.Readers the counts of object_read_start and object_read_end. Translate.Pipeline has the
--   queue of the worker (thread_pool of src/misc_cache.h) with writev, flush, checkpoint,
--   worker_thread and the completions (notify, in its two locked parts) as steps; it calls the
--   functions of the other modules. There, `written` and `flushed` record what happened, the number of
--   a flush is how many writes were made before it, and `asleep` is the wait on `cv`. The image has
--   `flush_interval_ms` 0, so that flush_thread does not run. A flush is `done` when the worker says
--   so; the wait of its caller for that is left out.
-- Image: src/image.cc. Image.Recovery has apply_log and roll_forward_from_last_checkpoint (with
--   read_data_hdr of src/objects.cc), Image.Read has handle_reads. Image.Requests has read_request and
--   write_request: `run` up to the loop that runs the sub-requests (write_run, read_run), and `notify`.
--   A sub-request is run once and notifies once; Step is one of these, and they come in any order.
-- WriteLog: src/write_cache.cc and src/journal.h. `allocate`, `make_request` (the constructor of
--   wcache_write_req), `writev`, `reserve_room` and `release_room`, `init_super` (init_wcache) and
--   `open_log` (the constructor of write_cache_impl).
-- ReadCache: src/shared_read_cache.cc, one shard: allocate_chunk, make_read_req, insert_object and the
--   completions; `none` is a failed assertion. A buffer of a chunk stands as the key of its
--   bytes, or as none before it is filled.
--   ReadCache.System adds the requests in flight: each stretch of code that holds the lock is a step,
--   and the steps come in any order. ReadCache.Objects cuts an object into chunks.
-- Each part has a module Tests with concrete runs.
--
-- Numbers are unbounded: the widths of the bit fields of an extent, of a header field, of page_t
-- and of the int of div_round_up are not modelled, but those of the fields of a checkpoint are.
-- For recovery the backend is a function from object numbers to parsed headers; the bytes of these
-- are in Format alone, where numbers are cut to their fields. The contents of the sectors are not
-- modelled. The loop of handle_reads has as fuel the number of sectors of the read, since each
-- round reads at least one; the loop over the log takes fuel, and needs one unit for each object
-- and one for the gap behind them; the search for a chunk needs twice the number of chunks while
-- one is not in use; an object is cut with a unit for each byte; the split of a write takes at
-- most a unit for each sector. Outside the read cache, Translate.Pipeline and Image.Requests an
-- operation runs as a whole: locks and threads are not modelled.
--
-- Not modelled: the choice of what to collect, flush_thread, the statistics and shards of the read
-- cache, the frontends (librbd, SPDK), librados, io_uring, configuration and tools.
pub mod Base
pub mod Extent
pub mod Format
pub mod Translate
pub mod Image
pub mod Iov
pub mod WriteLog
pub mod ReadCache
