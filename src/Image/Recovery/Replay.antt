-- ===== src/Image/Recovery/Replay.antt =====
-- src/image.cc, `apply_log`: one object replayed.
use lsvd_rbd.Base.{
  ℕ, ◌+◌, ◌≤◌, ◌≡◌, ◌≢◌, refl, ap, ◌∙◌, or_else, Option, none, some, List, [], ◌∷◌, ◌++◌, arith,
}
use lsvd_rbd.Base.Int.{pos}
use lsvd_rbd.Base.Assoc.{find, insert, find-insert}
use lsvd_rbd.Extent.{Extent, at}
use lsvd_rbd.Extent.Order.{IsSorted}
use lsvd_rbd.Extent.Map.{update}
use lsvd_rbd.Extent.Pointers.{ObjOffset, obj_target}
use lsvd_rbd.Translate.{DataHdr, map_entries}
use lsvd_rbd.Translate.Batch.{Nonempty, placed, at-map_entries, map_entries-IsSorted}
use lsvd_rbd.Image.Recovery.{
  Stored, LoggedInfo, Recovered, logdata, applies, throws, replay_records, apply_log,
  manage_deleted, apply_data,
}

-- Replaying the records of an object updates the map as the batch did that wrote it.
replay_records-map_entries :
    (seq hdr off : ℕ) (es : List (ℕ × ℕ)) (m : List (Extent ObjOffset))
    → replay_records seq hdr off es m ≡ map_entries seq (off + hdr) es m
unfolding replay_records map_entries
replay_records-map_entries seq hdr off [] m = refl
replay_records-map_entries seq hdr off ((lba, len) ∷ es) m =
    let u = update m lba (lba + len) (record { obj = seq; offset = off + hdr }) in
    let q : off + len + hdr ≡ off + hdr + len = omega arith in
    let ih =
      replay_records-map_entries seq hdr (off + len) es u.0
      ∙ ap (λ k. map_entries seq k es u.0) q in
    ap (λ k. (k.0, u.1 ++ k.1)) ih

replay_records-all :
    (seq hdr : ℕ) (es : List (ℕ × ℕ)) (m : List (Extent ObjOffset))
    → replay_records seq hdr 0 es m ≡ map_entries seq hdr es m
replay_records-all seq hdr es m =
    let q : 0 + hdr ≡ hdr = omega arith in
    replay_records-map_entries seq hdr 0 es m ∙ ap (λ k. map_entries seq k es m) q

manage_deleted-none :
    (d : Extent ObjOffset) (ds : List (Extent ObjOffset)) (infos : List (ℕ × LoggedInfo))
    (info : LoggedInfo) (n : ℕ)
    → find d.ptr.obj infos ≡ some info
    → info.live ≡ pos n
    → d.len ≤ n
    → manage_deleted (d ∷ ds) infos ≡ none
unfolding manage_deleted
manage_deleted-none d ds infos info n e k h = rw (e, k) (ground arith)

-- What an object whose ranges were unmapped adds to the image.
pub record Replayed (seq : ℕ) (h : DataHdr) (fetch : ℕ → Option Stored) (r : Recovered)
    : Type 0 where
  pub after : Recovered
  pub runs : apply_log fetch seq r ≡ applies after
  pub sorted : IsSorted after.objmap
  pub maps :
      (x : ℕ) → at after.objmap x ≡ or_else (placed seq h.hdr_sectors h.data_map x) (at r.objmap x)
  pub info :
      find seq after.obj_info
      ≡ some (record { hdr = h.hdr_sectors; data_len = h.data_sectors; live = pos h.data_sectors })

module _ (fetch : ℕ → Option Stored) (seq : ℕ) (h : DataHdr) (r : Recovered)
    (there : fetch seq ≡ some (record { kind = logdata; hdr = h })) where
  -- On a map in order, a data object of nonempty ranges, none of them mapped and none twice, is applied: its sectors are mapped to their last
  -- copies in it, as its batch mapped them, and all of it is live.
  pub apply_log-Replayed :
      Nonempty h.data_map
      → IsSorted r.objmap
      → (map_entries seq h.hdr_sectors h.data_map r.objmap).1 ≡ []
      → Replayed seq h fetch r
  unfolding apply_log manage_deleted
  apply_log-Replayed full v none_lost =
      let e = replay_records-all seq h.hdr_sectors h.data_map r.objmap in
      let info : LoggedInfo = record {
        hdr = h.hdr_sectors;
        data_len = h.data_sectors;
        live = pos h.data_sectors;
      } in
      record {
        after = record r {
          objmap = (map_entries seq h.hdr_sectors h.data_map r.objmap).0;
          obj_info = insert seq info r.obj_info;
        };
        runs = rw (there, apply_log, apply_data, e, none_lost, e);
        sorted = map_entries-IsSorted seq h.hdr_sectors h.data_map r.objmap full v;
        maps = λ x. at-map_entries seq h.hdr_sectors h.data_map r.objmap x full v;
        info = ground (arith, find-insert seq seq info r.obj_info);
      }

  -- The check for negative live sectors is inverted: a data object whose first lost extent lay in
  -- another, known object with at least as many live sectors stops the recovery.
  pub apply_log-throws :
      (d : Extent ObjOffset) (ds : List (Extent ObjOffset)) (info : LoggedInfo) (n : ℕ)
      → (map_entries seq h.hdr_sectors h.data_map r.objmap).1 ≡ d ∷ ds
      → d.ptr.obj ≢ seq
      → find d.ptr.obj r.obj_info ≡ some info
      → info.live ≡ pos n
      → d.len ≤ n
      → apply_log fetch seq r ≡ throws
  unfolding apply_log manage_deleted
  apply_log-throws d ds info n lost other known live enough =
      let e = replay_records-all seq h.hdr_sectors h.data_map r.objmap in
      let new : LoggedInfo = record {
        hdr = h.hdr_sectors;
        data_len = h.data_sectors;
        live = pos h.data_sectors;
      } in
      let found : find d.ptr.obj (insert seq new r.obj_info) ≡ some info =
        ground (arith, find-insert d.ptr.obj seq new r.obj_info) in
      rw (
        there,
        apply_log,
        apply_data,
        e,
        lost,
        manage_deleted-none d ds (insert seq new r.obj_info) info n found live enough,
      )
