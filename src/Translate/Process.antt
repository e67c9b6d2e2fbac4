-- ===== src/Translate/Process.antt =====
-- src/translate.cc, `process_batch` and `trim`: the state after them.
use Prim.Native.String.{String}
use lsvd_rbd.Base.{
  ℕ, ◌+◌, ◌-◌, ◌*◌, ◌/◌, ◌<◌, ◌≡◌, refl, false, leb-true, or_else, some, Option-cases, inl, inr,
  List, [], ◌∷◌, ◌++◌, map, length, length-map, arith,
}
use lsvd_rbd.Base.Int.{raise}
use lsvd_rbd.Base.Assoc.{find, insert, find-insert}
use lsvd_rbd.Extent.{at}
use lsvd_rbd.Extent.Order.{IsSorted}
use lsvd_rbd.Extent.Map.{trim}
use lsvd_rbd.Extent.Map.Update.{unmapped, at-trim, trim-IsSorted}
use lsvd_rbd.Extent.Map.Weight.{weight, weight-trim}
use lsvd_rbd.Extent.Pointers.{obj_target}
use lsvd_rbd.Translate.{
  Entry, ObjInfo, DataHdr, State, put_object, cache_insert, hdr_sectors_for, prefix, make_obj_hdr,
  map_entries, sum_len, range_of, process_batch, discard,
}
use lsvd_rbd.Translate.Batch.{
  in_obj, Nonempty, placed, map_entries-IsSorted, at-map_entries, weight-map_entries,
}
use lsvd_rbd.Translate.Account.{Covers, deduct-Deducted}

-- The live sectors of each known object are the sectors that the map points at in it.
pub record IsAccounted (s : State) : Type 0 where
  pub sorted : IsSorted s.objmap
  pub live :
      (o : ℕ) (info : ObjInfo)
      → find o s.object_info ≡ some info
      → info.live ≡ weight (in_obj o) s.objmap

-- The header that a batch writes.
abbrev pub batch_hdr : ℕ → List Entry → DataHdr
batch_hdr seq entries = record {
  seq = seq;
  hdr_sectors = hdr_sectors_for (length entries);
  data_sectors = sum_len (map range_of entries);
  data_map = map range_of entries;
  is_gc = false;
}

make_obj_hdr_lem :
    (seq : ℕ) (entries : List Entry) (n : ℕ)
    → make_obj_hdr seq (hdr_sectors_for (length entries)) n (map range_of entries) false
      ≡ some (record (batch_hdr seq entries) { data_sectors = n })
unfolding make_obj_hdr
make_obj_hdr_lem seq entries n =
    let e = length-map range_of entries in
    rw (
      leb-true (72 + length (map range_of entries) * 8) (hdr_sectors_for (length entries) * 512)
        (omega arith))

-- What a batch does to a state in which its number is new: it runs, keeps the accounts, maps each
-- sector of the batch to its last copy in the new object and leaves the others, and sends the header
-- with the ranges of the batch.
pub record Processed (seq len : ℕ) (entries : List Entry) (pf : String) (s : State) : Type 0 where
  pub after : State
  pub runs : process_batch seq len entries s ≡ some after
  pub accounted : IsAccounted after
  pub maps :
      (x : ℕ)
      → at after.objmap x
        ≡ or_else
            (placed seq (hdr_sectors_for (length entries)) (map range_of entries) x)
            (at s.objmap x)
  pub sends :
      after.events
      ≡ s.events
        ++ (cache_insert pf seq
              ((hdr_sectors_for (length entries) + sum_len (map range_of entries)) * 512)
            ∷ put_object pf (batch_hdr seq entries)
            ∷ [])

module _ (seq len : ℕ) (entries : List Entry) (pf : String) (s : State) (v : IsAccounted s)
    (new : weight (in_obj seq) s.objmap ≡ 0) (full : Nonempty (map range_of entries))
    (bytes : len ≡ sum_len (map range_of entries) * 512)
    (named : prefix s.name s.clones seq ≡ some pf) where
  -- From books that agree with a map in order, a batch with a new number, nonempty ranges, as many
  -- bytes as its ranges have sectors, and a named object runs: it ends in such books again, the map
  -- finds each sector of the batch at its last copy in the new object and every other sector where it
  -- was, and the insertion into the cache and the object with its header are sent (see `Processed`).
  pub process_batch-Processed : Processed seq len entries pf s
  unfolding process_batch
  process_batch-Processed =
      let extents = map range_of entries in
      let hdr_sectors = hdr_sectors_for (length entries) in
      let total_len = sum_len extents in
      let q : len / 512 ≡ total_len = omega (arith, bytes) in
      let info : ObjInfo = record { hdr = hdr_sectors; data_len = total_len; live = total_len } in
      let infos = insert seq info s.object_info in
      let m = (map_entries seq hdr_sectors extents s.objmap).0 in
      let del = (map_entries seq hdr_sectors extents s.objmap).1 in
      let covers : Covers infos del = λ o info' h. ground (
        arith,
        find-insert o seq info s.object_info,
        weight-map_entries o seq hdr_sectors extents s.objmap full v.sorted,
        v.live o info',
      ) in
      let d = deduct-Deducted del infos s.total_live_sectors covers in
      let mine : find seq d.infos'
          ≡ some (record info { live = info.live - weight (in_obj seq) del }) =
        ground (arith, d.takes seq, find-insert seq seq info s.object_info) in
      record {
        after = record s {
          objmap = m;
          object_info = d.infos';
          total_live_sectors = raise d.total' (info.live - weight (in_obj seq) del);
          total_sectors = raise s.total_sectors total_len;
          outstanding_writes = s.outstanding_writes + 1;
          events =
              s.events
              ++ (cache_insert pf seq ((hdr_sectors + total_len) * 512)
                  ∷ put_object pf (batch_hdr seq entries)
                  ∷ []);
        };
        runs = rw (process_batch, q, d.runs, mine, make_obj_hdr_lem seq entries total_len, named);
        accounted = record {
          sorted = map_entries-IsSorted seq hdr_sectors extents s.objmap full v.sorted;
          live = λ o info' h. elim (Option-cases (find o s.object_info)) [
            | inl e ↦ ground (
              arith,
              d.takes o,
              find-insert o seq info s.object_info,
              weight-map_entries o seq hdr_sectors extents s.objmap full v.sorted,
            )
            | inr (old, e) ↦ ground (
              arith,
              d.takes o,
              find-insert o seq info s.object_info,
              weight-map_entries o seq hdr_sectors extents s.objmap full v.sorted,
              v.live o old e,
            )
          ];
        };
        maps = λ x. at-map_entries seq hdr_sectors extents s.objmap x full v.sorted;
        sends = refl;
      }

-- What `trim` does: it runs, keeps the accounts, unmaps the sectors of the range and no others, and
-- sends nothing.
pub record Discarded (offset len : ℕ) (s : State) : Type 0 where
  pub after : State
  pub runs : discard offset len s ≡ some after
  pub accounted : IsAccounted after
  pub maps : (x : ℕ) → at after.objmap x ≡ unmapped s.objmap (offset / 512) ((offset + len) / 512) x
  pub silent : after.events ≡ s.events

-- From books that agree with a map in order, `trim` of a range that holds the end of a sector runs
-- without failing its assertion, keeps the books, unmaps exactly the sectors from the one of the
-- offset up to the one of the end, and sends nothing.
pub discard-Discarded :
    (offset len : ℕ) (s : State)
    → IsAccounted s
    → offset / 512 < (offset + len) / 512
    → Discarded offset len s
unfolding discard
discard-Discarded offset len s v h =
    let b = offset / 512 in
    let l = (offset + len) / 512 in
    let m = (trim s.objmap b l).0 in
    let del = (trim s.objmap b l).1 in
    let covers : Covers s.object_info del = λ o info e.
      ground
        (arith, weight-trim (in_obj o) (λ p n. refl) s.objmap b l v.sorted h, v.live o info e) in
    let d = deduct-Deducted del s.object_info s.total_live_sectors covers in
    record {
      after = record s { objmap = m; object_info = d.infos'; total_live_sectors = d.total' };
      runs = rw (discard, d.runs);
      accounted = record {
        sorted = trim-IsSorted s.objmap b l v.sorted h;
        live = λ o info' e. elim (Option-cases (find o s.object_info)) [
          | inl k ↦ ground (arith, d.takes o)
          | inr (old, k) ↦ ground (
            arith,
            d.takes o,
            weight-trim (in_obj o) (λ p n. refl) s.objmap b l v.sorted h,
            v.live o old k,
          )
        ];
      };
      maps = λ x. at-trim s.objmap b l x v.sorted h;
      silent = refl;
    }
