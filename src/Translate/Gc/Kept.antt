-- ===== src/Translate/Gc/Kept.antt =====
-- src/translate.cc, `write_gc`: the state after it.
use Prim.Native.String.{String}
use lsvd_rbd.Base.{
  ℕ, ◌+◌, ◌*◌, ◌<◌, ◌≡◌, ◌≢◌, refl, ◌∙◌, true, leb-true, or_else, Option, none, some, Option-cases,
  inl, inr, List, [], ◌∷◌, ◌++◌, map, length, arith,
}
use lsvd_rbd.Base.Assoc.{find, insert}
use lsvd_rbd.Extent.{Extent, at}
use lsvd_rbd.Extent.Order.{IsSorted}
use lsvd_rbd.Extent.Pointers.{ObjOffset, obj_target}
use lsvd_rbd.Translate.{
  Entry, ObjInfo, DataHdr, State, put_object, hdr_sectors_for, prefix, make_obj_hdr, map_entries,
  sum_len,
}
use lsvd_rbd.Translate.Batch.{
  Nonempty, placed, map_entries-IsSorted, at-map_entries, weight-map_entries,
}
use lsvd_rbd.Translate.Account.{Covers, deduct-Deducted}
use lsvd_rbd.Translate.Process.{IsAccounted}
use lsvd_rbd.Translate.Gc.{Piece, revalidate_all, extent_of, copied_from, write_gc}
use lsvd_rbd.Translate.Gc.Moved.{Good, HaveData, placed-Good, revalidate_all-Good}

-- The pieces of a request that are moved, and the header of the new object.
abbrev pub pieces : List Entry → State → List Piece
pieces entries s = revalidate_all 0 entries s.objmap

abbrev pub gc_hdr_sectors : List Entry → State → ℕ
gc_hdr_sectors entries s = hdr_sectors_for (length (map extent_of (pieces entries s)))

-- The data of a sector: those at its place, or blank where it is not mapped.
abbrev pub read_at : {D : Type 0} → (ObjOffset → D) → D → Option ObjOffset → D
read_at disk blank none = blank
read_at disk blank (some q) = disk q

Good-Nonempty :
    {D : Type 0} (disk : ObjOffset → D) (gc_data : ℕ → D) (m : List (Extent ObjOffset))
    (ps : List Piece)
    → Good disk gc_data m ps
    → Nonempty (map extent_of ps)
Good-Nonempty disk gc_data m [] g = tt
Good-Nonempty disk gc_data m (p ∷ ps) g = (g.0, Good-Nonempty disk gc_data m ps g.2)

-- What a collection does: it runs, keeps the map in order, and changes the data of no sector, whatever
-- the backend holds behind the header in the new object, as long as those are the data copied.
pub record Kept {D : Type 0} (disk new_disk : ObjOffset → D) (blank : D) (seq : ℕ)
    (entries : List Entry) (s : State) : Type 0 where
  pub after : State
  pub runs : write_gc seq entries s ≡ some after
  pub sorted : IsSorted after.objmap
  pub reads :
      (x : ℕ) → read_at new_disk blank (at after.objmap x) ≡ read_at disk blank (at s.objmap x)

module _ {D : Type 0} (disk new_disk : ObjOffset → D) (blank : D) (gc_data : ℕ → D) (seq : ℕ)
    (entries : List Entry) (pf : String) (s : State) (v : IsAccounted s)
    (held : HaveData disk gc_data s.objmap 0 entries)
    (new : (x : ℕ) (q : ObjOffset) → at s.objmap x ≡ some q → q.obj ≢ seq)
    (unknown : find seq s.object_info ≡ none) (named : prefix s.name s.clones seq ≡ some pf)
    (written : (k : ℕ)
      → k < sum_len (map extent_of (pieces entries s))
      → new_disk (record { obj = seq; offset = gc_hdr_sectors entries s + k })
        ≡ gc_data (copied_from (pieces entries s) k))
    (others : (q : ObjOffset) → q.obj ≢ seq → new_disk q ≡ disk q) where
  write_gc-reads :
      (x : ℕ)
      → read_at new_disk blank (
          or_else
            (placed seq (gc_hdr_sectors entries s) (map extent_of (pieces entries s)) x)
            (at s.objmap x))
        ≡ read_at disk blank (at s.objmap x)
  write_gc-reads x =
      let ps = pieces entries s in
      let good = revalidate_all-Good disk gc_data 0 entries s.objmap v.sorted held in
      elim (Option-cases (placed seq (gc_hdr_sectors entries s) (map extent_of ps) x)) [
        | inl n ↦ rw (n) (elim (Option-cases (at s.objmap x)) [
          | inl u ↦ rw (u) refl
          | inr (q, u) ↦ rw (u) (others q (new x q u))
        ])
        | inr (q, n) ↦
            let (k, eq, few, found) =
              placed-Good disk gc_data s.objmap seq (gc_hdr_sectors entries s) x ps q good n in
            let (p, there, same) = found in rw (n, there, eq) (written k few ∙ same)
      ]

  -- From books that agree with a map in order, under a number that is new to both, and with the data
  -- of each entry read from where it was found, `write_gc` runs and every sector has the data that it
  -- had, if the new object holds the data copied and the others what they held (see `Kept`).
  pub write_gc-Kept : Kept disk new_disk blank seq entries s
  unfolding write_gc make_obj_hdr
  write_gc-Kept =
      let ps = pieces entries s in
      let extents = map extent_of ps in
      let hdr_sectors = gc_hdr_sectors entries s in
      let good = revalidate_all-Good disk gc_data 0 entries s.objmap v.sorted held in
      let full = Good-Nonempty disk gc_data s.objmap ps good in
      let m = (map_entries seq hdr_sectors extents s.objmap).0 in
      let del = (map_entries seq hdr_sectors extents s.objmap).1 in
      let covers : Covers s.object_info del = λ o info h. ground (
        arith,
        weight-map_entries o seq hdr_sectors extents s.objmap full v.sorted,
        v.live o info,
      ) in
      let d = deduct-Deducted del s.object_info s.total_live_sectors covers in
      let data_sectors = sum_len extents in
      let info : ObjInfo = record {
        hdr = hdr_sectors;
        data_len = data_sectors;
        live = data_sectors;
      } in
      let hdr : DataHdr = record {
        seq = seq;
        hdr_sectors = hdr_sectors;
        data_sectors = data_sectors;
        data_map = extents;
        is_gc = true;
      } in
      record {
        after = record s {
          objmap = m;
          object_info = insert seq info d.infos';
          total_live_sectors = d.total';
          outstanding_writes = s.outstanding_writes + 1;
          events = s.events ++ (put_object pf hdr ∷ []);
        };
        runs =
            rw
              (
                write_gc,
                d.runs,
                leb-true (72 + length extents * 8) (hdr_sectors * 512) (omega arith),
                named,
              )
              refl;
        sorted = map_entries-IsSorted seq hdr_sectors extents s.objmap full v.sorted;
        reads = λ x.
            rw (at-map_entries seq hdr_sectors extents s.objmap x full v.sorted) (write_gc-reads x);
      }
