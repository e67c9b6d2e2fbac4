-- ===== src/Translate/Readers/Uncounted.antt =====
-- src/translate.cc: the count of the reads of an object is one too low.
use lsvd_rbd.Base.{ℕ, zero, suc, ◌+◌, ◌≡◌, none, some, List, arith}
use lsvd_rbd.Base.Int.{ℤ, pos, negsuc}
use lsvd_rbd.Base.Assoc.{find, find-insert, find-erase}
use lsvd_rbd.Translate.Readers.{object_read_start, object_read_end, starts, ends}

find-starts :
    (obj n : ℕ) (t : List (ℕ × ℤ))
    → find obj t ≡ none
    → find obj (starts obj (suc n) t) ≡ some (pos n)
unfolding starts object_read_start
find-starts obj zero t h = ground (arith, find-insert obj obj (pos 0) t)
find-starts obj (suc n) t h =
    ground (arith, find-starts obj n t h, find-insert obj obj (pos (n + 1)) (starts obj (suc n) t))

find-ends :
    (obj n : ℕ) (t : List (ℕ × ℤ))
    → find obj t ≡ some (pos (suc n))
    → find obj (ends obj (suc n) t) ≡ none
unfolding ends object_read_end
find-ends obj zero t h = ground (arith, find-erase obj obj t)
find-ends obj (suc n) t h =
    find-ends obj n (object_read_end obj t) (ground (arith, find-insert obj obj (pos (suc n)) t))

-- From a table without the object: when two reads or more of it start one after the other, and then
-- all but one end with no start in between, the table has no entry for it, so that the object is
-- not kept from deletion while the last read goes on; and when a single read starts and ends, it has
-- an entry of -1.
pub find-ends-starts :
    (obj n : ℕ) (t : List (ℕ × ℤ))
    → find obj t ≡ none
    → (find obj (ends obj (suc n) (starts obj (suc (suc n)) t)) ≡ none)
      × (find obj (ends obj 1 (starts obj 1 t)) ≡ some (negsuc 0))
unfolding ends object_read_end
find-ends-starts obj n t h = (
  find-ends obj n (starts obj (suc (suc n)) t) (find-starts obj (suc n) t h),
  ground (arith, find-starts obj 0 t h, find-insert obj obj (negsuc 0) (starts obj 1 t)),
)
