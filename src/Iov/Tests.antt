-- ===== src/Iov/Tests.antt =====
-- Runs of the scatter-gather buffers on the buffer of the test in src/smartiov.h, and the theorems
-- there.
use lsvd_rbd.Base.{◌+◌, ◌-◌, ◌≡◌, refl, inl, some, List, [], ◌∷◌, take, drop, true, arith}
use lsvd_rbd.Iov.{Iovec, Memory, bytes, slice, copy_in, copy_out, aligned}
use lsvd_rbd.Iov.Bytes.{addresses, span, contents}
use lsvd_rbd.Iov.Slice.{slice-addresses}
use lsvd_rbd.Iov.Copy.{Separate, AllApart, Apart, buffer, copy_out-copy_in}

abbrev four : List Iovec
four =
    record { base = 1000; len = 117 }
    ∷ record { base = 1117; len = 204 }
    ∷ record { base = 1321; len = 412 }
    ∷ record { base = 1733; len = 267 }
    ∷ []

abbrev memory : Memory
memory x = x + 7

slice_runs :
    slice four 200 500
    ≡ some (record { base = 1200; len = 121 } ∷ record { base = 1321; len = 179 } ∷ [])
unfolding slice
slice_runs = refl

-- An offset at the end of an iovec gives an empty iovec first.
slice_at_end_runs :
    slice four 117 200
    ≡ some (record { base = 1117; len = 0 } ∷ record { base = 1117; len = 83 } ∷ [])
unfolding slice
slice_at_end_runs = refl

aligned_runs :
    aligned (record { base = 4096; len = 9 } ∷ record { base = 512; len = 1 } ∷ []) 9 ≡ true
unfolding aligned
aligned_runs = refl

abbrev two : List Iovec
two = record { base = 100; len = 2 } ∷ record { base = 200; len = 3 } ∷ []

two-Separate : Separate two
unfolding Separate AllApart Apart
two-Separate = ((inl (omega arith), tt), (tt, tt))

src-AllApart : AllApart (buffer 10 two) two
unfolding AllApart Apart buffer bytes
src-AllApart = (inl (omega arith), (inl (omega arith), tt))

dst-AllApart : AllApart (buffer 20 two) two
unfolding AllApart Apart buffer bytes
dst-AllApart = (inl (omega arith), (inl (omega arith), tt))

copy_in_runs : contents (addresses two) (copy_in two 10 memory) ≡ 17 ∷ 18 ∷ 19 ∷ 20 ∷ 21 ∷ []
unfolding copy_in
copy_in_runs = refl

slice-addresses_example :
    (w : List Iovec) × ((slice four 200 500 ≡ some w)
      × (addresses w ≡ take (500 - 200) (drop 200 (addresses four))))
unfolding bytes
slice-addresses_example = slice-addresses four 200 500 (omega arith) (omega arith) (omega arith)

copy_out-copy_in_example :
    contents (span 20 (bytes two)) (copy_out two 20 (copy_in two 10 memory))
    ≡ contents (span 10 (bytes two)) memory
copy_out-copy_in_example = copy_out-copy_in two 10 20 memory two-Separate src-AllApart dst-AllApart
