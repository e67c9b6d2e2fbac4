-- ===== src/Image/Read/Serve.antt =====
-- src/image.cc, `handle_reads`: where each sector of a read comes from.
use lsvd_rbd.Base.{
  ℕ, zero, suc, ◌+◌, ◌-◌, ◌*◌, ◌/◌, ◌≤◌, ◌<◌, ◌≡◌, ap, ap₂, ◌∙◌, min, ltb, ltb-true, ltb-false,
  ◌==◌, Bool-cases, lt_or_le, inl, inr, if◌then◌else◌, Option, none, some, List, [], ◌∷◌, arith,
}
use lsvd_rbd.Extent.{Target, Extent, at}
use lsvd_rbd.Extent.Order.{Above-mono, IsSorted}
use lsvd_rbd.Extent.Map.Position.{Reaches, lower_bound-Found}
use lsvd_rbd.Extent.Map.Clear.{Found-high}
use lsvd_rbd.Extent.Map.{lookup, lower_bound}
use lsvd_rbd.Extent.Pointers.{ObjOffset, obj_target, SectorPtr, sector_target}
use lsvd_rbd.Image.Read.{
  Fill, zero_fill, copy_in, read_block, Piece, vals_at, skip_obscured, step_past, pass, Next,
  fill_zero, fill_buffer, fill_block, fill_next, read_loop, handle_reads,
}
use lsvd_rbd.Image.Read.Iterators.{
  Ready, vals_at-Vals, UpTo, skip_obscured-Ready, at-skip_obscured, pass-Ready, at-pass, UpTo-mono,
  Reaches-mono,
}

-- Where the data of one sector come from.
pub data Source : Type 0 where
  zeros : Source
  memory : SectorPtr → Source
  object : ObjOffset → Source

-- The specification: buffered writes first, then the objects, then zeros.
abbrev pub resolve : Option SectorPtr → Option ObjOffset → Source
resolve (some p) o = memory p
resolve none (some q) = object q
resolve none none = zeros

abbrev at_fill : Fill → ℕ → Source
at_fill zero_fill k = zeros
at_fill (copy_in p) k = memory (sector_target.plus p k)
at_fill (read_block key s) k = object (record key { offset = key.offset + (s + k) })

-- What the pieces, laid one behind the other, give for sector `k` of the read.
abbrev pub serve : List Piece → ℕ → Source
serve [] k = zeros
serve (p ∷ ps) k = if ltb k p.sectors then at_fill p.fill k else serve ps (k - p.sectors)

-- What a step of the loop passes on to the rest of it.
Correct : ℕ → ℕ → Next → Type 0
Correct start end next =
    (s off : ℕ) (bufs : List (Extent SectorPtr)) (objs : List (Extent ObjOffset)) (x : ℕ)
    → start < s
    → Ready s bufs
    → Ready s objs
    → s ≤ x
    → x < end
    → serve (next s off bufs objs) (x - s) ≡ resolve (at bufs x) (at objs x)

module _ (next : Next) (start end off : ℕ) (bufs : List (Extent SectorPtr))
    (objs : List (Extent ObjOffset)) (x : ℕ) (ih : Correct start end next) (inside : start < end)
    (rb : Ready start bufs) (ro : Ready start objs) (from : start ≤ x) (below : x < end) where
  null : SectorPtr
  null = record { buf = 0 }

  serve-fill_zero :
      (b3 : ℕ)
      → start < b3
      → ((y : ℕ) → start ≤ y → y < b3 → y < end → (at bufs y ≡ none) × (at objs y ≡ none))
      → Reaches b3 bufs
      → Reaches b3 objs
      → serve (fill_zero next b3 start off bufs objs) (x - start) ≡ resolve (at bufs x) (at objs x)
  unfolding fill_zero Correct
  serve-fill_zero b3 h hole fb fo = elim (lt_or_le x b3) [
    | inl low ↦
        let (empty_b, empty_o) = hole x from low below in
        rw (empty_b, empty_o, ltb-true (x - start) (b3 - start) (omega arith))
    | inr past ↦
        let q : x - start - (b3 - start) ≡ x - b3 = omega arith in
        rw (ltb-false (x - start) (b3 - start) (omega arith), q)
          (ih b3 _ bufs objs x h (record { sorted = rb.sorted; reaches = fb })
            (record { sorted = ro.sorted; reaches = fo }) past below)
  ]

  serve-fill_buffer :
      (l1 : ℕ) (p : SectorPtr)
      → start < l1
      → ((y : ℕ) → start ≤ y → y < l1 → at bufs y ≡ some (sector_target.plus p (y - start)))
      → Ready l1 (step_past bufs)
      → (l1 ≤ x → at (step_past bufs) x ≡ at bufs x)
      → serve (fill_buffer next l1 p start off bufs objs) (x - start)
        ≡ resolve (at bufs x) (at objs x)
  unfolding fill_buffer Correct
  serve-fill_buffer l1 p h hit rest same = elim (lt_or_le x l1) [
    | inl low ↦ rw (hit x from low, ltb-true (x - start) (l1 - start) (omega arith))
    | inr past ↦
        let q : x - start - (l1 - start) ≡ x - l1 = omega arith in
        rw (ltb-false (x - start) (l1 - start) (omega arith), q)
          (ih l1 _ (step_past bufs) (skip_obscured l1 objs) x h rest
              (skip_obscured-Ready l1 0 objs ro.sorted) past below
            ∙ ap₂ resolve (same past) (at-skip_obscured l1 x objs past))
  ]

  serve-fill_block :
      (l2 : ℕ) (p : ObjOffset)
      → start < l2
      → ((y : ℕ)
          → start ≤ y
          → y < l2
          → (at bufs y ≡ none) × (at objs y ≡ some (obj_target.plus p (y - start))))
      → Reaches l2 bufs
      → UpTo l2 objs
      → serve (fill_block next l2 p start off bufs objs) (x - start)
        ≡ resolve (at bufs x) (at objs x)
  unfolding fill_block Correct
  serve-fill_block l2 p h hit fb fo =
      let o = p.offset in
      let n = min (128 * (o / 128) + 128) (o + (l2 - start)) - o in
      let room : n ≤ l2 - start = omega arith in
      elim (lt_or_le x (start + n)) [
        | inl low ↦
            let (empty, found) = hit x from (omega arith) in
            rw (empty, found, ltb-true (x - start) n (omega arith))
              (ap object (ap (λ k. record p { offset = k }) (omega arith)))
        | inr past ↦
            let q : x - start - n ≡ x - (start + n) = omega arith in
            rw (ltb-false (x - start) n (omega arith), q)
              (ih (start + n) _ bufs (pass (start + n) objs) x (omega arith)
                  (record {
                    sorted = rb.sorted;
                    reaches = Reaches-mono (start + n) l2 bufs (omega arith) fb;
                  })
                  (pass-Ready (start + n) objs ro.sorted
                    (UpTo-mono (start + n) l2 objs (omega arith) fo))
                  past below
                ∙ ap (resolve (at bufs x)) (at-pass (start + n) x objs past))
      ]

  serve-fill_next :
      serve (fill_next next end start off bufs objs) (x - start) ≡ resolve (at bufs x) (at objs x)
  unfolding fill_next
  serve-fill_next =
      let vb = vals_at-Vals (record { buf = 0 }) bufs start end inside rb in
      let vo = vals_at-Vals (record { obj = 0; offset = 0 }) objs start end inside ro in
      let (b1, l1, p1) = vals_at (record { buf = 0 }) bufs start end in
      let (b2, l2, p2) = vals_at (record { obj = 0; offset = 0 }) objs start end in
      elim (lt_or_le start (min b1 b2)) [
        | inl gap ↦
            rw (ltb-true start (min b1 b2) gap, fill_next)
              (serve-fill_zero (min b1 b2) gap
                (λ y a b c. (vb.hole y (omega arith) c a, vo.hole y (omega arith) c a))
                (vb.far (min b1 b2) (omega arith) (omega arith))
                (vo.far (min b1 b2) (omega arith) (omega arith)))
        | inr none_free ↦
            rw (ltb-false start (min b1 b2) none_free, fill_next)
              (elim (Bool-cases (b1 == start)) [
                | inl e ↦
                    let here : b1 ≡ start = ground arith in
                    rw (e, fill_next)
                      (serve-fill_buffer l1 p1 (vb.room here).0 (vb.hit here) (vb.rest here)
                        (λ a. vb.same here x a below))
                | inr e ↦
                    let ahead : start < b1 = ground (arith, vb.ge) in
                    let here : b2 ≡ start = omega (arith, vo.ge) in
                    rw (e, fill_next)
                      (serve-fill_block (min l2 b1) p2 (omega (arith, (vo.room here).0))
                        (λ y a b. (
                          vb.hole y (omega arith) (omega (arith, (vo.room here).1)) a,
                          vo.hit here y a (omega arith),
                        ))
                        (vb.far (min l2 b1) ahead (omega arith))
                        (UpTo-mono (min l2 b1) l2 objs (omega arith) (vo.upto here)))
              ])
      ]

serve-read_loop :
    (fuel end s off : ℕ) (bufs : List (Extent SectorPtr)) (objs : List (Extent ObjOffset)) (x : ℕ)
    → end - s ≤ fuel
    → Ready s bufs
    → Ready s objs
    → s ≤ x
    → x < end
    → serve (read_loop fuel end s off bufs objs) (x - s) ≡ resolve (at bufs x) (at objs x)
unfolding read_loop Correct
serve-read_loop zero end s off bufs objs x f rb ro h k = absurd (omega arith)
serve-read_loop (suc fuel) end s off bufs objs x f rb ro h k =
    let inside : s < end = omega arith in
    rw (ltb-true s end inside, read_loop)
      (serve-fill_next (read_loop fuel end) s end off bufs objs x
        (λ s' off' bufs' objs' y a b c d e.
          serve-read_loop fuel end s' off' bufs' objs' y (omega arith) b c d e)
        inside rb ro h k)

at-lookup :
    {P : Type 0} ⦃t : Target P⦄ (m : List (Extent P)) (b x : ℕ)
    → IsSorted m
    → b ≤ x
    → at (lookup m b).rest x ≡ at m x
unfolding lookup
at-lookup m b x v h = Found-high m b x (lower_bound m b) (lower_bound-Found m b v) h

lookup-Ready : {P : Type 0} (m : List (Extent P)) (b : ℕ) → IsSorted m → Ready b (lookup m b).rest
unfolding lookup
lookup-Ready m b v =
    let f = lower_bound-Found m b v in
    record { sorted = Above-mono (lower_bound m b).rest (omega arith) f.after; reaches = f.reaches }

-- Each sector of a read comes from where the buffered writes have it, else from where the object map
-- has it, else it is zero, for maps in order.
pub serve-handle_reads :
    (start end x : ℕ) (bufmap : List (Extent SectorPtr)) (objmap : List (Extent ObjOffset))
    → IsSorted bufmap
    → IsSorted objmap
    → start ≤ x
    → x < end
    → serve (handle_reads start end bufmap objmap) (x - start) ≡ resolve (at bufmap x) (at objmap x)
unfolding handle_reads
serve-handle_reads start end x bufmap objmap vb vo h k =
    serve-read_loop (end - start) end start 0 (lookup bufmap start).rest (lookup objmap start).rest
      x (omega arith) (lookup-Ready bufmap start vb) (lookup-Ready objmap start vo) h k
    ∙ ap₂ resolve (at-lookup bufmap start x vb h) (at-lookup objmap start x vo h)
