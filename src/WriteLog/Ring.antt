-- ===== src/WriteLog/Ring.antt =====
-- src/write_cache.cc, `allocate`: the pages that it gives out.
use lsvd_rbd.Base.{ℕ, ◌+◌, ◌-◌, ◌/◌, ◌≤◌, ◌<◌, ◌≡◌, ◌⊎◌, refl, ltb, some, if◌then◌else◌, arith}
use lsvd_rbd.WriteLog.{WriteLog, Allocation, wrap, allocate, init_super, open_log}

-- The next page lies in the ring, and the ring lies behind the headers of the file.
pub record InRing (w : WriteLog) : Type 0 where
  pub headers : 1 < w.super.base
  pub above : w.super.base ≤ w.next_alloc
  pub below : w.next_alloc < w.super.limit

-- What `allocate` gives for `n` pages: they lie in the ring; without a pad they follow the page where
-- the log stood, with one they begin at the base, and the pad takes the rest of the ring. The ring is
-- ready for the next call, which will see the header just given as the one before.
pub record Allocated (n : ℕ) (w : WriteLog) : Type 0 where
  pub given : Allocation
  pub after : WriteLog
  pub runs : allocate n w ≡ some (given, after)
  pub low : w.super.base ≤ given.start
  pub high : given.start + n ≤ w.super.limit
  pub placed :
      ((given.pad ≡ 0) × (given.n_pad ≡ 0) × (given.start ≡ w.next_alloc))
      ⊎ ((given.pad ≡ w.next_alloc)
          × (given.pad + given.n_pad ≡ w.super.limit)
          × (given.n_pad < n)
          × (given.start ≡ w.super.base))
  pub previous : given.prev ≡ w.previous_hdr
  pub last : after.previous_hdr ≡ given.start
  pub same : after.super ≡ w.super
  pub ready : InRing after

-- `allocate` of at least one page and at most a whole ring runs on every state in the ring, and gives
-- pages as `Allocated` says.
pub allocate-Allocated :
    (n : ℕ) (w : WriteLog) → InRing w → 0 < n → n ≤ w.super.limit - w.super.base → Allocated n w
unfolding allocate
allocate-Allocated n w v pos fits =
    let padded = ltb (w.super.limit - w.next_alloc) n in
    let start = if padded then w.super.base else w.next_alloc in
    record {
      given = record {
        start = start;
        pad = if padded then w.next_alloc else 0;
        n_pad = if padded then w.super.limit - w.next_alloc else 0;
        prev = w.previous_hdr;
      };
      after = record w { previous_hdr = start; next_alloc = wrap w.super (start + n) };
      runs = ground arith;
      low = ground arith;
      high = ground arith;
      placed = ground arith;
      previous = refl;
      last = refl;
      same = refl;
      ready = ground arith;
    }

-- The layout of a new log of at least seven pages: the superblock's page and the one before are
-- outside the ring, the ring is not empty and lies within the file, and the log opens in it.
pub open_log-InRing :
    (cache_size : ℕ)
    → 7 ≤ cache_size / 4096
    → InRing (open_log (init_super cache_size))
      × ((init_super cache_size).limit ≤ cache_size / 4096)
unfolding open_log init_super
open_log-InRing cache_size h = (omega arith, omega arith)
