-- ===== src/Image/Recovery/Roll.antt =====
-- src/image.cc: the loop over the log ends where the objects end.
use lsvd_rbd.Base.{
  ℕ, zero, suc, ◌+◌, ◌≤◌, ◌<◌, ◌≡◌, ◌≢◌, refl, subst, ◌⊎◌, inl, inr, Option, none, arith,
}
use lsvd_rbd.Image.Recovery.{
  Stored, Recovered, LogResult, stops, applies, throws, RollResult, rolled, thrown, out_of_fuel,
  read_data_hdr, apply_log, apply_data, roll,
}

-- The backend has no data object of this number.
abbrev pub IsGap : (ℕ → Option Stored) → ℕ → Type 0
IsGap fetch n = read_data_hdr fetch n ≡ none

-- The loop stopped at a number, or by the exception.
abbrev pub EndsAt : ℕ → RollResult → Type 0
EndsAt n (rolled seq r) = seq ≡ n
EndsAt n thrown = Unit {0}
EndsAt n out_of_fuel = ⊥

apply_log-gap :
    (fetch : ℕ → Option Stored) (seq : ℕ) (r : Recovered)
    → IsGap fetch seq
    → apply_log fetch seq r ≡ stops
unfolding apply_log
apply_log-gap fetch seq r h = rw (h, apply_log)

LogResult-cases : (l : LogResult) → (l ≡ stops) ⊎ ((r : Recovered) × (l ≡ applies r)) ⊎ (l ≡ throws)
LogResult-cases stops = inl refl
LogResult-cases (applies r) = inr (inl (r, refl))
LogResult-cases throws = inr (inr refl)

apply_data-ne-stops : (seq : ℕ) (o : Stored) (r : Recovered) → apply_data seq o.hdr r ≢ stops
unfolding apply_data
apply_data-ne-stops seq o r h = ground arith

stops-IsGap :
    (fetch : ℕ → Option Stored) (seq : ℕ) (r : Recovered)
    → apply_log fetch seq r ≡ stops
    → IsGap fetch seq
unfolding apply_log
stops-IsGap fetch seq r h = ground (arith, apply_data-ne-stops seq)

-- With fuel for the objects up to the first gap and one more, the loop over the log ends: at the gap,
-- unless an object on the way throws.
pub roll-EndsAt :
    (fetch : ℕ → Option Stored) (stop k fuel seq : ℕ) (r : Recovered)
    → seq + k ≡ stop
    → IsGap fetch stop
    → ((i : ℕ) → seq ≤ i → i < stop → ¬ IsGap fetch i)
    → k < fuel
    → EndsAt stop (roll fetch fuel seq r)
unfolding roll
roll-EndsAt fetch stop k zero seq r e g there f = elim f [ ]
roll-EndsAt fetch stop zero (suc fuel) seq r e g there f =
    rw (apply_log-gap fetch seq r (subst (IsGap fetch) (omega arith) g), roll) (omega arith)
roll-EndsAt fetch stop (suc k) (suc fuel) seq r e g there f =
    elim (LogResult-cases (apply_log fetch seq r)) [
      | inl s ↦ absurd (there seq (omega arith) (omega arith) (stops-IsGap fetch seq r s))
      | inr (inl (r', s)) ↦
          rw (s, roll)
            (roll-EndsAt fetch stop k fuel (seq + 1) r' (omega arith) g
              (λ i h h'. there i (omega arith) h') (omega arith))
      | inr (inr s) ↦ rw (s, roll) tt
    ]
