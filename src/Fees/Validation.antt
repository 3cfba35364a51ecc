-- ===== src/Fees/Validation.antt =====
-- What `validateFeeSchedule` lets through.
use netcam.Prelude.Int.{pos, negsuc}
use netcam.Prelude.{ℕ, ◌≤◌, ◌≡◌, ◌↔◌, inl, inr, none, some, Option-cases, arith, refl}
use netcam.Fees.{
  Num, whole, other, whole_amount, FeeSchedule, RawSchedule, whole_schedule, validate_fee_schedule,
  limit_problem,
}

-- The five numbers are whole and not negative, and these are their values.
pub record AreWhole (r : RawSchedule) (s : FeeSchedule) : Type 0 where
  pub min_amount : r.min_amount_ugx ≡ whole (pos s.min_amount_ugx)
  pub max_amount : r.max_amount_ugx ≡ whole (pos s.max_amount_ugx)
  pub band_size : r.band_size_ugx ≡ whole (pos s.band_size_ugx)
  pub base_fee : r.base_fee_ugx ≡ whole (pos s.base_fee_ugx)
  pub step_fee : r.step_fee_ugx ≡ whole (pos s.step_fee_ugx)

pub record IsValid (s : FeeSchedule) : Type 0 where
  pub min_allowed : 500 ≤ s.min_amount_ugx
  pub max_allowed : s.max_amount_ugx ≤ 7000000
  pub ordered : s.min_amount_ugx ≤ s.max_amount_ugx
  pub wide : 1000 ≤ s.band_size_ugx

limit_problem_iff : (s : FeeSchedule) → (limit_problem s ≡ none) ↔ IsValid s
unfolding limit_problem
limit_problem_iff s = (λ h. ground arith, λ v. ground arith)

whole_amount_lem : (n : Num) (k : ℕ) → whole_amount n ≡ some k → n ≡ whole (pos k)
whole_amount_lem (whole (pos m)) k h = ground (arith, h)
whole_amount_lem (whole (negsuc m)) k h = ground (arith, h)
whole_amount_lem other k h = ground (arith, h)

whole_schedule_lem : (r : RawSchedule) (s : FeeSchedule) → whole_schedule r ≡ some s → AreWhole r s
whole_schedule_lem r s h = record {
  min_amount = whole_amount_lem r.min_amount_ugx s.min_amount_ugx (ground (arith, h));
  max_amount = whole_amount_lem r.max_amount_ugx s.max_amount_ugx (ground (arith, h));
  band_size = whole_amount_lem r.band_size_ugx s.band_size_ugx (ground (arith, h));
  base_fee = whole_amount_lem r.base_fee_ugx s.base_fee_ugx (ground (arith, h));
  step_fee = whole_amount_lem r.step_fee_ugx s.step_fee_ugx (ground (arith, h));
}

AreWhole-whole_schedule :
    (r : RawSchedule) (s : FeeSchedule) → AreWhole r s → whole_schedule r ≡ some s
AreWhole-whole_schedule r s w =
    rw (w.min_amount, w.max_amount, w.band_size, w.base_fee, w.step_fee) refl

-- A schedule is accepted exactly when its five values are whole and not negative, its range lies
-- within 500 to 7,000,000, is not empty, and its bands are at least 1,000 wide.
pub validate_fee_schedule_iff :
    (r : RawSchedule)
    → (validate_fee_schedule r ≡ none) ↔ ((s : FeeSchedule) × AreWhole r s × IsValid s)
unfolding validate_fee_schedule
validate_fee_schedule_iff r = (
  λ h. elim (Option-cases (whole_schedule r)) [
    | inl refused ↦ absurd (ground arith)
    | inr (s, e) ↦ (s, whole_schedule_lem r s e, (limit_problem_iff s).0 (ground arith))
  ],
  λ (s, w, v). ground (arith, AreWhole-whole_schedule r s w, (limit_problem_iff s).1 v),
)
