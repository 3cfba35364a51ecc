-- ===== src/Fees.antt =====
-- apps/api/src/finance/withdrawal-fees.ts: the fee schedule of withdrawals.
pub mod Validation
pub mod Bands
pub mod Tiers
mod Tests
use netcam.Prelude.{
  ℕ, zero, suc, ◌+◌, ◌-◌, ◌*◌, ◌/◌, min, Option, none, some, List, [], ◌∷◌, Result, ok, err, ltb,
  leb, ◌==◌, if◌then◌else◌,
}
use netcam.Prelude.Int.{ℤ, pos, negsuc, pos_part, ltb_ℤ}

-- A JavaScript number: `other` is any that `Number.isInteger` refuses.
pub data Num : Type 0 where
  whole : ℤ → Num
  other : Num

pub record FeeSchedule : Type 0 where
  pub min_amount_ugx : ℕ
  pub max_amount_ugx : ℕ
  pub band_size_ugx : ℕ
  pub base_fee_ugx : ℕ
  pub step_fee_ugx : ℕ

-- A schedule before validation.
pub record RawSchedule : Type 0 where
  pub min_amount_ugx : Num
  pub max_amount_ugx : Num
  pub band_size_ugx : Num
  pub base_fee_ugx : Num
  pub step_fee_ugx : Num

abbrev pub ssentezo_min_ugx : ℕ
ssentezo_min_ugx = 500

abbrev pub ssentezo_max_ugx : ℕ
ssentezo_max_ugx = 7000000

abbrev pub default_fee_schedule : FeeSchedule
default_fee_schedule = record {
  min_amount_ugx = 500;
  max_amount_ugx = ssentezo_max_ugx;
  band_size_ugx = 20000;
  base_fee_ugx = 2500;
  step_fee_ugx = 500;
}

pub data ScheduleProblem : Type 0 where
  not_whole min_too_low max_too_high min_above_max band_too_small : ScheduleProblem

-- `Number.isInteger(n) && n >= 0`, and the number.
abbrev pub whole_amount : Num → Option ℕ
whole_amount (whole (pos n)) = some n
whole_amount (whole (negsuc _)) = none
whole_amount other = none

infixl 5 ◌>>=◌
abbrev ◌>>=◌ : {A B : Type 0} → Option A → (A → Option B) → Option B
none >>= k = none
some a >>= k = k a

-- The `ints.every(...)` test, with the amounts that it lets through.
abbrev pub whole_schedule : RawSchedule → Option FeeSchedule
whole_schedule s = do
  lo ← whole_amount s.min_amount_ugx
  hi ← whole_amount s.max_amount_ugx
  band ← whole_amount s.band_size_ugx
  base ← whole_amount s.base_fee_ugx
  step ← whole_amount s.step_fee_ugx
  some (record {
    min_amount_ugx = lo;
    max_amount_ugx = hi;
    band_size_ugx = band;
    base_fee_ugx = base;
    step_fee_ugx = step;
  })

limit_problem : FeeSchedule → Option ScheduleProblem
limit_problem s =
    if ltb s.min_amount_ugx ssentezo_min_ugx
    then some min_too_low
    else if ltb ssentezo_max_ugx s.max_amount_ugx
    then some max_too_high
    else if ltb s.max_amount_ugx s.min_amount_ugx
    then some min_above_max
    else if ltb s.band_size_ugx 1000
    then some band_too_small
    else none

unfoldable pub validate_fee_schedule : RawSchedule → Option ScheduleProblem
unfolding limit_problem
validate_fee_schedule s = elim (whole_schedule s) [
  | none ↦ some not_whole
  | some w ↦ limit_problem w
]

pub data FeeError : Type 0 where
  not_whole : FeeError
  below_minimum above_maximum : ℕ → FeeError

-- `Math.ceil(a / b)` for b above 0. Every schedule in use was validated, so its band size is.
abbrev pub ceil_div : ℕ → ℕ → ℕ
ceil_div a b = (a + b - 1) / b

-- `Math.max(0, Math.ceil(amountUgx / s.bandSizeUgx) - 1)`
abbrev pub band_of : ℕ → FeeSchedule → ℕ
band_of amount s = ceil_div amount s.band_size_ugx - 1

unfoldable pub withdrawal_fee : Num → FeeSchedule → Result FeeError ℕ
withdrawal_fee other s = err FeeError.not_whole
withdrawal_fee (whole amount) s =
    if ltb_ℤ amount (pos s.min_amount_ugx)
    then err (below_minimum s.min_amount_ugx)
    else if ltb_ℤ (pos s.max_amount_ugx) amount
    then err (above_maximum s.max_amount_ugx)
    else ok (s.base_fee_ugx + band_of (pos_part amount) s * s.step_fee_ugx)

pub record Tier : Type 0 where
  pub from_ugx : ℕ
  pub to_ugx : ℕ
  pub fee_ugx : ℕ

abbrev pub tier_from : FeeSchedule → ℕ → ℕ
tier_from s band = if band == 0 then s.min_amount_ugx else band * s.band_size_ugx + 1

abbrev pub tier : FeeSchedule → ℕ → Tier
tier s band = record {
  from_ugx = tier_from s band;
  to_ugx = min ((band + 1) * s.band_size_ugx) s.max_amount_ugx;
  fee_ugx = s.base_fee_ugx + band * s.step_fee_ugx;
}

-- The loop of `feeTiers`; `room` is how many rows are still wanted. `none`: the fuel ran out.
pub tiers_from : FeeSchedule → ℕ → ℕ → ℕ → Option (List Tier)
tiers_from s zero band room = none
tiers_from s (suc fuel) band room =
    let row = tier s band in
    let rest = tiers_from s fuel (band + 1) room in
    let shorter = tiers_from s fuel (band + 1) (room - 1) in
    if room == 0
    then some []
    else if ltb s.max_amount_ugx row.from_ugx
    then some []
    else if leb row.from_ugx row.to_ugx
    then (do tiers ← shorter; some (row ∷ tiers))
    else rest

-- Band `max + 1` begins above the largest amount, so the loop ends by then.
unfoldable pub fee_tiers : FeeSchedule → ℕ → Option (List Tier)
unfolding tiers_from
fee_tiers s limit = tiers_from s (s.max_amount_ugx + 3) 0 limit
