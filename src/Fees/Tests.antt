-- ===== src/Fees/Tests.antt =====
-- Runs of the fee schedule, and instances of its theorems.
use netcam.Prelude.{
  ℕ, ◌≤◌, ◌≡◌, ◌+◌, ◌*◌, refl, none, some, ok, err, List, [], ◌∷◌, All, ◌↔◌, arith,
}
use netcam.Prelude.Int.{pos, negsuc}
use netcam.Fees.{
  FeeSchedule, RawSchedule, whole, other, default_fee_schedule, validate_fee_schedule, not_whole,
  below_minimum, withdrawal_fee, Tier, fee_tiers, tier,
}
use netcam.Fees.Validation.{AreWhole, IsValid, validate_fee_schedule_iff}
use netcam.Fees.Bands.{IsBand, withdrawal_fee_iff, withdrawal_fee_mono}
use netcam.Fees.Tiers.{fee_tiers_total, IsCharged, fee_tiers-IsCharged}

abbrev raw_default : RawSchedule
raw_default = record {
  min_amount_ugx = whole (pos 500);
  max_amount_ugx = whole (pos 7000000);
  band_size_ugx = whole (pos 20000);
  base_fee_ugx = whole (pos 2500);
  step_fee_ugx = whole (pos 500);
}

fractional_refused :
    validate_fee_schedule (record raw_default { base_fee_ugx = other }) ≡ some not_whole
unfolding validate_fee_schedule
fractional_refused = refl

fee_of_20001 : withdrawal_fee (whole (pos 20001)) default_fee_schedule ≡ ok 3000
unfolding withdrawal_fee
fee_of_20001 = refl

fee_of_minus_5 : withdrawal_fee (whole (negsuc 4)) default_fee_schedule ≡ err (below_minimum 500)
unfolding withdrawal_fee
fee_of_minus_5 = refl

abbrev narrow : FeeSchedule
narrow = record {
  min_amount_ugx = 500;
  max_amount_ugx = 2500;
  band_size_ugx = 1000;
  base_fee_ugx = 10;
  step_fee_ugx = 5;
}

narrow_tiers :
    fee_tiers narrow 12
    ≡ some (
        record { from_ugx = 500; to_ugx = 1000; fee_ugx = 10 }
        ∷ record { from_ugx = 1001; to_ugx = 2000; fee_ugx = 15 }
        ∷ record { from_ugx = 2001; to_ugx = 2500; fee_ugx = 20 }
        ∷ [])
unfolding fee_tiers
narrow_tiers = refl

validate_fee_schedule_iff_example :
    (validate_fee_schedule raw_default ≡ none)
    ↔ ((s : FeeSchedule) × AreWhole raw_default s × IsValid s)
validate_fee_schedule_iff_example = validate_fee_schedule_iff raw_default

withdrawal_fee_iff_example : (withdrawal_fee (whole (pos 20001)) default_fee_schedule ≡ ok 3000) ↔ (
    (500 ≤ 20001)
    × (20001 ≤ 7000000)
    × ((k : ℕ) × IsBand default_fee_schedule 20001 k × (3000 ≡ 2500 + k * 500)))
withdrawal_fee_iff_example = withdrawal_fee_iff default_fee_schedule 20001 3000 (omega arith)

withdrawal_fee_mono_example : 2500 ≤ 3000
unfolding withdrawal_fee
withdrawal_fee_mono_example =
    withdrawal_fee_mono default_fee_schedule 500 20001 2500 3000 (omega arith) (omega arith) refl
      refl

fee_tiers_total_example : (rows : List Tier) × (fee_tiers narrow 12 ≡ some rows)
fee_tiers_total_example = fee_tiers_total narrow 12 (omega arith)

fee_tiers-IsCharged_example :
    All (IsCharged narrow) (tier narrow 0 ∷ tier narrow 1 ∷ tier narrow 2 ∷ [])
unfolding fee_tiers
fee_tiers-IsCharged_example = fee_tiers-IsCharged narrow 12 _ (omega arith) refl
