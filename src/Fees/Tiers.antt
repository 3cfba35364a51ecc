-- ===== src/Fees/Tiers.antt =====
-- The table of fees that the dashboard shows.
use mathlib.Core.Path.{subst}
use native.Mathlib.Nat.{mul-le-mul_left}
use netcam.Prelude.{
  ℕ, zero, suc, ◌+◌, ◌-◌, ◌*◌, ◌≤◌, ◌<◌, ◌≡◌, refl, inl, inr, Option, none, some, List, All, ok,
  arith, Option-cases, ◌≢◌,
}
use netcam.Prelude.Int.{pos}
use netcam.Fees.{FeeSchedule, whole, Tier, tier, tiers_from, fee_tiers, withdrawal_fee}
use netcam.Fees.Bands.{withdrawal_fee_iff}

le-mul : (k b : ℕ) → 1 ≤ b → k ≤ k * b
le-mul k b h = omega (arith, mul-le-mul_left k h)

tiers_from-ne-none :
    (s : FeeSchedule) (fuel band room : ℕ)
    → 1 ≤ s.band_size_ugx
    → band ≤ s.max_amount_ugx + 1
    → s.max_amount_ugx + 1 < fuel + band
    → tiers_from s fuel band room ≢ none
unfolding tiers_from
tiers_from-ne-none s zero band room h low high = absurd (omega arith)
tiers_from-ne-none s (suc fuel) band room h low high = ground (
  arith,
  le-mul band s.band_size_ugx h,
  tiers_from-ne-none s fuel (band + 1) (room - 1) h,
  tiers_from-ne-none s fuel (band + 1) room h,
)

-- The loop over the bands ends: every schedule with bands of some width has its table.
pub fee_tiers_total :
    (s : FeeSchedule) (limit : ℕ)
    → 1 ≤ s.band_size_ugx
    → (rows : List Tier) × (fee_tiers s limit ≡ some rows)
unfolding fee_tiers
fee_tiers_total s limit h = elim (Option-cases (tiers_from s (s.max_amount_ugx + 3) 0 limit)) [
  | inl out ↦ absurd (tiers_from-ne-none s _ 0 limit h (omega arith) (omega arith) out)
  | inr found ↦ found
]

-- A row's fee is what the row's amounts are charged.
abbrev pub IsCharged : FeeSchedule → Tier → Type 0
IsCharged s row =
    (amount : ℕ)
    → s.min_amount_ugx ≤ amount
    → row.from_ugx ≤ amount
    → amount ≤ row.to_ugx
    → withdrawal_fee (whole (pos amount)) s ≡ ok row.fee_ugx

tier-IsCharged : (s : FeeSchedule) (band : ℕ) → 1 ≤ s.band_size_ugx → IsCharged s (tier s band)
tier-IsCharged s zero h amount low from to =
    (withdrawal_fee_iff s amount _ h).1
      (low, omega arith, (0, record { above = inl refl; within = omega arith }, refl))
tier-IsCharged s (suc band) h amount low from to = (withdrawal_fee_iff s amount _ h).1 (
  low,
  omega arith,
  (suc band, record { above = inr (ground arith); within = omega arith }, refl),
)

abbrev AreCharged : FeeSchedule → Option (List Tier) → Type 0
AreCharged s none = Unit
AreCharged s (some rows) = All (IsCharged s) rows

tiers_from-AreCharged :
    (s : FeeSchedule) (fuel band room : ℕ)
    → 1 ≤ s.band_size_ugx
    → AreCharged s (tiers_from s fuel band room)
unfolding tiers_from
tiers_from-AreCharged s zero band room h = tt
tiers_from-AreCharged s (suc fuel) band room h = ground (
  arith,
  tier-IsCharged s band h,
  tiers_from-AreCharged s fuel (band + 1) (room - 1) h,
  tiers_from-AreCharged s fuel (band + 1) room h,
)

-- Every row of the table agrees with `withdrawalFee`: an amount in the row's range, and not below
-- the schedule's minimum, is charged the fee that the row shows.
pub fee_tiers-IsCharged :
    (s : FeeSchedule) (limit : ℕ) (rows : List Tier)
    → 1 ≤ s.band_size_ugx
    → fee_tiers s limit ≡ some rows
    → All (IsCharged s) rows
unfolding fee_tiers
fee_tiers-IsCharged s limit rows h e =
    subst (AreCharged s) e (tiers_from-AreCharged s (s.max_amount_ugx + 3) 0 limit h)
