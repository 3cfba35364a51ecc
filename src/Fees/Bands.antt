-- ===== src/Fees/Bands.antt =====
-- The fee of an amount: its range, its band, its growth.
use netcam.Prelude.{ℕ, zero, suc, ◌-◌, ◌≤◌, ◌<◌, ◌+◌, ◌*◌, ◌≡◌, ◌⊎◌, ◌↔◌, ok, inl, inr, arith}
use native.Mathlib.Nat.{mul-le-mul_right}
use netcam.Prelude.Int.{pos}
use netcam.Fees.{FeeSchedule, whole, withdrawal_fee, ceil_div, band_of}

suc-sub_one : (n : ℕ) → suc n - 1 ≡ n
suc-sub_one n = omega arith

ceil_div_lem : (a b : ℕ) → 1 ≤ b → (a ≤ ceil_div a b * b) × (ceil_div a b * b < a + b)
ceil_div_lem a b h = grind arith

-- `k` is the band of an amount: bands are counted from 0, and band k ends at (k + 1) sizes.
pub record IsBand (s : FeeSchedule) (amount k : ℕ) : Type 0 where
  pub above : (k ≡ 0) ⊎ (k * s.band_size_ugx < amount)
  pub within : amount ≤ (k + 1) * s.band_size_ugx

below_quotient :
    (s : FeeSchedule) (amount q : ℕ)
    → amount ≤ q * s.band_size_ugx
    → q * s.band_size_ugx < amount + s.band_size_ugx
    → IsBand s amount (q - 1)
below_quotient s amount zero up down = record { above = inl (omega arith); within = omega arith }
below_quotient s amount (suc q) up down =
    rw suc-sub_one (record { above = inr (grind arith); within = grind arith })

pub band_of-IsBand :
    (s : FeeSchedule) (amount : ℕ) → 1 ≤ s.band_size_ugx → IsBand s amount (band_of amount s)
band_of-IsBand s amount h =
    let (up, down) = ceil_div_lem amount s.band_size_ugx h in
    below_quotient s amount (ceil_div amount s.band_size_ugx) up down

pub IsBand-le : (s : FeeSchedule) (a b j k : ℕ) → a ≤ b → IsBand s a j → IsBand s b k → j ≤ k
IsBand-le s a b j k h u v = grind (arith, mul-le-mul_right)

IsBand-unique : (s : FeeSchedule) (a j k : ℕ) → IsBand s a j → IsBand s a k → j ≡ k
IsBand-unique s a j k u v =
    omega (arith, IsBand-le s a a j k (omega arith) u v, IsBand-le s a a k j (omega arith) v u)

-- A fee is charged exactly when the amount is in the schedule's range, and it is the base fee and
-- one step for each band below the amount's own.
pub withdrawal_fee_iff :
    (s : FeeSchedule) (amount fee : ℕ)
    → 1 ≤ s.band_size_ugx
    → (withdrawal_fee (whole (pos amount)) s ≡ ok fee) ↔ (
        (s.min_amount_ugx ≤ amount)
        × (amount ≤ s.max_amount_ugx)
        × ((k : ℕ) × IsBand s amount k × (fee ≡ s.base_fee_ugx + k * s.step_fee_ugx)))
unfolding withdrawal_fee
withdrawal_fee_iff s amount fee h = (
  λ e. (ground arith, ground arith, (band_of amount s, band_of-IsBand s amount h, ground arith)),
  λ (low, high, (k, band, e)).
      ground (arith, IsBand-unique s amount k (band_of amount s) band (band_of-IsBand s amount h)),
)

-- A larger amount never costs a smaller fee.
pub withdrawal_fee_mono :
    (s : FeeSchedule) (a b u v : ℕ)
    → 1 ≤ s.band_size_ugx
    → a ≤ b
    → withdrawal_fee (whole (pos a)) s ≡ ok u
    → withdrawal_fee (whole (pos b)) s ≡ ok v
    → u ≤ v
withdrawal_fee_mono s a b u v h l eu ev =
    let (_, _, (j, ja, ju)) = (withdrawal_fee_iff s a u h).0 eu in
    let (_, _, (k, kb, kv)) = (withdrawal_fee_iff s b v h).0 ev in
    grind (arith, mul-le-mul_right {m = j} {n = k} s.step_fee_ugx (IsBand-le s a b j k l ja kb))
