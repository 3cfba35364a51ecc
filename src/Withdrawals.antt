-- ===== src/Withdrawals.antt =====
-- apps/api/src/finance/withdrawals.service.ts: the rows, the fee setting and the balance. The
-- operations are in Service. Ids are numbers, since they are only compared, and times are
-- milliseconds. A gateway answer, the database client and the clock come from outside.
pub mod Service
pub mod Requests
pub mod Balance
pub mod Transitions
pub mod Steps
pub mod Sending
pub mod History
pub mod Outcomes
pub mod Solvency
pub mod Payouts
pub mod Life
pub mod Settling
mod Tests
use netcam.Prelude.{
  ℕ, ◌≡◌, ◌+◌, ◌-◌, Bool, true, false, ◌&&◌, ◌||◌, Option, none, some, List, [], ◌∷◌, Text, any,
  select, sum_of, or_default,
}
use netcam.Database.{Client}
use netcam.Fees.{
  FeeSchedule, RawSchedule, Num, whole, validate_fee_schedule, whole_schedule, default_fee_schedule,
}
use netcam.Prelude.Int.{pos}
use netcam.Gateway.{InitiateResult, StatusResult, initiate_withdrawal, get_status}
use netcam.Phone.{msisdn_digits}

pub data Status : Type 0 where
  requested processing success failed rejected cancelled : Status

abbrev pub same_status : Status → Status → Bool
same_status requested requested = true
same_status processing processing = true
same_status success success = true
same_status failed failed = true
same_status rejected rejected = true
same_status cancelled cancelled = true
same_status _ _ = false

abbrev pub includes : List Status → Status → Bool
includes statuses s = any (same_status s) statuses

-- Statuses whose amount and fee are taken out of the available balance.
abbrev pub holding : List Status
holding = requested ∷ processing ∷ success ∷ []

pub record Withdrawal : Type 0 where
  pub id : ℕ
  pub amount_ugx : ℕ
  pub fee_ugx : ℕ
  pub phone_number : Text
  pub recipient_name : Option Text
  pub note : Option Text
  pub status : Status
  pub requested_by_id : ℕ
  pub reviewed_by_id : Option ℕ
  pub reviewed_at : Option ℕ
  pub review_note : Option Text
  pub provider_ref : Option Text
  pub financial_transaction_id : Option Text
  pub failure_reason : Option Text
  pub sent_at : Option ℕ
  pub completed_at : Option ℕ

-- The columns of a payment that the balance reads: `status === SUCCESS`, `provider === SSENTEZO`.
pub record Earning : Type 0 where
  pub is_success : Bool
  pub is_ssentezo : Bool
  pub amount_ugx : ℕ

-- The row of the fee setting after `JSON.parse`: not JSON, or the fields that are present.
pub record PartialSchedule : Type 0 where
  pub min_amount_ugx : Option Num
  pub max_amount_ugx : Option Num
  pub band_size_ugx : Option Num
  pub base_fee_ugx : Option Num
  pub step_fee_ugx : Option Num

pub data Setting : Type 0 where
  malformed : Setting
  parsed : PartialSchedule → Setting

pub data AuditAction : Type 0 where
  withdrawal_requested withdrawal_rejected withdrawal_cancelled : AuditAction
  withdrawal_resolved withdrawal_sent withdrawal_fees_changed : AuditAction

pub data Alert : Type 0 where
  withdrawal_sent_alert awaiting_approval : (id : ℕ) → Alert
  paid_out payout_failed : (id : ℕ) → Alert

-- What `initiateWithdrawal` is asked to pay.
pub record Payout : Type 0 where
  pub external_reference : ℕ
  pub msisdn_digits : Text
  pub amount : ℕ

pub record Bank : Type 0 where
  pub payments : List Earning
  pub withdrawals : List Withdrawal
  pub fee_setting : Option Setting
  pub audits : List (AuditAction × ℕ)
  pub alerts : List Alert
  pub payouts : List Payout

-- What one call meets outside the service.
pub record Outside : Type 0 where
  pub now : ℕ
  pub new_id : ℕ
  -- the transaction lost a serialization race (P2034)
  pub lost_race : Bool
  -- `AuthService.verifyPassword`
  pub verify_password : ℕ → Text → Bool
  pub initiate_withdrawal : Payout → InitiateResult
  pub get_status : ℕ → StatusResult

abbrev num : ℕ → Num
num n = whole (pos n)

-- `{ ...DEFAULT_FEE_SCHEDULE, ...parsed }`
abbrev pub with_defaults : PartialSchedule → RawSchedule
with_defaults p = record {
  min_amount_ugx = or_default p.min_amount_ugx (num default_fee_schedule.min_amount_ugx);
  max_amount_ugx = or_default p.max_amount_ugx (num default_fee_schedule.max_amount_ugx);
  band_size_ugx = or_default p.band_size_ugx (num default_fee_schedule.band_size_ugx);
  base_fee_ugx = or_default p.base_fee_ugx (num default_fee_schedule.base_fee_ugx);
  step_fee_ugx = or_default p.step_fee_ugx (num default_fee_schedule.step_fee_ugx);
}

-- A validated schedule has five whole values, so `whole_schedule` gives it.
checked_schedule : RawSchedule → FeeSchedule
checked_schedule r = elim (validate_fee_schedule r) [
  | some _ ↦ default_fee_schedule
  | none ↦ or_default (whole_schedule r) default_fee_schedule
]

unfoldable pub fee_schedule : Option Setting → FeeSchedule
unfolding checked_schedule
fee_schedule none = default_fee_schedule
fee_schedule (some malformed) = default_fee_schedule
fee_schedule (some (parsed p)) = checked_schedule (with_defaults p)

-- A row of `groupBy({ by: ["status"], _sum: ... })`; a null sum is read as 0.
pub record StatusSum : Type 0 where
  pub status : Status
  pub amount_ugx : ℕ
  pub fee_ugx : ℕ

abbrev pub has_status : Status → StatusSum → Bool
has_status s row = same_status row.status s

abbrev pub is_at : Status → Withdrawal → Bool
is_at s w = same_status w.status s

abbrev pub Grouping : Type 0
Grouping = List Withdrawal → List StatusSum

-- The documented behaviour of `groupBy` with sums: what the rows of a status add up to.
pub record IsGrouping (groups : Grouping) : Type 0 where
  pub amounts :
      (s : Status) (ws : List Withdrawal)
      → sum_of (λ r. r.amount_ugx) (select (has_status s) (groups ws))
        ≡ sum_of (λ w. w.amount_ugx) (select (is_at s) ws)
  pub fees :
      (s : Status) (ws : List Withdrawal)
      → sum_of (λ r. r.fee_ugx) (select (has_status s) (groups ws))
        ≡ sum_of (λ w. w.fee_ugx) (select (is_at s) ws)

-- `sum(statuses, field)`
abbrev pub sum_statuses : List Status → (StatusSum → ℕ) → List StatusSum → ℕ
sum_statuses statuses field rows = sum_of field (select (λ r. includes statuses r.status) rows)

abbrev pub both : StatusSum → ℕ
both r = r.amount_ugx + r.fee_ugx

pub record BalanceView : Type 0 where
  pub earned_ugx : ℕ
  pub on_hold_ugx : ℕ
  pub withdrawn_ugx : ℕ
  pub fees_paid_ugx : ℕ
  pub available_ugx : ℕ

abbrev pub is_earned : Earning → Bool
is_earned p = p.is_success && p.is_ssentezo

-- `Math.max(0, earned - held)` is the subtraction of ℕ.
unfoldable pub balance : Client → Grouping → Bank → BalanceView
balance db groups b =
    let by_status = groups b.withdrawals in
    let earned = db.sum Earning is_earned (λ p. p.amount_ugx) b.payments in
    record {
      earned_ugx = earned;
      on_hold_ugx = sum_statuses (requested ∷ processing ∷ []) both by_status;
      withdrawn_ugx = sum_statuses (success ∷ []) (λ r. r.amount_ugx) by_status;
      fees_paid_ugx = sum_statuses (success ∷ []) (λ r. r.fee_ugx) by_status;
      available_ugx = earned - sum_statuses holding both by_status;
    }
