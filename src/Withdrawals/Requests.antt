-- ===== src/Withdrawals/Requests.antt =====
-- `WithdrawalsService`: what an admin asks for. `send` and `settle` are in Service.
use netcam.Fees.{RawSchedule, FeeError, FeeSchedule, validate_fee_schedule, withdrawal_fee, whole}
use netcam.Prelude.{
  ℕ, Action, Result, some, Option, Bool, Text, throw_if, none, throw, ◌+◌, ◌&&◌, not, ◌++◌, codes,
  is_empty, ok, err, pure, gets, ◌>>=◌, ◌>>◌, modify, ltb, leb, ◌==◌, if◌then◌else◌,
}
use netcam.Prelude.Strings.{trim, trimmed}
use netcam.Prelude.Int.{pos}
use netcam.Database.{Client}
use netcam.Phone.{normalize_phone, is_ugandan}
use netcam.Withdrawals.{
  requested, processing, success, failed, rejected, cancelled, Withdrawal, Bank, Outside, Alert,
  parsed, PartialSchedule, withdrawal_requested, withdrawal_rejected, withdrawal_cancelled,
  withdrawal_resolved, withdrawal_fees_changed, withdrawal_sent_alert, awaiting_approval, Grouping,
  fee_schedule, balance,
}
use netcam.Withdrawals.Service.{
  bad_amount, bad_schedule, not_enough, Admin, RequestInput, has_id_at, audit, alert,
  confirm_password, get, send, settle, Error, invalid_phone, lost_race, not_waiting, not_processing,
  not_owner, no_note,
}

unfoldable pub or_fee_error : Result FeeError ℕ → Action Bank Error ℕ
or_fee_error (ok fee) = pure fee
or_fee_error (err e) = throw (bad_amount e)

abbrev all_present : RawSchedule → PartialSchedule
all_present r = record {
  min_amount_ugx = some r.min_amount_ugx;
  max_amount_ugx = some r.max_amount_ugx;
  band_size_ugx = some r.band_size_ugx;
  base_fee_ugx = some r.base_fee_ugx;
  step_fee_ugx = some r.step_fee_ugx;
}

-- The upsert of `JSON.stringify(schedule)`; what the next read parses has every field.
unfoldable pub set_fee_schedule : RawSchedule → Action Bank Error FeeSchedule
set_fee_schedule schedule = elim (validate_fee_schedule schedule) [
  | some problem ↦ throw (bad_schedule problem)
  | none ↦ do
    modify (λ b. record b { fee_setting = some (parsed (all_present schedule)) })
    audit withdrawal_fees_changed 0
    gets (λ b. fee_schedule b.fee_setting)
]

pub record Quote : Type 0 where
  pub amount_ugx : ℕ
  pub fee_ugx : ℕ
  pub total_ugx : ℕ
  pub available_ugx : ℕ
  pub affordable : Bool

abbrev pub announcement : Admin → ℕ → Alert
announcement admin id = if admin.is_super then withdrawal_sent_alert id else awaiting_approval id

-- The end of `request`: a super admin approves their own request by making it.
unfoldable pub announce : Client → Outside → Admin → Withdrawal → Action Bank Error Withdrawal
announce db out admin w = do
  audit withdrawal_requested w.id
  modify (alert (announcement admin w.id))
  if admin.is_super then send db out w.id admin else pure w

module _ (db : Client) (groups : Grouping) where
  unfoldable pub quote : ℕ → Action Bank Error Quote
  unfolding or_fee_error
  quote amount = do
    schedule ← gets (λ b. fee_schedule b.fee_setting)
    fee ← or_fee_error (withdrawal_fee (whole (pos amount)) schedule)
    available ← gets (λ b. (balance db groups b).available_ugx)
    pure (record {
      amount_ugx = amount;
      fee_ugx = fee;
      total_ugx = amount + fee;
      available_ugx = available;
      affordable = leb (amount + fee) available;
    })

  abbrev pub new_withdrawal : Outside → RequestInput → Admin → Text → ℕ → Withdrawal
  new_withdrawal out input admin phone fee = record {
    id = out.new_id;
    amount_ugx = input.amount_ugx;
    fee_ugx = fee;
    phone_number = phone;
    recipient_name = trimmed input.recipient_name;
    note = trimmed input.note;
    status = requested;
    requested_by_id = admin.id;
    reviewed_by_id = none;
    reviewed_at = none;
    review_note = none;
    provider_ref = none;
    financial_transaction_id = none;
    failure_reason = none;
    sent_at = none;
    completed_at = none;
  }

  -- The serializable transaction: the check and the insert, or nothing.
  unfoldable pub reserve : Outside → RequestInput → Admin → Text → ℕ → Action Bank Error Withdrawal
  reserve out input admin phone fee = do
    throw_if out.lost_race lost_race
    available ← gets (λ b. (balance db groups b).available_ugx)
    let total = input.amount_ugx + fee
    throw_if (ltb available total) (not_enough total available)
    let w = new_withdrawal out input admin phone fee
    modify (λ b. record b { withdrawals = db.create Withdrawal w b.withdrawals })
    pure w

  unfoldable pub request : Outside → RequestInput → Admin → Action Bank Error Withdrawal
  unfolding confirm_password or_fee_error reserve
  request out input admin = do
    confirm_password out admin input.password
    let phone = normalize_phone input.phone_number
    throw_if (not (is_ugandan phone)) invalid_phone
    schedule ← gets (λ b. fee_schedule b.fee_setting)
    fee ← or_fee_error (withdrawal_fee (whole (pos input.amount_ugx)) schedule)
    w ← reserve out input admin phone fee
    announce db out admin w

abbrev pub rejected_row : Outside → Admin → Option Text → Withdrawal → Withdrawal
rejected_row out admin reason w = record w {
  status = rejected;
  reviewed_by_id = some admin.id;
  reviewed_at = some out.now;
  review_note = trimmed reason;
}

abbrev pub cancelled_row : Outside → Withdrawal → Withdrawal
cancelled_row out w = record w { status = cancelled; reviewed_at = some out.now }

abbrev pub resolved_row : Outside → Bool → Text → Withdrawal → Withdrawal
resolved_row out succeeded note w = record w {
  status = if succeeded then success else failed;
  completed_at = some out.now;
  review_note = some (
      codes "Manually marked "
      ++ (if succeeded then codes "success" else codes "failed")
      ++ codes ": "
      ++ note);
  failure_reason = if succeeded then none else some note;
}

module _ (db : Client) where
  unfoldable pub approve : Outside → ℕ → Admin → Text → Action Bank Error Withdrawal
  unfolding confirm_password
  approve out id admin password = do confirm_password out admin password; send db out id admin

  -- An `updateMany` that must change a row.
  change_one :
      (Withdrawal → Bool) → (Withdrawal → Withdrawal) → Error → Action Bank Error (Unit {0})
  change_one p f e b =
      let (ws, count) = db.update_many Withdrawal p f b.withdrawals in
      throw_if (count == 0) e (record b { withdrawals = ws })

  unfoldable pub reject : Outside → ℕ → Admin → Option Text → Action Bank Error Withdrawal
  unfolding change_one get
  reject out id admin reason = do
    change_one (has_id_at id requested) (rejected_row out admin reason) not_waiting
    audit withdrawal_rejected id
    get db id

  unfoldable pub cancel : Outside → ℕ → Admin → Action Bank Error Withdrawal
  unfolding change_one get
  cancel out id admin = do
    existing ← get db id
    throw_if (not (existing.requested_by_id == admin.id) && not admin.is_super) not_owner
    change_one (has_id_at id requested) (cancelled_row out) not_waiting
    audit withdrawal_cancelled id
    get db id

  -- `outcome === "SUCCESS"` is `succeeded`; the DTO allows nothing else but "FAILED".
  unfoldable pub resolve : Outside → ℕ → Bool → Text → Admin → Text → Action Bank Error Withdrawal
  unfolding confirm_password change_one get
  resolve out id succeeded note admin password = do
    confirm_password out admin password
    throw_if (is_empty (trim note)) no_note
    change_one (has_id_at id processing) (resolved_row out succeeded (trim note)) not_processing
    audit withdrawal_resolved id
    get db id

  unfoldable pub refresh : Outside → ℕ → Action Bank Error Withdrawal
  unfolding get
  refresh out id = do modify (settle db out id); get db id
