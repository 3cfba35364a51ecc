-- ===== src/Withdrawals/Service.antt =====
-- `WithdrawalsService`: paying out, and settling what was sent.
use netcam.Fees.{FeeError, ScheduleProblem}
use netcam.Withdrawals.{
  Outside, AuditAction, Withdrawal, Alert, Status, processing, failed, Bank, Payout, requested,
  is_at, success, withdrawal_sent, paid_out, payout_failed,
}
use netcam.Prelude.{
  ℕ, Text, or_else, Action, some, Option, List, Bool, take, modify, false, throw_if, codes, ltb,
  leb, ◌==◌, if◌then◌else◌, or_default, ◌+◌, ◌-◌, ◌*◌, ◌&&◌, ◌||◌, not, none, [], ◌∷◌, ◌++◌,
  is_empty, throw, or_throw, ◌>>=◌, ◌>>◌,
}
use mathlib.Core.List.{tail}
use netcam.Prelude.Strings.{lower, has_part, starts_with, drop_spaces}
use netcam.Database.{Client}
use netcam.Phone.{msisdn_digits}
use netcam.Gateway.{InitiateResult, StatusResult, succeeded, failed as tx_failed}

pub data Error : Type 0 where
  wrong_password invalid_phone lost_race not_waiting not_processing not_found not_owner : Error
  no_note : Error
  bad_amount : FeeError → Error
  bad_schedule : ScheduleProblem → Error
  not_enough : (total available : ℕ) → Error

pub record Admin : Type 0 where
  pub id : ℕ
  pub is_super : Bool

pub record RequestInput : Type 0 where
  pub amount_ugx : ℕ  -- `@IsInt() @Min(1)`
  pub phone_number : Text
  pub recipient_name : Option Text
  pub note : Option Text
  pub password : Text

abbrev pub has_id : ℕ → Withdrawal → Bool
has_id id w = w.id == id

abbrev pub has_id_at : ℕ → Status → Withdrawal → Bool
has_id_at id s w = w.id == id && is_at s w

abbrev pub audit : AuditAction → ℕ → Action Bank Error (Unit {0})
audit action id = modify (λ b. record b { audits = b.audits ++ (action, id) ∷ [] })

abbrev pub alert : Alert → Bank → Bank
alert a b = record b { alerts = b.alerts ++ a ∷ [] }

unfoldable pub confirm_password : Outside → Admin → Text → Action Bank Error (Unit {0})
confirm_password out admin password =
    throw_if (is_empty password || not (out.verify_password admin.id password)) wrong_password

abbrev pub poll_after_ms : ℕ
poll_after_ms = 15000

abbrev pub due : ℕ → Withdrawal → Bool
due now w =
    is_at processing w
    && elim w.sent_at [ none ↦ false | some sent ↦ leb (sent + poll_after_ms) now ]

-- `/not\s*found|does not exist|no transaction/i`
abbrev pub not_found_text : Text → Bool
not_found_text [] = false
not_found_text (c ∷ s) =
    starts_with (codes "not") (c ∷ s)
      && starts_with (codes "found") (drop_spaces (tail (tail (tail (c ∷ s)))))
    || not_found_text s

unfoldable pub never_arrived : Text → Bool
never_arrived message =
    let m = lower message in
    not_found_text m || has_part (codes "does not exist") m || has_part (codes "no transaction") m

-- The `data` of the updates.
abbrev pub paid_row : Outside → Option Text → Withdrawal → Withdrawal
paid_row out transaction w = record w {
  status = success;
  completed_at = some out.now;
  failure_reason = none;
  financial_transaction_id = or_else transaction w.financial_transaction_id;
}

abbrev pub failed_row : Outside → Text → Withdrawal → Withdrawal
failed_row out reason w = record w {
  status = failed;
  completed_at = some out.now;
  failure_reason = some reason;
}

abbrev pub claimed_row : Outside → Admin → Withdrawal → Withdrawal
claimed_row out admin w = record w {
  status = processing;
  reviewed_by_id = some admin.id;
  reviewed_at = some out.now;
  sent_at = some out.now;
}

abbrev pub noted_row : InitiateResult → Withdrawal → Withdrawal
noted_row result w = record w {
  provider_ref = or_else result.provider_ref w.provider_ref;
  financial_transaction_id = or_else result.financial_transaction_id w.financial_transaction_id;
}

abbrev pub waiting_row : InitiateResult → Withdrawal → Withdrawal
waiting_row result w = record w {
  failure_reason =
      some
        (codes "Waiting for confirmation: " ++ or_default result.error_message (codes "undefined"));
}

abbrev pub payout_of : Withdrawal → Payout
payout_of w = record {
  external_reference = w.id;
  msisdn_digits = msisdn_digits w.phone_number;
  amount = w.amount_ugx;
}

module _ (db : Client) where
  unfoldable pub get : ℕ → Action Bank Error Withdrawal
  get id b = or_throw (db.find_first Withdrawal (has_id id) b.withdrawals) not_found b

  -- `alertOutcome`: silent if the row is gone
  unfoldable pub alert_outcome : ℕ → Alert → Bank → Bank
  alert_outcome id a b = elim (db.find_first Withdrawal (has_id id) b.withdrawals) [
    | none ↦ b
    | some _ ↦ alert a b
  ]

  unfoldable pub mark_succeeded : Outside → ℕ → Option Text → Bank → Bank
  unfolding alert_outcome
  mark_succeeded out id transaction b =
      let (ws, count) =
        db.update_many Withdrawal (has_id_at id processing) (paid_row out transaction)
          b.withdrawals in
      let b' = record b { withdrawals = ws } in
      if count == 0 then b' else alert_outcome id (paid_out id) b'

  unfoldable pub mark_failed : Outside → ℕ → Text → Bank → Bank
  unfolding alert_outcome
  mark_failed out id reason b =
      let (ws, count) =
        db.update_many Withdrawal (has_id_at id processing) (failed_row out reason) b.withdrawals in
      let b' = record b { withdrawals = ws } in
      if count == 0 then b' else alert_outcome id (payout_failed id) b'

  -- The conditional update of `send`, on the rows and the number changed.
  unfoldable pub claim : Outside → ℕ → Admin → List Withdrawal → List Withdrawal × ℕ
  claim out id admin ws =
      db.update_many Withdrawal (has_id_at id requested) (claimed_row out admin) ws

  -- `send` after `initiateWithdrawal` has answered.
  unfoldable pub settle_sent : Outside → ℕ → InitiateResult → Bank → Bank
  unfolding mark_succeeded mark_failed
  settle_sent out id result b =
      if result.ok
      then (let noted = record b {
        withdrawals = (db.update_many Withdrawal (has_id id) (noted_row result) b.withdrawals).0;
      } in
          elim result.transaction_status [
            | some succeeded ↦ mark_succeeded out id result.financial_transaction_id noted
            | some tx_failed ↦ mark_failed out id (codes "Ssentezo rejected the payout") noted
            | _ ↦ noted
          ])
      else if result.uncertain
      then record b {
        withdrawals = (db.update_many Withdrawal (has_id id) (waiting_row result) b.withdrawals).0;
      }
      else mark_failed out id
          (or_default result.error_message (codes "Ssentezo declined the payout")) b

  -- `send` once the row is claimed and read: ask for the payout, record the answer.
  unfoldable pub pay : Outside → ℕ → Withdrawal → Action Bank Error Withdrawal
  unfolding settle_sent get
  pay out id w b =
      let payout = payout_of w in
      let asked = record b { payouts = b.payouts ++ payout ∷ [] } in
      let settled = settle_sent out id (out.initiate_withdrawal payout) asked in
      (audit withdrawal_sent id >> get id) settled

  unfoldable pub send : Outside → ℕ → Admin → Action Bank Error Withdrawal
  unfolding claim pay get
  send out id admin b =
      let (ws, count) = claim out id admin b.withdrawals in
      let b' = record b { withdrawals = ws } in
      if count == 0 then throw not_waiting b' else (get id >>= pay out id) b'

  -- `settle`: silent unless the withdrawal is being processed. The `i` flag of the expression is
  -- the `lower` here.
  unfoldable pub settle_answer : Outside → Withdrawal → StatusResult → Bank → Bank
  settle_answer out w status b =
      if not status.ok
      then (let age = out.now - or_default w.sent_at out.now in
          if never_arrived (or_default status.error_message []) && ltb (5 * 60000) age
          then mark_failed out w.id (codes "Ssentezo never received the payout request") b
          else b)
      else elim status.transaction_status [
        | some succeeded ↦ mark_succeeded out w.id status.financial_transaction_id b
        | some tx_failed ↦
            mark_failed out w.id (codes "The mobile-money network declined the payout") b
        | _ ↦ b
      ]

  unfoldable pub settle : Outside → ℕ → Bank → Bank
  settle out id b = elim (db.find_first Withdrawal (has_id id) b.withdrawals) [
    | none ↦ b
    | some w ↦ if is_at processing w then settle_answer out w (out.get_status id) b else b
  ]

  -- `poll_processing` settles at most 50 rows; each meets its own answers.
  unfoldable pub settle_all : (ℕ → Outside) → List Withdrawal → Bank → Bank
  settle_all out [] b = b
  settle_all out (w ∷ ws) b = settle_all out ws (settle (out w.id) w.id b)

  unfoldable pub poll_processing : Outside → (ℕ → Outside) → Bank → Bank
  unfolding settle_all
  poll_processing out each b =
      settle_all each (take 50 (db.find_many Withdrawal (due out.now) b.withdrawals)) b
