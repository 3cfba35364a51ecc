-- ===== src/Withdrawals/History.antt =====
-- Calls of the service in any order, each with its own answers from outside.
use netcam.Prelude.{ℕ, ◌≡◌, Bool, Option, none, List, [], ◌∷◌, Text, count_if}
use netcam.Database.{Client}
use netcam.Fees.{RawSchedule}
use netcam.Withdrawals.{Earning, Bank, Outside, Grouping}
use netcam.Withdrawals.Service.{Admin, RequestInput, has_id, settle, poll_processing}
use netcam.Withdrawals.Requests.{
  set_fee_schedule, request, approve, reject, cancel, resolve, refresh,
}

-- `payments_become` is whatever the payments service writes to its table: a new payment, one that
-- succeeds, one that is marked as failed. `webhook` is the gateway's callback.
pub data Call : Type 0 where
  set_fees : RawSchedule → Call
  request_call : RequestInput → Admin → Call
  approve_call : ℕ → Admin → Text → Call
  reject_call : ℕ → Admin → Option Text → Call
  cancel_call : ℕ → Admin → Call
  resolve_call : ℕ → Bool → Text → Admin → Text → Call
  refresh_call webhook : ℕ → Call
  poll : (ℕ → Outside) → Call
  payments_become : List Earning → Call

module _ (db : Client) (groups : Grouping) where
  unfoldable pub step : Outside → Call → Bank → Bank
  step out (set_fees schedule) b = (set_fee_schedule schedule b).1
  step out (request_call input admin) b = (request db groups out input admin b).1
  step out (approve_call id admin password) b = (approve db out id admin password b).1
  step out (reject_call id admin reason) b = (reject db out id admin reason b).1
  step out (cancel_call id admin) b = (cancel db out id admin b).1
  step out (resolve_call id paid note admin password) b =
      (resolve db out id paid note admin password b).1
  step out (refresh_call id) b = (refresh db out id b).1
  step out (webhook id) b = settle db out id b
  step out (poll each) b = poll_processing db out each b
  step out (payments_become payments) b = record b { payments = payments }

  unfoldable pub run : List (Outside × Call) → Bank → Bank
  unfolding step
  run [] b = b
  run ((out, call) ∷ calls) b = run calls (step out call b)

  -- Each call brings an id that no row has, as a new UUID is.
  abbrev pub AreFresh : List (Outside × Call) → Bank → Type 0
  AreFresh [] b = Unit
  AreFresh ((out, call) ∷ calls) b =
      (count_if (has_id out.new_id) b.withdrawals ≡ 0) × AreFresh calls (step out call b)

abbrev pub empty : Bank
empty = record {
  payments = [];
  withdrawals = [];
  fee_setting = none;
  audits = [];
  alerts = [];
  payouts = [];
}
