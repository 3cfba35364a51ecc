-- ===== src/Withdrawals/Tests.antt =====
-- Runs of the withdrawals service, and instances of its theorems.
use netcam.Withdrawals.Settling.{status_of, after_check, status_of-send, status_of-settle}
use netcam.Withdrawals.History.{empty, run, step, Call, payments_become, request_call, approve_call}
use netcam.Prelude.{
  ℕ, false, codes, true, List, find, some, none, arith, sum_of, select, ◌+◌, ◌-◌, ◌≤◌, ◌≡◌, refl,
  ◌≢◌, [], ◌∷◌, err, or_default, max,
}
use netcam.Database.{list_client, list_client-IsPrisma}
use netcam.Gateway.{InitiateResult, succeeded, no_status}
use netcam.Withdrawals.{
  Status, requested, processing, success, failed, rejected, cancelled, Withdrawal, Bank, Outside,
  IsGrouping, Grouping, balance, Earning, StatusSum, fee_schedule, is_at,
}
use netcam.Withdrawals.Service.{
  Admin, RequestInput, has_id, send, settle, settle_answer, mark_failed, alert_outcome,
  never_arrived, not_enough,
}
use netcam.Withdrawals.Requests.{request, approve, announce}
use netcam.Phone.{normalize_phone, is_ugandan}
use netcam.Fees.{withdrawal_fee}
use netcam.Prelude.Strings.{trim}
use netcam.Withdrawals.Balance.{held, balance-available, balance_accounts}
use netcam.Withdrawals.Solvency.{most_earned, held-run}
use netcam.Withdrawals.Payouts.{times_paid, times_paid-run}
use netcam.Withdrawals.Transitions.{IsLater}
use netcam.Withdrawals.Life.{get_elem?, run-IsLater}

abbrev sums_at : List Withdrawal → Status → StatusSum
sums_at ws s = record {
  status = s;
  amount_ugx = sum_of (λ w. w.amount_ugx) (select (is_at s) ws);
  fee_ugx = sum_of (λ w. w.fee_ugx) (select (is_at s) ws);
}

-- One row for each status.
abbrev six_rows : Grouping
six_rows ws =
    sums_at ws requested
    ∷ sums_at ws processing
    ∷ sums_at ws success
    ∷ sums_at ws failed
    ∷ sums_at ws rejected
    ∷ sums_at ws cancelled
    ∷ []

six_rows-IsGrouping : IsGrouping six_rows
six_rows-IsGrouping = record { amounts = λ s ws. ground arith; fees = λ s ws. ground arith }

abbrev paid_answer : InitiateResult
paid_answer = record {
  ok = true;
  uncertain = false;
  transaction_status = some succeeded;
  provider_ref = some (codes "r1");
  financial_transaction_id = none;
  error_message = none;
}

abbrev outside : ℕ → InitiateResult → Outside
outside id answer = record {
  now = 1000000;
  new_id = id;
  lost_race = false;
  verify_password = λ admin password. true;
  initiate_withdrawal = λ payout. answer;
  get_status = λ ref. no_status (codes "Transaction not found");
}

abbrev operator : Admin
operator = record { id = 7; is_super = false }

abbrev ask : ℕ → RequestInput
ask amount = record {
  amount_ugx = amount;
  phone_number = codes "0772 123456";
  recipient_name = some (codes "  ");
  note = none;
  password = codes "pw";
}

abbrev income : Earning
income = record { is_success = true; is_ssentezo = true; amount_ugx = 30000 }

-- Twice the request, twice the approval: the second request finds too little left.
abbrev day : List (Outside × Call)
day =
    (outside 1 paid_answer, payments_become (income ∷ []))
    ∷ (outside 1 paid_answer, request_call (ask 20000) operator)
    ∷ (outside 2 paid_answer, request_call (ask 20000) operator)
    ∷ (outside 3 paid_answer, approve_call 1 operator (codes "pw"))
    ∷ (outside 3 paid_answer, approve_call 1 operator (codes "pw"))
    ∷ []

service : Unit {0}
unfolding request approve run step send balance normalize_phone withdrawal_fee fee_schedule trim
    is_ugandan announce
service = tt

abbrev funded : Bank
funded = record empty { payments = income ∷ [] }

refused_test :
    (request list_client six_rows (outside 2 paid_answer) (ask 28000) operator funded).0
    ≡ err (not_enough 31000 30000)
unfolding service
refused_test = refl

day_test :
    let b = run list_client six_rows day empty in
    (held b.withdrawals ≡ 22500) × (times_paid 1 b ≡ 1) × (status_of 1 b ≡ some success)
unfolding service
day_test = (refl, refl, refl)

balance-available_example : (balance list_client six_rows funded).available_ugx ≡ 30000
balance-available_example =
    balance-available list_client list_client-IsPrisma six_rows six_rows-IsGrouping funded

balance_accounts_example :
    let v = balance list_client six_rows funded in
    (v.on_hold_ugx + v.withdrawn_ugx + v.fees_paid_ugx ≡ 0)
    × (v.available_ugx + v.on_hold_ugx + v.withdrawn_ugx + v.fees_paid_ugx ≡ v.earned_ugx)
balance_accounts_example =
    balance_accounts list_client list_client-IsPrisma six_rows six_rows-IsGrouping funded
      (omega arith)

held-run_example :
    held (run list_client six_rows day empty).withdrawals
    ≤ max (held empty.withdrawals) (most_earned list_client six_rows day empty)
held-run_example = held-run list_client list_client-IsPrisma six_rows six_rows-IsGrouping day empty

times_paid-run_example : times_paid 1 (run list_client six_rows day empty) ≤ 1
unfolding service
times_paid-run_example =
    times_paid-run list_client list_client-IsPrisma six_rows six_rows-IsGrouping day 1
      (refl, (refl, (refl, (refl, (refl, tt)))))

abbrev row : Status → Withdrawal
row s = record {
  id = 1;
  amount_ugx = 20000;
  fee_ugx = 2500;
  phone_number = codes "+256772123456";
  recipient_name = none;
  note = none;
  status = s;
  requested_by_id = 7;
  reviewed_by_id = none;
  reviewed_at = none;
  review_note = none;
  provider_ref = none;
  financial_transaction_id = none;
  failure_reason = none;
  sent_at = some 100000;
  completed_at = none;
}

abbrev one_row : Status → Bank
one_row s = record funded { withdrawals = row s ∷ [] }

run-IsLater_example :
    (v : Withdrawal) × (get_elem? (run list_client six_rows day (one_row requested)).withdrawals 0
      ≡ some v)
    × IsLater (row requested) v
run-IsLater_example =
    run-IsLater list_client list_client-IsPrisma six_rows six_rows-IsGrouping day
      (one_row requested) 0 (row requested) refl

status_of-send_example :
    status_of 1 (send list_client (outside 3 paid_answer) 1 operator (one_row requested)).1
    ≡ some success
status_of-send_example =
    status_of-send list_client list_client-IsPrisma (outside 3 paid_answer) 1 operator
      (one_row requested) (row requested) refl refl

-- The gateway does not know a payout sent fifteen minutes ago: its hold is released.
status_of-settle_example :
    ((w : Withdrawal)
      → find (has_id w.id) (one_row processing).withdrawals ≡ some w
      → w.status ≡ processing
      → status_of w.id (settle list_client (outside 3 paid_answer) w.id (one_row processing))
        ≡ some (
            after_check
              (1000000 - or_default w.sent_at 1000000)
              (no_status (codes "Transaction not found"))))
    × ((id : ℕ)
        → status_of id (one_row processing) ≢ some processing
        → settle list_client (outside 3 paid_answer) id (one_row processing) ≡ one_row processing)
status_of-settle_example =
    status_of-settle list_client list_client-IsPrisma (outside 3 paid_answer) (one_row processing)

never_arrived_test :
    status_of 1 (settle list_client (outside 3 paid_answer) 1 (one_row processing)) ≡ some failed
unfolding settle settle_answer mark_failed alert_outcome never_arrived
never_arrived_test = refl
