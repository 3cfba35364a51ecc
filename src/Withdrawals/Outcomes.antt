-- ===== src/Withdrawals/Outcomes.antt =====
-- The three ways in which a call changes the table.
use netcam.Prelude.{
  Result, ℕ, Text, arith, Bool-cases, is_empty, ◌+◌, ◌-◌, ◌≤◌, ◌≡◌, refl, ◌⊎◌, inl, inr, ◌||◌, not,
  [], ◌∷◌, ◌++◌, same, ok, err, Result-cases, List,
}
use netcam.Withdrawals.Requests.{
  approve, announce, set_fee_schedule, refresh, request, new_withdrawal, announcement,
}
use netcam.Withdrawals.Service.{RequestInput, Admin, send}
use netcam.Prelude.Int.{pos}
use netcam.Database.{list_client, list_client-IsPrisma}
use netcam.Fees.{RawSchedule, FeeError, whole, withdrawal_fee}
use netcam.Phone.{normalize_phone}
use netcam.Withdrawals.{
  Withdrawal, Bank, Outside, Earning, Grouping, IsGrouping, fee_schedule, balance, requested,
  withdrawal_requested,
}
use netcam.Withdrawals.Balance.{charge, held, earned, balance-available}
use netcam.Withdrawals.Transitions.{Keeps, Keeps-refl, Evolves-refl}
use netcam.Withdrawals.Sending.{PaysOut, send_lem}
use netcam.Withdrawals.Steps.{
  settle-Keeps, poll_processing-Keeps, reject-Keeps, cancel-Keeps, resolve-Keeps,
}
use netcam.Withdrawals.History.{
  Call, set_fees, request_call, approve_call, reject_call, cancel_call, resolve_call, refresh_call,
  webhook, poll, payments_become, step,
}
use netcam.Gateway.{refused}

-- A row is added at `requested`, its charge within what is available.
pub record Adds (out : Outside) (b c : Bank) : Type 0 where
  pub row : Withdrawal
  pub is_new : row.id ≡ out.new_id
  pub is_requested : row.status ≡ requested
  pub affordable : charge row ≤ earned b - held b.withdrawals
  pub adds : c.withdrawals ≡ b.withdrawals ++ row ∷ []
  pub same_payouts : c.payouts ≡ b.payouts
  pub same_payments : c.payments ≡ b.payments

announced : Admin → Withdrawal → Bank → Bank
announced admin w b = record b {
  audits = b.audits ++ (withdrawal_requested, w.id) ∷ [];
  alerts = b.alerts ++ announcement admin w.id ∷ [];
}

announce_lem :
    (out : Outside) (admin : Admin) (w : Withdrawal) (b : Bank)
    → let c = (announce list_client out admin w b).1 in
      (c ≡ announced admin w b) ⊎ (c ≡ (send list_client out w.id admin (announced admin w b)).1)
unfolding announce announced
announce_lem out admin w b = ground arith

abbrev with_row : Withdrawal → Bank → Bank
with_row w b = record b { withdrawals = b.withdrawals ++ w ∷ [] }

module _ (groups : Grouping) (out : Outside) (input : RequestInput) (admin : Admin) (b : Bank) where
  abbrev fee_result : Result FeeError ℕ
  fee_result = withdrawal_fee (whole (pos input.amount_ugx)) (fee_schedule b.fee_setting)

  abbrev asked_row : ℕ → Withdrawal
  asked_row fee =
      new_withdrawal list_client groups out input admin (normalize_phone input.phone_number) fee

  request_accepted :
      (fee : ℕ)
      → fee_result ≡ ok fee
      → ((request list_client groups out input admin b).1 ≡ b)
        ⊎ ((input.amount_ugx + fee ≤ (balance list_client groups b).available_ugx)
            × ((request list_client groups out input admin b).1
                ≡ (announce list_client out admin (asked_row fee) (with_row (asked_row fee) b)).1))
  unfolding request
  request_accepted fee e = ground arith

  request_no_fee :
      (e : FeeError) → fee_result ≡ err e → (request list_client groups out input admin b).1 ≡ b
  unfolding request
  request_no_fee e h = ground arith

-- What a call has done.
pub data Outcome (out : Outside) (b c : Bank) : Type 0 where
  kept : Keeps b c → Outcome out b c
  gained : (payments : List Earning) → c ≡ record b { payments = payments } → Outcome out b c
  paid : (id : ℕ) (admin : Admin) → PaysOut out id admin b c → Outcome out b c
  added : (mid : Bank) → Adds out b mid → Keeps mid c → Outcome out b c
  added_paid :
      (mid : Bank) (id : ℕ) (admin : Admin)
      → Adds out b mid
      → PaysOut out id admin mid c
      → Outcome out b c

approve_lem :
    (out : Outside) (id : ℕ) (admin : Admin) (password : Text) (b : Bank)
    → Outcome out b (approve list_client out id admin password b).1
unfolding approve
approve_lem out id admin password b =
    elim (Bool-cases (is_empty password || not (out.verify_password admin.id password))) [
      | inl wrong ↦ kept (ground (arith, Keeps-refl b))
      | inr right ↦ elim (send_lem out id admin b) [
        | inl k ↦ rw right (kept k)
        | inr p ↦ rw right (paid id admin p)
      ]
    ]

module _ (groups : Grouping) (sums : IsGrouping groups) (out : Outside) (b : Bank) where
  announced-Adds :
      (admin : Admin) (input : RequestInput) (phone : Text) (fee : ℕ)
      → input.amount_ugx + fee ≤ (balance list_client groups b).available_ugx
      → let w = new_withdrawal list_client groups out input admin phone fee in
        Adds out b (announced admin w (with_row w b))
  unfolding announced
  announced-Adds admin input phone fee enough = record {
    row = new_withdrawal list_client groups out input admin phone fee;
    is_new = refl;
    is_requested = refl;
    affordable = omega (arith, balance-available list_client list_client-IsPrisma groups sums b);
    adds = refl;
    same_payouts = refl;
    same_payments = refl;
  }

  added-Outcome :
      (admin : Admin) (w : Withdrawal) (mid : Bank)
      → Adds out b mid
      → mid ≡ announced admin w (with_row w b)
      → Outcome out b (announce list_client out admin w (with_row w b)).1
  added-Outcome admin w mid adds same = elim (announce_lem out admin w (with_row w b)) [
    | inl plain ↦ rw (plain, ← same) (added mid adds (Keeps-refl mid))
    | inr sent ↦
        rw (sent, ← same)
          (elim (send_lem out w.id admin mid) [
            | inl k ↦ added mid adds k
            | inr p ↦ added_paid mid w.id admin adds p
          ])
  ]

  request_lem :
      (input : RequestInput) (admin : Admin)
      → Outcome out b (request list_client groups out input admin b).1
  request_lem input admin =
      elim (Result-cases
        (withdrawal_fee (whole (pos input.amount_ugx)) (fee_schedule b.fee_setting))) [
          | inr (e, refused) ↦
              rw (request_no_fee groups out input admin b e refused) (kept (Keeps-refl b))
          | inl (fee, charged) ↦ elim (request_accepted groups out input admin b fee charged) [
            | inl same ↦ rw same (kept (Keeps-refl b))
            | inr (enough, same) ↦
                let phone = normalize_phone input.phone_number in
                let w = new_withdrawal list_client groups out input admin phone fee in
                rw same (
                  added-Outcome admin w (announced admin w (with_row w b))
                    (announced-Adds admin input phone fee enough) refl)
          ]
        ]

  refresh-Keeps : (id : ℕ) → Keeps b (refresh list_client out id b).1
  unfolding refresh
  refresh-Keeps id = ground (arith, settle-Keeps out id b)

  set_fee_schedule-Keeps : (schedule : RawSchedule) → Keeps b (set_fee_schedule schedule b).1
  unfolding set_fee_schedule
  set_fee_schedule-Keeps schedule = ground (arith, Evolves-refl b.withdrawals)

  pub step_lem : (call : Call) → Outcome out b (step list_client groups out call b)
  unfolding step
  step_lem (set_fees schedule) = kept (set_fee_schedule-Keeps schedule)
  step_lem (request_call input admin) = request_lem input admin
  step_lem (approve_call id admin password) = approve_lem out id admin password b
  step_lem (reject_call id admin reason) = kept (reject-Keeps out id admin reason b)
  step_lem (cancel_call id admin) = kept (cancel-Keeps out id admin b)
  step_lem (resolve_call id won note admin password) =
      kept (resolve-Keeps out id won note admin password b)
  step_lem (refresh_call id) = kept (refresh-Keeps id)
  step_lem (webhook id) = kept (settle-Keeps out id b)
  step_lem (poll each) = kept (poll_processing-Keeps out each b)
  step_lem (payments_become payments) = gained payments refl
