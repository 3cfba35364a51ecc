-- ===== src/Payments/Reconcile.antt =====
-- `PaymentsService.reconcile`, `pollPending`, `handleWebhook`, and `issueForPayment` of
-- apps/api/src/vouchers/vouchers.service.ts.
use netcam.Database.{Client}
use netcam.Phone.{msisdn_digits}
use netcam.Gateway.{StatusResult, TransactionStatus, succeeded, failed as tx_failed}
use netcam.Payments.{
  is_pending, Package, Payment, Issued, Notice, Shop, Outside, Error, currency, has_id, notice,
  success, failed, auto_login, code_sent, went_through, did_not, undelivered, unknown_package,
  no_code, already_reconciled,
}
use netcam.Prelude.{
  ℕ, ◌+◌, Bool, true, false, Result, ◌&&◌, ◌||◌, not, Option, none, some, List, [], ◌∷◌, ◌++◌, Text,
  same, is_empty, take, ok, err, Action, pure, throw, ◌>>=◌, leb, ◌==◌, if◌then◌else◌, or_else,
  is_some,
}

-- What a status report means for a payment.
pub data Verdict : Type 0 where
  wait fail succeed : Verdict

-- A field of the report that is present must agree.
abbrev pub differs : Option Text → Text → Bool
differs none expected = false
differs (some s) expected = not (is_empty s) && not (same s expected)

abbrev pub wrong_amount : Option ℕ → ℕ → Bool
wrong_amount none expected = false
wrong_amount (some n) expected = not (n == expected)

abbrev pub outcome : Option TransactionStatus → Verdict
outcome (some tx_failed) = fail
outcome (some succeeded) = succeed
outcome _ = wait

-- The early returns of `reconcile`, in their order.
unfoldable pub verdict : Payment → StatusResult → Verdict
verdict p s =
    if not s.ok || not (is_some s.transaction_status)
    then wait
    else if differs s.external_reference p.id
    then wait
    else if wrong_amount s.amount p.amount_ugx
    then wait
    else if differs s.currency currency
    then wait
    else outcome s.transaction_status

abbrev pub is_waiting : Text → Payment → Bool
is_waiting id p = same p.id id && is_pending p.status

-- `while (taken) draw again`: the first code drawn that no voucher has.
abbrev pub first_free : (Text → Bool) → List Text → Option Text
first_free taken [] = none
first_free taken (c ∷ cs) = let rest = first_free taken cs in if taken c then rest else some c

abbrev pub issued : Outside → Payment → Text → Issued
issued out p code = record {
  id = out.new_voucher_id;
  code = code;
  package_id = p.package_id;
  phone_number = p.phone_number;
}

abbrev pub success_row : Outside → Issued → StatusResult → Payment → Payment
success_row out voucher s p = record p {
  status = success;
  completed_at = some out.now;
  voucher_id = some voucher.id;
  provider_ref = or_else s.provider_ref p.provider_ref;
}

abbrev pub failed_payment : Payment → Payment
failed_payment p = record p { status = failed }

-- `$transaction`: all of it or nothing.
abbrev pub transaction : {S E A : Type 0} → Action S E A → Action S E A
transaction m s = let (r, s') = m s in elim r [ ok a ↦ (ok a, s') | err e ↦ (err e, s) ]

abbrev is_rethrown : Result Error Issued → Bool
is_rethrown (ok voucher) = false
is_rethrown (err already_reconciled) = false
is_rethrown (err _) = true

abbrev pub logged_in : Payment → List Notice
logged_in p = elim p.mac_address [
  | none ↦ []
  | some mac ↦
      auto_login (record { mac_address = mac; ip_address = p.ip_address; router_id = p.router_id })
      ∷ []
]

-- After the money has landed: log the device in, send the code, alert the admins.
unfoldable pub deliver : Outside → Payment → Issued → Shop → Shop
deliver out p voucher b =
    let digits = msisdn_digits p.phone_number in
    record b {
      notices =
          b.notices
          ++ logged_in p
          ++ code_sent digits voucher.code
            ∷ went_through p.id
            ∷ (if out.is_delivered digits then [] else undelivered p.id ∷ []);
    }

module _ (db : Client) where
  -- The code that the loop ends with.
  abbrev pub draw : Outside → Shop → Option Text
  draw out b =
      first_free (λ c. is_some (db.find_first Issued (λ v. same v.code c) b.vouchers)) out.drawn

  unfoldable pub issue_for_payment : Outside → Payment → Action Shop Error Issued
  issue_for_payment out p b = elim (db.find_first Package (λ k. k.id == p.package_id) b.packages) [
    | none ↦ throw unknown_package b
    | some pkg ↦ elim (draw out b) [
      | none ↦ throw no_code b
      | some code ↦
          let voucher = issued out p code in
          pure voucher (record b { vouchers = db.create Issued voucher b.vouchers })
    ]
  ]

  -- The references of the gateway are taken to be unlike each other, as the table's column demands.
  unfoldable pub claim_payment :
      Outside → Payment → StatusResult → Issued → Action Shop Error Issued
  claim_payment out p s voucher b =
      let (rows, count) =
        db.update_many Payment (is_waiting p.id) (success_row out voucher s) b.payments in
      let b' = record b { payments = rows } in
      if count == 1 then pure voucher b' else throw already_reconciled b'

  unfoldable pub complete : Outside → Payment → StatusResult → Action Shop Error Issued
  unfolding issue_for_payment claim_payment
  complete out p s = transaction (issue_for_payment out p >>= claim_payment out p s)

  -- `reconcile` once the gateway has answered about the payment that it read.
  unfoldable pub settle_payment : Outside → Payment → StatusResult → Shop → Shop
  unfolding verdict complete deliver
  settle_payment out p s b = elim (verdict p s) [
    | wait ↦ b
    | fail ↦ notice (did_not p.id) (record b {
      payments = (db.update_many Payment (is_waiting p.id) failed_payment b.payments).0;
    })
    | succeed ↦
        let (r, b') = complete out p s b in
        elim r [ ok voucher ↦ deliver out p voucher b' | err _ ↦ b' ]
  ]

  unfoldable pub reconcile : Outside → Text → Shop → Shop
  unfolding settle_payment
  reconcile out reference b = elim (db.find_first Payment (has_id reference) b.payments) [
    | none ↦ b
    | some p ↦ if is_pending p.status then settle_payment out p (out.get_status reference) b else b
  ]

  -- Whether `reconcile` throws: any error but that another call was faster.
  abbrev settle_throws : Outside → Payment → StatusResult → Shop → Bool
  settle_throws out p s b = elim (verdict p s) [
    | succeed ↦ is_rethrown (complete out p s b).0
    | _ ↦ false
  ]

  abbrev pub reconcile_throws : Outside → Text → Shop → Bool
  reconcile_throws out reference b = elim (db.find_first Payment (has_id reference) b.payments) [
    | none ↦ false
    | some p ↦ is_pending p.status && settle_throws out p (out.get_status reference) b
  ]

  -- The loop ends where `reconcile` throws.
  abbrev pub reconcile_all : (Text → Outside) → List Payment → Shop → Shop
  reconcile_all each [] b = b
  reconcile_all each (p ∷ ps) b =
      let settled = reconcile (each p.id) p.id b in
      let rest = reconcile_all each ps settled in
      if reconcile_throws (each p.id) p.id b then settled else rest

  abbrev pub is_stale : ℕ → Payment → Bool
  is_stale now p = is_pending p.status && leb (p.created_at + 15000) now

  -- Each payment meets its own answers from outside.
  unfoldable pub poll_pending : Outside → (Text → Outside) → Shop → Shop
  unfolding reconcile
  poll_pending out each b =
      reconcile_all each (take 50 (db.find_many Payment (is_stale out.now) b.payments)) b
