-- ===== src/Payments.antt =====
-- apps/api/src/payments/payments.service.ts: paying for a package by mobile money. Here are the
-- rows and the start of a payment; Reconcile settles it. A payment's id is text, since the gateway
-- reports it back. The database client, the gateway's answers and the clock come from outside.
pub mod Reconcile
pub mod Verdicts
pub mod Books
pub mod Fulfilled
mod Tests
use netcam.Database.{Client}
use netcam.Phone.{normalize_phone, msisdn_digits, is_msisdn}
use netcam.Gateway.{InitiateResult, StatusResult, initiate_deposit, get_status}
use netcam.Prelude.Strings.{upper}
use netcam.Prelude.{
  ℕ, Bool, true, false, ◌&&◌, ◌||◌, not, Option, none, some, List, [], ◌∷◌, ◌++◌, Text, codes, same,
  ok, Action, pure, throw, ltb, ◌==◌, if◌then◌else◌, or_else,
}

pub data PaymentStatus : Type 0 where
  pending success failed cancelled : PaymentStatus

abbrev pub is_pending : PaymentStatus → Bool
is_pending pending = true
is_pending _ = false

abbrev pub is_success : PaymentStatus → Bool
is_success success = true
is_success _ = false

pub record Package : Type 0 where
  pub id : ℕ
  pub price_ugx : ℕ
  pub is_active : Bool

pub record Payment : Type 0 where
  pub id : Text
  -- `customerId`, which the phone number determines
  pub phone_number : Text
  pub package_id : ℕ
  pub amount_ugx : ℕ
  pub status : PaymentStatus
  pub mac_address : Option Text
  pub ip_address : Option Text
  pub router_id : Option Text
  pub provider_ref : Option Text
  pub failure_reason : Option Text
  pub voucher_id : Option ℕ
  pub created_at : ℕ
  pub completed_at : Option ℕ

-- A voucher as `issueForPayment` writes it.
pub record Issued : Type 0 where
  pub id : ℕ
  pub code : Text
  pub package_id : ℕ
  pub phone_number : Text

pub record DeviceContext : Type 0 where
  pub mac_address : Text
  pub ip_address : Option Text
  pub router_id : Option Text

-- What `initiateDeposit` is asked to collect.
pub record Deposit : Type 0 where
  pub external_reference : Text
  pub msisdn_digits : Text
  pub amount : ℕ
  pub currency : Text

-- The calls on other services, in their order: `autoLogin`, `messenger.send`, `alerts.notify`.
pub data Notice : Type 0 where
  auto_login : DeviceContext → Notice
  code_sent : (phone_digits code : Text) → Notice
  went_through did_not undelivered : (payment : Text) → Notice

pub record Shop : Type 0 where
  pub packages : List Package
  pub payments : List Payment
  pub vouchers : List Issued
  pub deposits : List Deposit
  pub notices : List Notice

-- What one call meets outside the service.
pub record Outside : Type 0 where
  pub now : ℕ
  pub new_id : Text
  pub new_voucher_id : ℕ
  -- what `generateVoucherCode` draws, call by call
  pub drawn : List Text
  pub initiate_deposit : Deposit → InitiateResult
  pub get_status : Text → StatusResult
  -- `delivery.ok`
  pub is_delivered : Text → Bool

pub data Error : Type 0 where
  no_package bad_price bad_phone unknown_package no_code already_reconciled not_found : Error
  not_started : Option Text → Error

abbrev pub currency : Text
currency = codes "UGX"

abbrev pub min_ssentezo_amount_ugx : ℕ
min_ssentezo_amount_ugx = 500

abbrev pub max_ssentezo_amount_ugx : ℕ
max_ssentezo_amount_ugx = 7000000

abbrev pub has_id : Text → Payment → Bool
has_id id p = same p.id id

abbrev pub notice : Notice → Shop → Shop
notice n b = record b { notices = b.notices ++ n ∷ [] }

abbrev pub bad_amount : ℕ → Bool
bad_amount price = ltb price min_ssentezo_amount_ugx || ltb max_ssentezo_amount_ugx price

abbrev pub context_mac : Option DeviceContext → Option Text
context_mac none = none
context_mac (some d) = some (upper d.mac_address)

abbrev pub context_ip : Option DeviceContext → Option Text
context_ip none = none
context_ip (some d) = d.ip_address

abbrev pub context_router : Option DeviceContext → Option Text
context_router none = none
context_router (some d) = d.router_id

abbrev pub new_payment : Outside → Package → Text → Option DeviceContext → Payment
new_payment out pkg phone device = record {
  id = out.new_id;
  phone_number = phone;
  package_id = pkg.id;
  amount_ugx = pkg.price_ugx;
  status = pending;
  mac_address = context_mac device;
  ip_address = context_ip device;
  router_id = context_router device;
  provider_ref = none;
  failure_reason = none;
  voucher_id = none;
  created_at = out.now;
  completed_at = none;
}

abbrev pub deposit_of : Payment → Deposit
deposit_of p = record {
  external_reference = p.id;
  msisdn_digits = msisdn_digits p.phone_number;
  amount = p.amount_ugx;
  currency = currency;
}

abbrev pub unstarted_row : InitiateResult → Payment → Payment
unstarted_row result p = record p {
  status = failed;
  failure_reason = or_else result.error_message p.failure_reason;
}

abbrev pub started_row : InitiateResult → Payment → Payment
started_row result p = record p { provider_ref = or_else result.provider_ref p.provider_ref }

module _ (db : Client) where
  -- `initiate` from the gateway's answer on.
  unfoldable pub started : Payment → InitiateResult → Action Shop Error Payment
  started p result b =
      let row = if result.ok then started_row result else unstarted_row result in
      let (rows, count) = db.update_many Payment (has_id p.id) row b.payments in
      let b' = record b { payments = rows } in
      if result.ok then pure p b' else throw (not_started result.error_message) b'

  -- The package must be on sale, its price collectable, and the phone number a Ugandan one.
  unfoldable pub initiate : Outside → ℕ → Text → Option DeviceContext → Action Shop Error Payment
  unfolding started
  initiate out package_id raw_phone device b =
      elim (db.find_first Package (λ p. p.id == package_id) b.packages) [
        | none ↦ throw no_package b
        | some pkg ↦
            let phone = normalize_phone raw_phone in
            if not pkg.is_active
            then throw no_package b
            else if bad_amount pkg.price_ugx
            then throw bad_price b
            else if not (is_msisdn (msisdn_digits phone))
            then throw bad_phone b
            else (let p = new_payment out pkg phone device in
                let asked = record b {
                  payments = db.create Payment p b.payments;
                  deposits = b.deposits ++ deposit_of p ∷ [];
                } in
                started p (out.initiate_deposit (deposit_of p)) asked)
      ]
