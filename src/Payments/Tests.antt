-- ===== src/Payments/Tests.antt =====
-- Runs of the payments service, and instances of its theorems.
use netcam.Database.{list_client, list_client-IsPrisma}
use netcam.Phone.{normalize_phone, is_msisdn}
use netcam.Gateway.{InitiateResult, StatusResult, succeeded, refused}
use netcam.Payments.Books.{run, run-IsBalanced, Call, IsBalanced, start, webhook, overlapped}
use netcam.Payments.Fulfilled.{IsFulfilled, reconcile-IsFulfilled}
use netcam.Payments.Verdicts.{IsProof, verdict-succeed_iff}
use netcam.Prelude.{ℕ, ◌≡◌, refl, ◌↔◌, true, false, none, some, List, [], ◌∷◌, Text, codes, length}
use netcam.Payments.{Payment, Shop, Outside, new_payment, initiate}
use netcam.Payments.Reconcile.{verdict, succeed, settle_payment, reconcile}

abbrev report : StatusResult
report = record {
  ok = true;
  transaction_status = some succeeded;
  external_reference = some (codes "p1");
  provider_ref = some (codes "r1");
  financial_transaction_id = none;
  amount = some 1000;
  currency = some (codes "UGX");
  error_message = none;
}

abbrev accepted : InitiateResult
accepted = record (refused false []) { ok = true }

abbrev outside : Text → ℕ → Outside
outside id voucher = record {
  now = 100000;
  new_id = id;
  new_voucher_id = voucher;
  drawn = codes "AAAA" ∷ codes "BBBB" ∷ [];
  initiate_deposit = λ d. accepted;
  get_status = λ id. report;
  is_delivered = λ digits. true;
}

abbrev opening : Shop
opening = record {
  packages = record { id = 1; price_ugx = 1000; is_active = true } ∷ [];
  payments = [];
  vouchers = [];
  deposits = [];
  notices = [];
}

abbrev sold : Payment
sold =
    new_payment (outside (codes "p1") 1) (record { id = 1; price_ugx = 1000; is_active = true })
      (codes "+256772123456") none

-- A sale, then its webhook twice and a poll that read the payment before either.
abbrev sales : List (Outside × Call)
sales =
    (outside (codes "p1") 1, start 1 (codes "0772123456") none)
    ∷ (outside (codes "p2") 1, webhook (codes "p1"))
    ∷ (outside (codes "p2") 2, webhook (codes "p1"))
    ∷ (outside (codes "p2") 3, overlapped sold report)
    ∷ []

one_voucher : length (run list_client sales opening).vouchers ≡ 1
unfolding run settle_payment reconcile initiate is_msisdn normalize_phone
one_voucher = refl

run-IsBalanced_example : IsBalanced (run list_client sales opening)
unfolding run settle_payment reconcile initiate is_msisdn normalize_phone
run-IsBalanced_example =
    run-IsBalanced list_client list_client-IsPrisma sales opening (refl, (refl, (refl, (refl, tt))))
      (record { backed = refl; collectable = tt })

verdict-succeed_iff_example : (verdict sold report ≡ succeed) ↔ IsProof sold report
verdict-succeed_iff_example = verdict-succeed_iff sold report

abbrev awaiting : Shop
awaiting = (initiate list_client (outside (codes "p1") 1) 1 (codes "0772123456") none opening).1

reconcile-IsFulfilled_example :
    IsFulfilled
      (outside [] 4)
      (codes "p1")
      (record sold { provider_ref = none })
      (codes "AAAA")
      (reconcile list_client (outside [] 4) (codes "p1") awaiting)
unfolding initiate is_msisdn normalize_phone verdict
reconcile-IsFulfilled_example =
    reconcile-IsFulfilled list_client list_client-IsPrisma (outside [] 4) (codes "p1") awaiting
      (record sold { provider_ref = none }) (record { id = 1; price_ugx = 1000; is_active = true })
      (codes "AAAA") refl refl refl refl refl refl
