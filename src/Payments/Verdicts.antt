-- ===== src/Payments/Verdicts.antt =====
-- What the gateway must report before a payment counts as paid.
use netcam.Gateway.{StatusResult, succeeded}
use netcam.Prelude.{◌≡◌, ◌↔◌, ◌⊎◌, true, false, none, some, arith}
use netcam.Payments.{Payment, currency}
use netcam.Payments.Reconcile.{differs, verdict, succeed}

pub record IsProof (p : Payment) (s : StatusResult) : Type 0 where
  pub is_ok : s.ok ≡ true
  pub has_succeeded : s.transaction_status ≡ some succeeded
  pub same_payment : differs s.external_reference p.id ≡ false
  pub same_amount : (s.amount ≡ none) ⊎ (s.amount ≡ some p.amount_ugx)
  pub same_currency : differs s.currency currency ≡ false

-- A payment is taken as paid exactly when the report was accepted, says that the transaction
-- succeeded, and names no other payment, no other amount and no other currency.
pub verdict-succeed_iff : (p : Payment) (s : StatusResult) → (verdict p s ≡ succeed) ↔ IsProof p s
unfolding verdict
verdict-succeed_iff p s = (
  λ h. record {
    is_ok = ground arith;
    has_succeeded = ground arith;
    same_payment = ground arith;
    same_amount = ground arith;
    same_currency = ground arith;
  },
  λ h. ground (arith, h.is_ok, h.has_succeeded, h.same_payment, h.same_amount, h.same_currency),
)
