-- ===== src/Payments/Books.antt =====
-- The books of the portal's sales: every voucher that was issued is backed by a successful payment.
use mathlib.Core.Path.{subst}
use netcam.Database.{Client, list_client, IsPrisma, client-eq}
use netcam.Gateway.{StatusResult, InitiateResult}
use netcam.Phone.{is_msisdn, normalize_phone}
use netcam.Prelude.{
  ℕ, suc, ◌+◌, ◌≤◌, ◌≡◌, refl, Bool, true, false, Option, List, [], ◌∷◌, ◌++◌, arith, Text, length,
  count_if, patch, All, inl, inr, find, All-append, ◌==◌, Bool-cases, Option-cases, take, select,
}
use netcam.Payments.{
  is_success, Payment, Issued, DeviceContext, Deposit, Shop, Outside, has_id, unstarted_row,
  started_row, initiate, is_pending, new_payment, deposit_of,
}
use netcam.Payments.Reconcile.{
  is_waiting, success_row, failed_payment, settle_payment, reconcile, poll_pending, deliver,
  complete, issued, draw, reconcile_all, reconcile_throws, is_stale,
}

-- `overlapped` is a `reconcile` whose read lies in the past: it holds any row and any answer.
pub data Call : Type 0 where
  start : ℕ → Text → Option DeviceContext → Call
  webhook : Text → Call
  poll : (Text → Outside) → Call
  overlapped : Payment → StatusResult → Call

abbrev paid : Payment → Bool
paid p = is_success p.status

abbrev pub successes : Shop → ℕ
successes b = count_if paid b.payments

abbrev pub IsCollectable : Deposit → Type 0
IsCollectable d = (is_msisdn d.msisdn_digits ≡ true) × (500 ≤ d.amount) × (d.amount ≤ 7000000)

pub record IsBalanced (b : Shop) : Type 0 where
  pub backed : length b.vouchers ≡ successes b
  pub collectable : All IsCollectable b.deposits

module _ (db : Client) where
  unfoldable pub step : Outside → Call → Shop → Shop
  step out (start package_id phone device) b = (initiate db out package_id phone device b).1
  step out (webhook reference) b = reconcile db out reference b
  step out (poll each) b = poll_pending db out each b
  step out (overlapped p s) b = settle_payment db out p s b

  unfoldable pub run : List (Outside × Call) → Shop → Shop
  unfolding step
  run [] b = b
  run ((out, call) ∷ calls) b = run calls (step out call b)

  -- Each call brings an id that no row has, as a new UUID is.
  abbrev pub AreFresh : List (Outside × Call) → Shop → Type 0
  AreFresh [] b = Unit
  AreFresh ((out, call) ∷ calls) b =
      (count_if (has_id out.new_id) b.payments ≡ 0) × AreFresh calls (step out call b)

paid-success_row :
    (out : Outside) (v : Issued) (s : StatusResult) (id : Text) (ps : List Payment)
    → count_if paid (patch (is_waiting id) (success_row out v s) ps)
      ≡ count_if paid ps + count_if (is_waiting id) ps
paid-success_row out v s id [] = refl
paid-success_row out v s id (p ∷ ps) = ground (arith, paid-success_row out v s id ps)

paid-failed_payment :
    (id : Text) (ps : List Payment)
    → count_if paid (patch (is_waiting id) failed_payment ps) ≡ count_if paid ps
paid-failed_payment id [] = refl
paid-failed_payment id (p ∷ ps) = ground (arith, paid-failed_payment id ps)

paid-started_row :
    (r : InitiateResult) (id : Text) (ps : List Payment)
    → count_if paid (patch (has_id id) (started_row r) ps) ≡ count_if paid ps
paid-started_row r id [] = refl
paid-started_row r id (p ∷ ps) = ground (arith, paid-started_row r id ps)

paid-unstarted_row :
    (r : InitiateResult) (q : Payment) (ps : List Payment)
    → paid q ≡ false
    → count_if (has_id q.id) ps ≡ 0
    → count_if paid (patch (has_id q.id) (unstarted_row r) (ps ++ q ∷ [])) ≡ count_if paid ps
paid-unstarted_row r q [] h e = ground arith
paid-unstarted_row r q (p ∷ ps) h e = ground (arith, paid-unstarted_row r q ps h)

length-snoc {ℓ} : {A : Type ℓ} (xs : List A) (x : A) → length (xs ++ x ∷ []) ≡ suc (length xs)
length-snoc [] x = refl
length-snoc (y ∷ xs) x = omega (arith, length-snoc xs x)

paid-snoc :
    (ps : List Payment) (q : Payment)
    → paid q ≡ false
    → count_if paid (ps ++ q ∷ []) ≡ count_if paid ps
paid-snoc [] q h = ground arith
paid-snoc (p ∷ ps) q h = ground (arith, paid-snoc ps q h)

complete_lem :
    (out : Outside) (p : Payment) (s : StatusResult) (b : Shop)
    → let c = (complete list_client out p s b).1 in
      (length b.vouchers ≡ successes b)
      → (length c.vouchers ≡ successes c) × (c.deposits ≡ b.deposits)
unfolding complete
complete_lem out p s b h = elim (Option-cases (draw list_client out b)) [
  | inl none_left ↦ (ground arith, ground arith)
  | inr (code, drawn) ↦
      let v = issued out p code in
      let more = paid-success_row out v s p.id b.payments in
      (ground (arith, drawn, more, length-snoc b.vouchers v), ground arith)
]

settle_payment_lem :
    (out : Outside) (p : Payment) (s : StatusResult) (b : Shop)
    → IsBalanced b
    → IsBalanced (settle_payment list_client out p s b)
unfolding settle_payment deliver
settle_payment_lem out p s b h = record {
  backed = ground (arith, h.backed, paid-failed_payment p.id b.payments, complete_lem out p s b);
  collectable = ground (arith, h.backed, h.collectable, complete_lem out p s b);
}

reconcile_lem :
    (out : Outside) (id : Text) (b : Shop)
    → IsBalanced b
    → IsBalanced (reconcile list_client out id b)
unfolding reconcile
reconcile_lem out id b h = elim (Option-cases (find (has_id id) b.payments)) [
  | inl missing ↦ rw (reconcile, missing) h
  | inr (p, found) ↦
      let settled = settle_payment_lem out p (out.get_status id) b h in
      rw (reconcile, found)
        (elim (Bool-cases (is_pending p.status)) [ inl e ↦ rw e settled | inr e ↦ rw e h ])
]

initiate_lem :
    (out : Outside) (k : ℕ) (phone : Text) (d : Option DeviceContext) (b : Shop)
    → count_if (has_id out.new_id) b.payments ≡ 0
    → IsBalanced b
    → IsBalanced (initiate list_client out k phone d b).1
unfolding initiate
initiate_lem out k phone d b fresh h = elim (Option-cases (find (λ p. p.id == k) b.packages)) [
  | inl missing ↦ rw (initiate, missing) h
  | inr (pkg, found) ↦
      let q = new_payment out pkg (normalize_phone phone) d in
      let r = out.initiate_deposit (deposit_of q) in
      record {
        backed = ground (
          arith,
          found,
          h.backed,
          paid-started_row r q.id (b.payments ++ q ∷ []),
          paid-unstarted_row r q b.payments refl fresh,
          paid-snoc b.payments q refl,
        );
        collectable = ground (
          arith,
          found,
          h.collectable,
          All-append IsCollectable b.deposits (deposit_of q ∷ []) h.collectable,
        );
      }
]

reconcile_all_lem :
    (each : Text → Outside) (ps : List Payment) (b : Shop)
    → IsBalanced b
    → IsBalanced (reconcile_all list_client each ps b)
reconcile_all_lem each [] b h = h
reconcile_all_lem each (p ∷ ps) b h =
    let settled = reconcile_lem (each p.id) p.id b h in
    elim (Bool-cases (reconcile_throws list_client (each p.id) p.id b)) [
      | inl thrown ↦ rw thrown settled
      | inr done ↦
          rw done (reconcile_all_lem each ps (reconcile list_client (each p.id) p.id b) settled)
    ]

step_lem :
    (out : Outside) (call : Call) (b : Shop)
    → count_if (has_id out.new_id) b.payments ≡ 0
    → IsBalanced b
    → IsBalanced (step list_client out call b)
unfolding step poll_pending
step_lem out (start k phone d) b fresh h = initiate_lem out k phone d b fresh h
step_lem out (webhook id) b fresh h = reconcile_lem out id b h
step_lem out (poll each) b fresh h =
    reconcile_all_lem each (take 50 (select (is_stale list_client out.now) b.payments)) b h
step_lem out (overlapped p s) b fresh h = settle_payment_lem out p s b h

run_lem :
    (calls : List (Outside × Call)) (b : Shop)
    → AreFresh list_client calls b
    → IsBalanced b
    → IsBalanced (run list_client calls b)
unfolding run
run_lem [] b fresh h = h
run_lem ((out, call) ∷ calls) b fresh h =
    run_lem calls (step list_client out call b) fresh.1 (step_lem out call b fresh.0 h)

-- In a shop that starts with as many vouchers from sales as successful payments, and where every
-- deposit asked of a customer is between 500 and 7,000,000 and of a Ugandan number, this stays so,
-- whatever is called, in any order, with any answers of the gateway and with reads that are out of
-- date by the time the gateway answers; each call brings an id that no payment has, and a call of
-- `initiate` runs to its end before the next.
pub run-IsBalanced :
    (db : Client)
    → IsPrisma db
    → (calls : List (Outside × Call)) (b : Shop) → AreFresh db calls b
    → IsBalanced b
    → IsBalanced (run db calls b)
run-IsBalanced db lawful calls b fresh h =
    rw (client-eq db lawful)
      (run_lem calls b (subst (λ d. AreFresh d calls b) (client-eq db lawful) fresh) h)
