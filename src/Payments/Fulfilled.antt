-- ===== src/Payments/Fulfilled.antt =====
-- A customer who has paid gets the voucher.
use netcam.Phone.{msisdn_digits}
use netcam.Gateway.{StatusResult}
use netcam.Prelude.{
  ℕ, ◌≤◌, ◌≡◌, Bool, true, false, ◌&&◌, none, some, List, [], ◌∷◌, ◌++◌, arith, Text, same, any,
  count_if, patch, ◌==◌, refl, ◌∙◌, find, ok, is_some, if◌then◌else◌,
}
use netcam.Payments.{
  is_success, Payment, Issued, Notice, Outside, code_sent, is_pending, Package, Shop, has_id,
  went_through, undelivered,
}
use netcam.Payments.Reconcile.{
  is_waiting, success_row, verdict, first_free, issued, logged_in, deliver, draw, issue_for_payment,
  claim_payment, complete, settle_payment, reconcile, succeed,
}
use netcam.Prelude.Strings.{same_eq, same_refl}
use netcam.Database.{Client, IsPrisma, list_client, client-eq}

-- The payment of this id went through, for the voucher of this number.
abbrev pub is_paid_with : Text → ℕ → Payment → Bool
is_paid_with id voucher p =
    same p.id id
    && is_success p.status
    && elim p.voucher_id [ none ↦ false | some v ↦ v == voucher ]

abbrev pub has_code : ℕ → Text → Issued → Bool
has_code id code v = v.id == id && same v.code code

-- The message with the code.
abbrev pub sends : Text → Text → Notice → Bool
sends digits code (code_sent d c) = same d digits && same c code
sends digits code _ = false

any-snoc :
    {A : Type 0} (p : A → Bool) (xs : List A) (x : A) → p x ≡ true → any p (xs ++ x ∷ []) ≡ true
any-snoc p [] x h = ground (arith, h)
any-snoc p (y ∷ xs) x h = ground (arith, any-snoc p xs x h)

any-right : {A : Type 0} (p : A → Bool) (xs ys : List A) → any p ys ≡ true → any p (xs ++ ys) ≡ true
any-right p [] ys h = h
any-right p (x ∷ xs) ys h = ground (arith, any-right p xs ys h)

paid-patch :
    (id : Text) (voucher : ℕ) (f : Payment → Payment) (ps : List Payment)
    → ((p : Payment) → is_waiting id p ≡ true → is_paid_with id voucher (f p) ≡ true)
    → 1 ≤ count_if (is_waiting id) ps
    → any (is_paid_with id voucher) (patch (is_waiting id) f ps) ≡ true
paid-patch id voucher f [] h there = ground (arith, there)
paid-patch id voucher f (p ∷ ps) h there = ground (arith, there, h p, paid-patch id voucher f ps h)

success_lem :
    (out : Outside) (v : Issued) (s : StatusResult) (id : Text) (p : Payment)
    → is_waiting id p ≡ true
    → is_paid_with id v.id (success_row out v s p) ≡ true
success_lem out v s id p h = ground (arith, h)

-- The shop once the voucher is issued and the payment claimed.
abbrev settled : Outside → Payment → StatusResult → Text → Shop → Shop
settled out p s code b = record b {
  vouchers = b.vouchers ++ issued out p code ∷ [];
  payments = patch (is_waiting p.id) (success_row out (issued out p code) s) b.payments;
}

complete_ok :
    (out : Outside) (p : Payment) (s : StatusResult) (b : Shop) (pkg : Package) (code : Text)
    → find (λ k. k.id == p.package_id) b.packages ≡ some pkg
    → draw list_client out b ≡ some code
    → count_if (is_waiting p.id) b.payments ≡ 1
    → (complete list_client out p s b).0 ≡ ok (issued out p code)
unfolding complete issue_for_payment claim_payment
complete_ok out p s b pkg code known drawn one = ground (arith, known, drawn, one)

complete_shop :
    (out : Outside) (p : Payment) (s : StatusResult) (b : Shop) (pkg : Package) (code : Text)
    → find (λ k. k.id == p.package_id) b.packages ≡ some pkg
    → draw list_client out b ≡ some code
    → count_if (is_waiting p.id) b.payments ≡ 1
    → (complete list_client out p s b).1 ≡ settled out p s code b
unfolding complete issue_for_payment claim_payment
complete_shop out p s b pkg code known drawn one = ground (arith, known, drawn, one)

settle_done :
    (out : Outside) (p : Payment) (s : StatusResult) (b : Shop) (pkg : Package) (code : Text)
    → verdict p s ≡ succeed
    → find (λ k. k.id == p.package_id) b.packages ≡ some pkg
    → draw list_client out b ≡ some code
    → count_if (is_waiting p.id) b.payments ≡ 1
    → settle_payment list_client out p s b
      ≡ deliver out p (issued out p code) (settled out p s code b)
unfolding settle_payment
settle_done out p s b pkg code good known drawn one =
    rw
      (
        settle_payment,
        good,
        complete_ok out p s b pkg code known drawn one,
        complete_shop out p s b pkg code known drawn one,
      )
      refl

find-has_id :
    (id : Text) (ps : List Payment) (p : Payment)
    → find (has_id id) ps ≡ some p
    → same p.id id ≡ true
find-has_id id [] p h = ground (arith, h)
find-has_id id (q ∷ ps) p h = ground (arith, h, find-has_id id ps p)

is_some-find : (p : Issued → Bool) (vs : List Issued) → is_some (find p vs) ≡ any p vs
is_some-find p [] = refl
is_some-find p (v ∷ vs) = ground (arith, is_some-find p vs)

draw-free :
    (cs : List Text) (vs : List Issued)
    → first_free (λ c. is_some (find (λ v. same v.code c) vs)) cs
      ≡ first_free (λ c. any (λ v. same v.code c) vs) cs
draw-free [] vs = refl
draw-free (c ∷ cs) vs = ground (arith, is_some-find (λ v. same v.code c) vs, draw-free cs vs)

-- The customer of this payment has the voucher with this code, and was sent the code.
pub record IsFulfilled (out : Outside) (id : Text) (p : Payment) (code : Text) (b : Shop)
    : Type 0 where
  pub paid : any (is_paid_with id out.new_voucher_id) b.payments ≡ true
  pub issued : any (has_code out.new_voucher_id code) b.vouchers ≡ true
  pub sent : any (sends (msisdn_digits p.phone_number) code) b.notices ≡ true

delivered_lem :
    (out : Outside) (id : Text) (p : Payment) (s : StatusResult) (code : Text) (b : Shop)
    → same p.id id ≡ true
    → count_if (is_waiting p.id) b.payments ≡ 1
    → IsFulfilled out id p code (deliver out p (issued out p code) (settled out p s code b))
unfolding deliver
delivered_lem out id p s code b named one =
    let v = issued out p code in
    let digits = msisdn_digits p.phone_number in
    let told : List Notice = if out.is_delivered digits then [] else undelivered p.id ∷ [] in
    let rest = code_sent digits code ∷ went_through p.id ∷ told in
    record {
      paid = rw (← same_eq p.id id named) (
          paid-patch p.id v.id (success_row out v s) b.payments (success_lem out v s p.id)
            (omega (arith, one)));
      issued = any-snoc (has_code v.id code) b.vouchers v (ground (arith, same_refl code));
      sent =
          any-right (sends digits code) (b.notices ++ logged_in p) rest
            (ground (arith, same_refl digits, same_refl code));
    }

-- When the gateway reports the deposit of a pending payment as made, in full, the payment's package
-- is there, no other pending payment has its id, and one of the codes that are drawn is free, then
-- checking on the payment marks it as paid, issues a voucher with the first free code for it, and
-- sends the code to the customer.
pub reconcile-IsFulfilled :
    (db : Client)
    → IsPrisma db
    → (out : Outside) (id : Text) (b : Shop) (p : Payment) (pkg : Package) (code : Text)
    → find (has_id id) b.payments ≡ some p
    → is_pending p.status ≡ true
    → count_if (is_waiting p.id) b.payments ≡ 1
    → verdict p (out.get_status id) ≡ succeed
    → find (λ k. k.id == p.package_id) b.packages ≡ some pkg
    → first_free (λ c. any (λ v. same v.code c) b.vouchers) out.drawn ≡ some code
    → IsFulfilled out id p code (reconcile db out id b)
unfolding reconcile
reconcile-IsFulfilled db lawful out id b p pkg code found waits one good known free =
    let s = out.get_status id in
    let drawn = draw-free out.drawn b.vouchers ∙ free in
    rw (client-eq db lawful) (
      rw (reconcile, found, waits, settle_done out p s b pkg code good known drawn one)
        (delivered_lem out id p s code b (find-has_id id b.payments p found) one))
