-- ===== src/Phone/Laws.antt =====
-- Phone numbers in their stored form.
use netcam.Prelude.{true, [], ◌∷◌, ◌++◌, ◌≡◌, refl, length, select, all, Text, arith}
use netcam.Prelude.Strings.{is_digit}
use netcam.Phone.{
  plus, country, with_country, normalize_phone, is_msisdn, is_ugandan, msisdn_digits,
}

select-select : (s : Text) → select is_digit (select is_digit s) ≡ select is_digit s
select-select [] = refl
select-select (c ∷ s) = ground (arith, select-select s)

all_digits-select : (s : Text) → all is_digit s ≡ true → select is_digit s ≡ s
all_digits-select [] h = refl
all_digits-select (c ∷ s) h = ground (arith, all_digits-select s)

all_digits-select_self : (s : Text) → all is_digit (select is_digit s) ≡ true
all_digits-select_self [] = refl
all_digits-select_self (c ∷ s) = ground (arith, all_digits-select_self s)

stored_fixed : (phone : Text) → is_ugandan phone ≡ true → normalize_phone phone ≡ phone
unfolding normalize_phone is_ugandan
stored_fixed [] h = cc
stored_fixed (c ∷ digits) h = ground (arith, all_digits-select digits)

-- The stored form is a fixed point when it has the country's code, as every form of a Ugandan number has.
pub normalize_phone_idempotent :
    (raw : Text)
    → is_ugandan (normalize_phone raw) ≡ true
    → normalize_phone (normalize_phone raw) ≡ normalize_phone raw
unfolding normalize_phone is_ugandan
normalize_phone_idempotent raw h = stored_fixed (with_country (select is_digit raw)) h

-- One subscriber's number in its local form, with the country code, with a `+`, or bare: nine digits
-- that begin with 7 give one stored number, which is accepted.
pub normalize_phone_forms :
    (rest : Text)
    → all is_digit rest ≡ true
    → length rest ≡ 8
    → let number = b'7' ∷ rest in
      let stored = plus (country ++ number) in
      (normalize_phone (b'0' ∷ number) ≡ stored)
      × (normalize_phone (country ++ number) ≡ stored)
      × (normalize_phone stored ≡ stored)
      × (normalize_phone number ≡ stored)
      × (is_ugandan stored ≡ true)
unfolding normalize_phone is_ugandan
normalize_phone_forms rest h l =
    let digits = all_digits-select rest h in
    (
      rw digits (ground arith),
      rw digits (ground arith),
      rw digits (ground arith),
      rw digits (ground arith),
      ground arith,
    )

-- An accepted number without its `+` is what the gateway takes as an MSISDN.
pub msisdn_digits-is_msisdn :
    (phone : Text) → is_ugandan phone ≡ true → is_msisdn (msisdn_digits phone) ≡ true
unfolding is_ugandan is_msisdn
msisdn_digits-is_msisdn [] h = cc
msisdn_digits-is_msisdn (c ∷ digits) h = ground arith
