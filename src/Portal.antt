-- ===== src/Portal.antt =====
-- apps/api/src/portal/portal.service.ts: getting a lost voucher back with a code sent to the phone
-- that bought it. The maps in memory are lists of entries; the clock, the code that is drawn and the
-- messaging services come from outside.
pub mod Codes
mod Tests
use netcam.Database.{Client}
use netcam.Phone.{normalize_phone}
use netcam.Prelude.Strings.{remove_first}
use netcam.Messages.{OutgoingMessage, Services, send}
use netcam.Vouchers.{VoucherStatus, active, unused}
use netcam.Prelude.{
  ℕ, ◌+◌, ◌-◌, ◌*◌, Bool, true, false, ◌&&◌, not, Option, none, some, List, [], ◌∷◌, ◌++◌, Text,
  codes, same, select, find, Action, pure, gets, or_throw, ◌>>=◌, ◌>>◌, throw_if, modify, ltb,
  if◌then◌else◌, upsert, sort_by, Result, ok, err,
}

pub record Customer : Type 0 where
  pub id : Text
  pub phone_number : Text
  pub name : Option Text

pub record Voucher : Type 0 where
  pub customer_id : Text
  pub code : Text
  pub package_name : Text
  pub status : VoucherStatus
  pub created_at : ℕ
  pub expires_at : Option ℕ

-- `OtpChallenge`, with the phone number it stands under.
pub record OtpChallenge : Type 0 where
  pub key : Text
  pub otp : Text
  pub expires_at : ℕ

pub record LastSent : Type 0 where
  pub key : Text
  pub at : ℕ

pub record Portal : Type 0 where
  pub customers : List Customer
  pub vouchers : List Voucher
  pub challenges : List OtpChallenge
  pub last_sent_at : List LastSent
  pub messages : List OutgoingMessage

pub record Outside : Type 0 where
  pub now : ℕ
  -- six digits
  pub new_otp : Text

pub data Error : Type 0 where
  no_customer bad_code no_voucher : Error

pub record Recovered : Type 0 where
  pub voucher_code : Text
  pub package_name : Text
  pub expires_at : Option ℕ

abbrev pub otp_ttl_ms : ℕ
otp_ttl_ms = 5 * 60 * 1000

abbrev pub otp_resend_cooldown_ms : ℕ
otp_resend_cooldown_ms = 60 * 1000

abbrev pub has_key : Text → OtpChallenge → Bool
has_key key c = same c.key key

abbrev pub is_usable : VoucherStatus → Bool
is_usable active = true
is_usable unused = true
is_usable _ = false

abbrev pub is_usable_by : Customer → Voucher → Bool
is_usable_by c v = same v.customer_id c.id && is_usable v.status

-- `findFirst` with `orderBy: { createdAt: "desc" }`
abbrev pub newest : List Voucher → Option Voucher
newest vs = elim (sort_by (λ a b. ltb b.created_at a.created_at) vs) [ [] ↦ none | v ∷ _ ↦ some v ]

-- `lastSentAt.get(key) ?? 0`
abbrev pub last_sent : Text → List LastSent → ℕ
last_sent key xs = elim (find (λ x. same x.key key) xs) [ none ↦ 0 | some x ↦ x.at ]

abbrev pub set_last_sent : Text → ℕ → List LastSent → List LastSent
set_last_sent key now =
    upsert (λ x. same x.key key) (record { key = key; at = now }) (λ x. record x { at = now })

abbrev pub set_challenge : Text → Text → ℕ → List OtpChallenge → List OtpChallenge
set_challenge key otp until =
    upsert (has_key key) (record { key = key; otp = otp; expires_at = until })
      (λ c. record c { otp = otp; expires_at = until })

-- `challenges.delete(key)`
abbrev pub delete_challenge : Text → List OtpChallenge → List OtpChallenge
delete_challenge key = select (λ c. not (has_key key c))

abbrev pub recovery_message : Customer → Text → OutgoingMessage
recovery_message c otp = record {
  phone_digits = remove_first b'+' c.phone_number;
  name = c.name;
  subject = codes "Recovery code";
  message =
      codes "Your recovery code is " ++ otp ++ codes ". It expires in 5 minutes. Don't share it.";
  customer_id = some c.id;
  payment_id = none;
  whatsapp = none;
  sms = none;
}

-- The code that was sent, and not too long ago.
abbrev pub is_right : ℕ → Text → Option OtpChallenge → Bool
is_right now otp none = false
is_right now otp (some c) = not (ltb c.expires_at now) && same c.otp otp

abbrev pub recovered_from : Voucher → Recovered
recovered_from v = record {
  voucher_code = v.code;
  package_name = v.package_name;
  expires_at = v.expires_at;
}

module _ (db : Client) where
  unfoldable pub find_by_phone : Text → Portal → Option Customer
  unfolding normalize_phone
  find_by_phone raw b =
      db.find_first Customer (λ c. same c.phone_number (normalize_phone raw)) b.customers

  unfoldable pub find_voucher : Customer → Portal → Option Voucher
  find_voucher c b = newest (db.find_many Voucher (is_usable_by c) b.vouchers)

  abbrev pub send_code : Outside → Customer → Portal → Portal
  send_code out c b = record b {
    challenges = set_challenge c.phone_number out.new_otp (out.now + otp_ttl_ms) b.challenges;
    last_sent_at = set_last_sent c.phone_number out.now b.last_sent_at;
    messages = b.messages ++ recovery_message c out.new_otp ∷ [];
  }

  -- The answer is the same in every case.
  unfoldable pub request_recovery : Outside → Text → Portal → Portal
  unfolding find_by_phone find_voucher
  request_recovery out raw b = elim (find_by_phone raw b) [
    | none ↦ b
    | some c ↦ elim (find_voucher c b) [
      | none ↦ b
      | some v ↦
          if ltb (out.now - last_sent c.phone_number b.last_sent_at) otp_resend_cooldown_ms
          then b
          else send_code out c b
    ]
  ]

  -- What is left when the code was right: it is gone, whether or not a voucher is found.
  abbrev pub after_code : Customer → Portal → Portal
  after_code c b = record b { challenges = delete_challenge c.phone_number b.challenges }

  abbrev pub hand_out : Customer → Portal → Result Error Recovered
  hand_out c b = elim (find_voucher c b) [ none ↦ err no_voucher | some v ↦ ok (recovered_from v) ]

  unfoldable pub confirm_recovery : Outside → Text → Text → Action Portal Error Recovered
  unfolding find_by_phone find_voucher
  confirm_recovery out raw otp b = elim (find_by_phone raw b) [
    | none ↦ (err no_customer, b)
    | some c ↦
        let challenge = find (has_key c.phone_number) b.challenges in
        if not (is_right out.now otp challenge)
        then (err bad_code, b)
        else (hand_out c (after_code c b), after_code c b)
  ]
