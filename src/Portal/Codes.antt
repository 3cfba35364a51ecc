-- ===== src/Portal/Codes.antt =====
-- A recovery code is taken at most once.
use netcam.Database.{Client, list_client, IsPrisma, client-eq}
use netcam.Prelude.Strings.{same_eq, same_refl, remove_first}
use netcam.Messages.{OutgoingMessage}
use netcam.Prelude.{
  ℕ, ◌+◌, ◌-◌, ◌≤◌, ◌≡◌, refl, inl, inr, Bool, true, false, ◌&&◌, Option, none, some, List, [], ◌∷◌,
  ◌++◌, arith, Text, same, count_if, find, Result, ok, err, ltb, if◌then◌else◌, Bool-cases,
  Option-cases,
}
use netcam.Portal.{
  Customer, OtpChallenge, Portal, Outside, Error, Recovered, otp_ttl_ms, otp_resend_cooldown_ms,
  has_key, last_sent, set_challenge, delete_challenge, recovery_message, is_right, find_by_phone,
  find_voucher, send_code, request_recovery, confirm_recovery, no_voucher, after_code,
}

pub data Call : Type 0 where
  requests : (phone : Text) → Call
  confirms : (phone otp : Text) → Call

-- The code was right, whether or not a voucher is left.
abbrev passed : Result Error Recovered → Bool
passed (ok r) = true
passed (err no_voucher) = true
passed (err _) = false

abbrev is_for : Text → Option Customer → Bool
is_for key none = false
is_for key (some c) = same c.phone_number key

module _ (db : Client) where
  unfoldable pub step : Outside → Call → Portal → Portal
  step out (requests phone) b = request_recovery db out phone b
  step out (confirms phone otp) b = (confirm_recovery db out phone otp b).1

  unfoldable pub run : List (Outside × Call) → Portal → Portal
  unfolding step
  run [] b = b
  run ((out, call) ∷ calls) b = run calls (step out call b)

  -- Whether the call takes a code of this phone number.
  unfoldable pub takes : Text → Outside → Call → Portal → Bool
  takes key out (requests phone) b = false
  takes key out (confirms phone otp) b =
      is_for key (find_by_phone db phone b) && passed (confirm_recovery db out phone otp b).0

  unfoldable pub taken : Text → List (Outside × Call) → Portal → ℕ
  unfolding step takes
  taken key [] b = 0
  taken key ((out, call) ∷ calls) b =
      (if takes key out call b then 1 else 0) + taken key calls (step out call b)

abbrev is_to : Text → OutgoingMessage → Bool
is_to key m = same m.phone_digits (remove_first b'+' key)

abbrev pub sent_to : Text → Portal → ℕ
sent_to key b = count_if (is_to key) b.messages

abbrev pub open_for : Text → Portal → ℕ
open_for key b = count_if (has_key key) b.challenges

count-set_challenge :
    (key k otp : Text) (until : ℕ) (cs : List OtpChallenge)
    → count_if (has_key key) (set_challenge k otp until cs)
      ≤ count_if (has_key key) cs + (if same k key then 1 else 0)
count-set_challenge key k otp until [] = ground arith
count-set_challenge key k otp until (c ∷ cs) =
    ground (arith, count-set_challenge key k otp until cs)

count-snoc :
    {A : Type 0} (p : A → Bool) (xs : List A) (x : A)
    → count_if p (xs ++ x ∷ []) ≡ count_if p xs + (if p x then 1 else 0)
count-snoc p [] x = ground arith
count-snoc p (y ∷ xs) x = ground (arith, count-snoc p xs x)

count-delete_challenge :
    (key k : Text) (cs : List OtpChallenge)
    → count_if (has_key key) (delete_challenge k cs) ≤ count_if (has_key key) cs
count-delete_challenge key k [] = omega arith
count-delete_challenge key k (c ∷ cs) = ground (arith, count-delete_challenge key k cs)

none_left :
    (key : Text) (cs : List OtpChallenge) → count_if (has_key key) (delete_challenge key cs) ≡ 0
none_left key [] = refl
none_left key (c ∷ cs) = ground (arith, none_left key cs)

some_there :
    (key otp : Text) (now : ℕ) (cs : List OtpChallenge)
    → is_right now otp (find (has_key key) cs) ≡ true
    → 1 ≤ count_if (has_key key) cs
some_there key otp now [] h = ground (arith, h)
some_there key otp now (c ∷ cs) h = ground (arith, h, some_there key otp now cs)

to_phone :
    (key k : Text) → same k key ≡ true → same (remove_first b'+' k) (remove_first b'+' key) ≡ true
to_phone key k h = rw (same_eq k key h) (same_refl (remove_first b'+' key))

send_code_lem :
    (key : Text) (out : Outside) (c : Customer) (b : Portal)
    → open_for key (send_code list_client out c b) + sent_to key b
      ≤ open_for key b + sent_to key (send_code list_client out c b)
send_code_lem key out c b = ground (
  arith,
  count-set_challenge key c.phone_number out.new_otp (out.now + otp_ttl_ms) b.challenges,
  count-snoc (is_to key) b.messages (recovery_message c out.new_otp),
  to_phone key c.phone_number,
)

request_lem :
    (key phone : Text) (out : Outside) (b : Portal)
    → open_for key (request_recovery list_client out phone b) + sent_to key b
      ≤ open_for key b + sent_to key (request_recovery list_client out phone b)
unfolding request_recovery
request_lem key phone out b = elim (Option-cases (find_by_phone list_client phone b)) [
  | inl unknown ↦ rw (request_recovery, unknown) (omega arith)
  | inr (c, known) ↦ elim (Option-cases (find_voucher list_client c b)) [
    | inl without ↦ rw (request_recovery, known, without) (omega arith)
    | inr (v, with) ↦
        let early =
          ltb (out.now - last_sent c.phone_number b.last_sent_at) otp_resend_cooldown_ms in
        elim (Bool-cases early) [
          | inl soon ↦ rw (request_recovery, known, with, soon) (omega arith)
          | inr later ↦ rw (request_recovery, known, with, later) (send_code_lem key out c b)
        ]
  ]
]

code_used :
    (key otp : Text) (out : Outside) (b : Portal) (c : Customer)
    → is_right out.now otp (find (has_key c.phone_number) b.challenges) ≡ true
    → (if same c.phone_number key then 1 else 0) + open_for key (after_code list_client c b)
      ≤ open_for key b
code_used key otp out b c right = elim (Bool-cases (same c.phone_number key)) [
  | inr other ↦ rw other (omega (arith, count-delete_challenge key c.phone_number b.challenges))
  | inl it ↦
      let e = same_eq c.phone_number key it in
      rw (it, e)
        (omega (
          arith,
          none_left key b.challenges,
          some_there key otp out.now b.challenges (rw e at right),
        ))
]

-- A call takes a code that was open, and one is opened with each message.
step_lem :
    (key : Text) (out : Outside) (call : Call) (b : Portal)
    → (if takes list_client key out call b then 1 else 0)
        + open_for key (step list_client out call b)
        + sent_to key b
      ≤ open_for key b + sent_to key (step list_client out call b)
unfolding step takes confirm_recovery
step_lem key out (requests phone) b = omega (arith, request_lem key phone out b)
step_lem key out (confirms phone otp) b = elim (Option-cases (find_by_phone list_client phone b)) [
  | inl unknown ↦ rw (takes, step, confirm_recovery, unknown) (omega arith)
  | inr (c, known) ↦
      elim (Bool-cases (is_right out.now otp (find (has_key c.phone_number) b.challenges))) [
        | inr wrong ↦ rw (takes, step, confirm_recovery, known, wrong) (ground arith)
        | inl right ↦
            rw (takes, step, confirm_recovery, known, right)
              (ground (arith, code_used key otp out b c right))
      ]
]

taken_lem :
    (key : Text) (calls : List (Outside × Call)) (b : Portal)
    → taken list_client key calls b + open_for key (run list_client calls b) + sent_to key b
      ≤ open_for key b + sent_to key (run list_client calls b)
unfolding run taken
taken_lem key [] b = omega arith
taken_lem key ((out, call) ∷ calls) b =
    omega (arith, step_lem key out call b, taken_lem key calls (step list_client out call b))

-- From a portal with no open code for a phone number, and with whatever requests and confirmations,
-- of any phones and codes and at any times, codes of that number are taken at most as often as messages
-- are sent to it.
pub taken-run :
    (db : Client)
    → IsPrisma db
    → (key : Text) (calls : List (Outside × Call)) (b : Portal) → open_for key b ≡ 0
    → taken db key calls b + sent_to key b ≤ sent_to key (run db calls b)
taken-run db lawful key calls b none_open =
    rw (client-eq db lawful) (omega (arith, taken_lem key calls b, none_open))
