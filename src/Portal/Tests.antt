-- ===== src/Portal/Tests.antt =====
-- Tests and examples on a concrete customer.
use netcam.Database.{list_client, list_client-IsPrisma}
use netcam.Phone.{normalize_phone}
use netcam.Vouchers.{active}
use netcam.Portal.Codes.{Call, requests, confirms, run, taken, sent_to, taken-run, step, takes}
use netcam.Prelude.{ℕ, ◌+◌, ◌*◌, ◌≤◌, ◌≡◌, refl, none, List, [], ◌∷◌, Text, codes, length, err}
use netcam.Portal.{
  Customer, Voucher, Portal, Outside, find_by_phone, find_voucher, request_recovery,
  confirm_recovery, bad_code,
}

abbrev mary : Customer
mary = record { id = codes "c1"; phone_number = codes "+256770000000"; name = none }

abbrev pass : Voucher
pass = record {
  customer_id = codes "c1";
  code = codes "ABC";
  package_name = codes "Day";
  status = active;
  created_at = 5;
  expires_at = none;
}

abbrev portal : Portal
portal = record {
  customers = mary ∷ [];
  vouchers = pass ∷ [];
  challenges = [];
  last_sent_at = [];
  messages = [];
}

abbrev at : ℕ → Outside
at seconds = record { now = 1000000 + seconds * 1000; new_otp = codes "123456" }

abbrev phone : Text
phone = codes "0770000000"

abbrev calls : List (Outside × Call)
calls =
    (at 0, requests phone)
    ∷ (at 10, requests phone)
    ∷ (at 20, confirms phone (codes "999999"))
    ∷ (at 30, confirms phone (codes "123456"))
    ∷ (at 31, confirms phone (codes "123456"))
    ∷ []

one_message : length (run list_client calls portal).messages ≡ 1
unfolding run step request_recovery confirm_recovery find_by_phone find_voucher normalize_phone
one_message = refl

one_code : taken list_client mary.phone_number calls portal ≡ 1
unfolding taken step takes request_recovery confirm_recovery find_by_phone find_voucher
    normalize_phone
one_code = refl

code_ends_after_five_minutes :
    (confirm_recovery list_client
      (at 301)
      phone
      (codes "123456")
      (request_recovery list_client (at 0) phone portal)).0
    ≡ err bad_code
unfolding request_recovery confirm_recovery find_by_phone find_voucher normalize_phone
code_ends_after_five_minutes = refl

taken-run_example :
    taken list_client mary.phone_number calls portal + sent_to mary.phone_number portal
    ≤ sent_to mary.phone_number (run list_client calls portal)
taken-run_example = taken-run list_client list_client-IsPrisma mary.phone_number calls portal refl
