-- ===== src/Phone/Tests.antt =====
-- Phone numbers at concrete inputs.
use netcam.Prelude.{◌≡◌, refl, true, ◌++◌, codes}
use netcam.Phone.{plus, country, normalize_phone, is_msisdn, is_ugandan, msisdn_digits}
use netcam.Phone.Laws.{normalize_phone_idempotent, normalize_phone_forms, msisdn_digits-is_msisdn}

normalize_test : normalize_phone (codes "+256 772-123456") ≡ codes "+256772123456"
unfolding normalize_phone
normalize_test = refl

normalize_phone_idempotent_example :
    normalize_phone (normalize_phone (codes "0772123456")) ≡ normalize_phone (codes "0772123456")
unfolding normalize_phone is_ugandan
normalize_phone_idempotent_example = normalize_phone_idempotent (codes "0772123456") refl

normalize_phone_forms_example :
    let stored = plus (country ++ codes "772123456") in
    (normalize_phone (codes "0772123456") ≡ stored)
    × (normalize_phone (country ++ codes "772123456") ≡ stored)
    × (normalize_phone stored ≡ stored)
    × (normalize_phone (codes "772123456") ≡ stored)
    × (is_ugandan stored ≡ true)
normalize_phone_forms_example = normalize_phone_forms (codes "72123456") refl refl

msisdn_digits-is_msisdn_example : is_msisdn (msisdn_digits (codes "+256772123456")) ≡ true
unfolding is_ugandan
msisdn_digits-is_msisdn_example = msisdn_digits-is_msisdn (codes "+256772123456") refl
