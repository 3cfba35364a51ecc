-- ===== src/Phone.antt =====
-- `normalizePhone` of apps/api/src/customers/customers.service.ts, and the tests on its result.
pub mod Laws
mod Tests
use netcam.Prelude.{
  ℕ, Bool, true, false, ◌&&◌, List, [], ◌∷◌, ◌++◌, length, select, ◌==◌, if◌then◌else◌, all, Text,
  codes,
}
use netcam.Prelude.Strings.{starts_with, is_digit, remove_first}
use mathlib.Core.List.{tail}

-- `+256`
abbrev pub plus : Text → Text
plus digits = b'+' ∷ digits

abbrev pub country : Text
country = b'2' ∷ b'5' ∷ b'6' ∷ []

pub with_country : Text → Text
with_country digits =
    if starts_with country digits
    then plus digits
    else if starts_with (b'0' ∷ []) digits
    then plus (country ++ tail digits)
    else if starts_with (b'7' ∷ []) digits && length digits == 9
    then plus (country ++ digits)
    else plus digits

unfoldable pub normalize_phone : Text → Text
unfolding with_country
normalize_phone raw = with_country (select is_digit raw)

-- `/^256\d{9}$/`
unfoldable pub is_msisdn : Text → Bool
is_msisdn digits = starts_with country digits && all is_digit digits && length digits == 12

-- `/^\+256\d{9}$/`
unfoldable pub is_ugandan : Text → Bool
is_ugandan phone =
    starts_with (b'+' ∷ country) phone && all is_digit (tail phone) && length phone == 13

-- `phoneNumber.replace("+", "")`
abbrev pub msisdn_digits : Text → Text
msisdn_digits = remove_first b'+'
