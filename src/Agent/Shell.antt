-- ===== src/Agent/Shell.antt =====
-- apps/network-agent/src/shell.ts: the tests on what reaches a command line.
use netcam.Prelude.Strings.{is_digit, upper}
use netcam.Prelude.{
  ℕ, zero, suc, Bool, false, ◌&&◌, ◌||◌, Option, none, some, [], ◌∷◌, Text, length, all, leb, ◌==◌,
  if◌then◌else◌,
}

abbrev is_hex : ℕ → Bool
is_hex c = is_digit c || leb b'A' c && leb c b'F' || leb b'a' c && leb c b'f'

-- The rest of an address with this many pairs after the next one.
abbrev is_mac_tail : ℕ → Text → Bool
is_mac_tail zero (a ∷ b ∷ []) = is_hex a && is_hex b
is_mac_tail (suc n) (a ∷ b ∷ c ∷ s) = is_hex a && is_hex b && c == b':' && is_mac_tail n s
is_mac_tail _ _ = false

-- `MAC_REGEX`
unfoldable pub is_mac : Text → Bool
is_mac s = is_mac_tail 5 s

abbrev is_iface_code : ℕ → Bool
is_iface_code c =
    is_digit c
    || leb b'A' c && leb c b'Z'
    || leb b'a' c && leb c b'z'
    || c == b'_'
    || c == b'.'
    || c == b'-'

-- `IFACE_REGEX`
unfoldable pub is_interface : Text → Bool
is_interface s = all is_iface_code s && leb 1 (length s) && leb (length s) 15

-- `assertValidMac`, without its throw
abbrev pub valid_mac : Text → Option Text
valid_mac s = if is_mac s then some (upper s) else none
