-- ===== src/Agent/NetworkTests.antt =====
-- The segments of the configuration, read from concrete texts.
use netcam.Agent.Config.{RouterVlanConfig, parse_router_networks, check_networks, repeated_subnet}
use netcam.Agent.Networks.{
  Numerals, ParseError, read_networks, parse_router_vlans, parse_vlan_fields, parse_router_lans,
  parse_lan_entry, assert_subnet_id, bad_subnet, bad_networks,
}
use netcam.Agent.Written.{
  Spec, IsWritable, IsNumerals, written, spec_config, parse_router_vlans-written,
}
use netcam.Prelude.Strings.{trim, is_digit}
use netcam.Prelude.{
  ℕ, ◌+◌, ◌-◌, ◌*◌, ◌/◌, ◌%◌, ◌≡◌, ◌≤◌, refl, ap, ◌∙◌, inl, inr, Bool-cases, true, none, some, List,
  [], ◌∷◌, map, arith, Text, codes, all, Result, ok, err, ◌==◌, if◌then◌else◌,
}

-- Numbers of at most four digits.
abbrev digit : ℕ → ℕ
digit n = b'0' + n % 10

abbrev drop_zeros : Text → Text
drop_zeros [] = []
drop_zeros (c ∷ []) = c ∷ []
drop_zeros (c ∷ d ∷ s) = let rest = drop_zeros (d ∷ s) in if c == b'0' then rest else c ∷ d ∷ s

abbrev value : ℕ → Text → ℕ
value n [] = n
value n (c ∷ s) = value (n * 10 + (c - b'0')) s

abbrev four_digits : ℕ → Text
four_digits n = digit (n / 1000) ∷ digit (n / 100) ∷ digit (n / 10) ∷ digit n ∷ []

abbrev decimals : Numerals
decimals = record {
  read = λ s. if all is_digit s then some (value 0 s) else none;
  show = λ n. drop_zeros (four_digits n);
}

abbrev subnets : List RouterVlanConfig → List ℕ
subnets = map (λ n. n.subnet_id)

abbrev read_subnets : Result ParseError (List RouterVlanConfig) → List ℕ
read_subnets (ok ns) = subnets ns
read_subnets (err e) = []

vlans_and_lans :
    read_subnets (
      read_networks decimals
        (codes "10.50")
        (codes " eth0:10:r1, eth0:300:r2:20,")
        (codes "eth1:30:r3"))
    ≡ 10 ∷ 20 ∷ 30 ∷ []
unfolding read_networks parse_router_vlans parse_vlan_fields parse_router_lans parse_lan_entry
    assert_subnet_id parse_router_networks check_networks trim
vlans_and_lans = refl

vlan_is_no_subnet : read_networks decimals (codes "10.50") (codes "eth0:300:r2") [] ≡ err bad_subnet
unfolding read_networks parse_router_vlans parse_vlan_fields assert_subnet_id trim
vlan_is_no_subnet = refl

subnet_is_used_once :
    read_networks decimals (codes "10.50") (codes "eth0:10:r1") (codes "eth1:10:r2")
    ≡ err (bad_networks repeated_subnet)
unfolding read_networks parse_router_vlans parse_vlan_fields parse_router_lans parse_lan_entry
    assert_subnet_id parse_router_networks check_networks trim
subnet_is_used_once = refl

digit-is_digit : (n : ℕ) → is_digit (digit n) ≡ true
digit-is_digit n = ground arith

all_digits-drop_zeros : (s : Text) → all is_digit s ≡ true → all is_digit (drop_zeros s) ≡ true
all_digits-drop_zeros [] h = refl
all_digits-drop_zeros (c ∷ []) h = h
all_digits-drop_zeros (c ∷ d ∷ s) h = ground (arith, h, all_digits-drop_zeros (d ∷ s))

value-drop_zeros : (s : Text) → value 0 (drop_zeros s) ≡ value 0 s
value-drop_zeros [] = refl
value-drop_zeros (c ∷ []) = refl
value-drop_zeros (c ∷ d ∷ s) = elim (Bool-cases (c == b'0')) [
  | inl nothing ↦
      let is_zero : c ≡ b'0' = ground (arith, nothing) in rw is_zero (value-drop_zeros (d ∷ s))
  | inr some_digit ↦ rw some_digit refl
]

digits-decimals : (n : ℕ) → all is_digit (decimals.show n) ≡ true
digits-decimals n = all_digits-drop_zeros (four_digits n) (
    ground (
      arith,
      digit-is_digit (n / 1000),
      digit-is_digit (n / 100),
      digit-is_digit (n / 10),
      digit-is_digit n,
    ))

value-four_digits : (n : ℕ) → n ≤ 4094 → value 0 (four_digits n) ≡ n
value-four_digits n h = omega arith

reads-decimals : (n : ℕ) → n ≤ 4094 → decimals.read (decimals.show n) ≡ some n
reads-decimals n h =
    rw (digits-decimals n) (ap some (value-drop_zeros (four_digits n) ∙ value-four_digits n h))

decimals-IsNumerals : IsNumerals decimals
decimals-IsNumerals = record { reads = reads-decimals; digits = λ n h. digits-decimals n }

abbrev lobby : Spec
lobby = record { parent = codes "eth0"; vlan = 10; router = codes "r1"; subnet = 20 }

lobby-IsWritable : IsWritable lobby
lobby-IsWritable = record {
  parent = refl;
  router = refl;
  vlan = (omega arith, omega arith);
  subnet = (omega arith, omega arith);
}

parse_router_vlans-written_example :
    parse_router_vlans decimals (codes "10.50") (written decimals (codes "10.50") (lobby ∷ []))
    ≡ ok (map (spec_config decimals (codes "10.50")) (lobby ∷ []))
parse_router_vlans-written_example =
    parse_router_vlans-written decimals decimals-IsNumerals (codes "10.50") (lobby ∷ [])
      (lobby-IsWritable, tt)
