-- ===== src/Agent/Networks.antt =====
-- apps/network-agent/src/config.ts: the segments as the environment writes them. `Number` and the text
-- of a number come from outside: `read` gives the whole number at 0 or above that a text stands for.
use netcam.Agent.Config.{RouterVlanConfig, ConfigError, parse_router_networks}
use netcam.Prelude.Strings.{trim, is_digit}
use netcam.Prelude.{
  ℕ, zero, suc, Bool, false, ◌&&◌, ◌||◌, not, Option, none, some, List, [], ◌∷◌, ◌++◌, map, Text,
  codes, is_empty, length, all, select, Result, ok, err, leb, ◌==◌, if◌then◌else◌, or_default,
  or_else,
}

pub record Numerals : Type 0 where
  pub read : Text → Option ℕ
  pub show : ℕ → Text

pub data ParseError : Type 0 where
  bad_vlan_entry bad_lan_entry bad_subnet bad_base : ParseError
  bad_networks : ConfigError → ParseError

abbrev pub add_to_first : ℕ → List Text → List Text
add_to_first c [] = (c ∷ []) ∷ []
add_to_first c (s ∷ ss) = (c ∷ s) ∷ ss

-- `s.split(c)`
abbrev pub split : ℕ → Text → List Text
split c [] = [] ∷ []
split c (d ∷ s) = let rest = split c s in if d == c then [] ∷ rest else add_to_first d rest

abbrev pub nth : ℕ → List Text → Option Text
nth n [] = none
nth zero (s ∷ ss) = some s
nth (suc n) (s ∷ ss) = nth n ss

-- `raw.split(",").map(trim).filter(Boolean)`
abbrev pub entries_of : Text → List Text
entries_of raw = select (λ s. not (is_empty s)) (map trim (split b',' raw))

abbrev pub is_within : ℕ → ℕ → Option ℕ → Bool
is_within lo hi none = false
is_within lo hi (some n) = leb lo n && leb n hi

-- The results of `f`, up to the first error.
abbrev pub all_ok :
    {A : Type 0} → (Text → Result ParseError A) → List Text → Result ParseError (List A)
all_ok f [] = ok []
all_ok f (s ∷ ss) =
    let rest = all_ok f ss in
    elim (f s) [ err e ↦ err e | ok a ↦ elim rest [ err e ↦ err e | ok rows ↦ ok (a ∷ rows) ] ]

-- One to three digits.
abbrev is_octet : Text → Bool
is_octet s = all is_digit s && leb 1 (length s) && leb (length s) 3

abbrev pub is_pool_base : Text → Bool
is_pool_base s = elim (split b'.' s) [ a ∷ b ∷ [] ↦ is_octet a && is_octet b | _ ↦ false ]

module _ (numbers : Numerals) (base : Text) where
  abbrev pub read_field : Option Text → Option ℕ
  read_field none = none
  read_field (some s) = numbers.read s

  unfoldable pub assert_subnet_id : Option Text → Result ParseError ℕ
  assert_subnet_id field = elim (read_field field) [
    | none ↦ err bad_subnet
    | some n ↦ if leb 1 n && leb n 254 then ok n else err bad_subnet
  ]

  abbrev pub prefix_of : ℕ → Text
  prefix_of subnet = base ++ b'.' ∷ numbers.show subnet ++ b'.' ∷ []

  abbrev pub vlan_config : Text → ℕ → Text → ℕ → RouterVlanConfig
  vlan_config parent vlan router subnet = record {
    parent_interface = parent;
    vlan_id = some vlan;
    subnet_id = subnet;
    router_id = router;
    vlan_interface = parent ++ b'.' ∷ numbers.show vlan;
    ifb_interface = codes "ifb-v" ++ numbers.show vlan;
    prefix = prefix_of subnet;
    gateway_ip = prefix_of subnet ++ codes "1";
  }

  abbrev pub lan_config : Text → Text → ℕ → RouterVlanConfig
  lan_config parent router subnet = record {
    parent_interface = parent;
    vlan_id = none;
    subnet_id = subnet;
    router_id = router;
    vlan_interface = parent;
    ifb_interface = codes "ifb-l" ++ numbers.show subnet;
    prefix = prefix_of subnet;
    gateway_ip = prefix_of subnet ++ codes "1";
  }

  unfoldable pub parse_vlan_fields : List Text → Result ParseError RouterVlanConfig
  unfolding assert_subnet_id
  parse_vlan_fields fields =
      let parent = or_default (nth 0 fields) [] in
      let vlan = read_field (nth 1 fields) in
      let router = or_default (nth 2 fields) [] in
      let subnet = or_else (nth 3 fields) (nth 1 fields) in
      if is_empty parent || not (is_within 1 4094 vlan) || is_empty router
      then err bad_vlan_entry
      else elim (assert_subnet_id subnet) [
        | err e ↦ err e
        | ok n ↦ ok (vlan_config parent (or_default vlan 0) router n)
      ]

  abbrev pub parse_vlan_entry : Text → Result ParseError RouterVlanConfig
  parse_vlan_entry entry = parse_vlan_fields (split b':' entry)

  unfoldable pub parse_lan_entry : Text → Result ParseError RouterVlanConfig
  unfolding assert_subnet_id
  parse_lan_entry entry =
      let fields = split b':' entry in
      let parent = or_default (nth 0 fields) [] in
      let router = or_default (nth 2 fields) [] in
      if is_empty parent || is_empty router
      then err bad_lan_entry
      else elim (assert_subnet_id (nth 1 fields)) [
        | err e ↦ err e
        | ok n ↦ ok (lan_config parent router n)
      ]

  unfoldable pub parse_router_vlans : Text → Result ParseError (List RouterVlanConfig)
  unfolding parse_vlan_fields
  parse_router_vlans raw =
      if is_empty (trim raw) then ok [] else all_ok parse_vlan_entry (entries_of raw)

  unfoldable pub parse_router_lans : Text → Result ParseError (List RouterVlanConfig)
  unfolding parse_lan_entry
  parse_router_lans raw =
      if is_empty (trim raw) then ok [] else all_ok parse_lan_entry (entries_of raw)

  abbrev checked : List RouterVlanConfig → Result ParseError (List RouterVlanConfig)
  checked networks = elim (parse_router_networks networks) [
    | err e ↦ err (bad_networks e)
    | ok ns ↦ ok ns
  ]

  -- `parseRouterNetworks`, from the text of `ROUTER_VLANS` and of `ROUTER_LANS`.
  unfoldable pub read_networks : Text → Text → Result ParseError (List RouterVlanConfig)
  unfolding parse_router_vlans parse_router_lans parse_router_networks
  read_networks vlans lans =
      if not (is_pool_base base) then err bad_base else elim (parse_router_vlans vlans) [
        | err e ↦ err e
        | ok ns ↦ elim (parse_router_lans lans) [ err e ↦ err e | ok ms ↦ checked (ns ++ ms) ]
      ]
