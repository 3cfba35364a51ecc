-- ===== src/Agent/Config.antt =====
-- apps/network-agent/src/config.ts: the segments, one for each router. The text of the environment
-- is split before it comes here: an entry is its fields, trimmed, and a number is the digits'.
use netcam.Prelude.Strings.{starts_with}
use netcam.Prelude.{
  ℕ, Bool, Option, none, some, List, [], ◌∷◌, Text, same, is_empty, any, find, Result, ok, err,
  ◌==◌, if◌then◌else◌,
}

pub record RouterVlanConfig : Type 0 where
  pub parent_interface : Text
  pub vlan_id : Option ℕ
  pub subnet_id : ℕ
  pub router_id : Text
  pub vlan_interface : Text
  pub ifb_interface : Text
  -- the first three octets of `subnetCidr`, with their dots
  pub prefix : Text
  pub gateway_ip : Text

pub data ConfigError : Type 0 where
  repeated_interface repeated_subnet repeated_router : ConfigError

-- The sets of what was seen, in the loop of `parseRouterNetworks`.
abbrev pub repeats : Text → List Text → Bool
repeats s seen = any (same s) seen

-- The loop's checks; the networks themselves come out unchanged.
unfoldable pub check_networks :
    List Text → List ℕ → List Text → List RouterVlanConfig → Option ConfigError
check_networks ifaces subnets routers [] = none
check_networks ifaces subnets routers (n ∷ ns) =
    let rest =
      check_networks (n.vlan_interface ∷ ifaces) (n.subnet_id ∷ subnets) (n.router_id ∷ routers)
        ns in
    if repeats n.vlan_interface ifaces
    then some repeated_interface
    else if any (λ m. n.subnet_id == m) subnets
    then some repeated_subnet
    else if repeats n.router_id routers
    then some repeated_router
    else rest

unfoldable pub parse_router_networks :
    List RouterVlanConfig → Result ConfigError (List RouterVlanConfig)
unfolding check_networks
parse_router_networks networks = elim (check_networks [] [] [] networks) [
  | none ↦ ok networks
  | some e ↦ err e
]

abbrev pub ip_in_subnet : Text → RouterVlanConfig → Bool
ip_in_subnet ip network = starts_with network.prefix ip

-- `o ? f o : undefined`, where an empty text counts as missing.
abbrev pub with_text : Option Text → (Text → Option RouterVlanConfig) → Option RouterVlanConfig
with_text none f = none
with_text (some s) f = if is_empty s then none else f s

abbrev pub or_then : Option RouterVlanConfig → Option RouterVlanConfig → Option RouterVlanConfig
or_then none other = other
or_then (some r) other = some r

abbrev pub the_only : List RouterVlanConfig → Option RouterVlanConfig
the_only (r ∷ []) = some r
the_only _ = none

unfoldable pub find_router :
    List RouterVlanConfig → Option Text → Option Text → Option RouterVlanConfig
find_router networks router_id ip_address =
    or_then (with_text router_id (λ id. find (λ r. same r.router_id id) networks))
      (or_then (with_text ip_address (λ ip. find (ip_in_subnet ip) networks)) (the_only networks))
