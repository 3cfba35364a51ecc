-- ===== src/Agent/Dnsmasq.antt =====
-- apps/network-agent/src/dnsmasq.ts: the configuration that is written for dnsmasq, and the leases
-- that are read back. How a port is written, and where the log is, come from outside.
use mathlib.Core.List.{reverse}
use netcam.Agent.Config.{RouterVlanConfig}
use netcam.Agent.Leases.{Lease}
use netcam.Agent.Networks.{split, add_to_first}
use netcam.Prelude.Strings.{trim, is_space, upper}
use netcam.Prelude.{
  ℕ, Bool, false, not, Option, none, some, List, [], ◌∷◌, ◌++◌, map, Text, codes, take, same,
  is_empty, find, select, if◌then◌else◌, ◌||◌,
}

-- `parts.join(separator)`
abbrev pub join : Text → List Text → Text
join separator [] = []
join separator (s ∷ []) = s
join separator (s ∷ t ∷ ss) = s ++ separator ++ join separator (t ∷ ss)

-- `s.split(".").slice(0, 3).join(".") + "."`
unfoldable pub network_prefix : Text → Text
network_prefix ip = join (codes ".") (take 3 (split b'.' ip)) ++ codes "."

abbrev pub managed_by : Text
managed_by = codes "# Managed by @netcam/network-agent " ++ 8212 ∷ codes " do not edit by hand."

module _ (port_text : ℕ → Text) (dns_log_file : Text) where
  abbrev pub segment_lines : ℕ → RouterVlanConfig → List Text
  segment_lines portal_port r =
      (codes "interface=" ++ r.vlan_interface)
      ∷ (codes "dhcp-range=set:router-"
          ++ r.router_id
          ++ codes ","
          ++ r.prefix
          ++ codes "10,"
          ++ r.prefix
          ++ codes "250,255.255.255.0,12h")
      ∷ (codes "dhcp-option=tag:router-" ++ r.router_id ++ codes ",option:router," ++ r.gateway_ip)
      ∷ (codes "dhcp-option=tag:router-"
          ++ r.router_id
          ++ codes ",option:dns-server,"
          ++ r.gateway_ip)
      ∷ (codes "dhcp-option=tag:router-"
          ++ r.router_id
          ++ codes ",114,http://"
          ++ r.gateway_ip
          ++ codes ":"
          ++ port_text portal_port
          ++ codes "/")
      ∷ []
      ∷ []

  abbrev pub all_lines : ℕ → List RouterVlanConfig → List Text
  all_lines portal_port [] = []
  all_lines portal_port (r ∷ rs) = segment_lines portal_port r ++ all_lines portal_port rs

  unfoldable pub generate_dnsmasq_conf : List RouterVlanConfig → ℕ → Text
  generate_dnsmasq_conf router_vlans portal_port = join (10 ∷ []) (
      managed_by
      ∷ []
      ∷ codes "cache-size=10000"
      ∷ codes "log-queries=extra"
      ∷ (codes "log-facility=" ++ dns_log_file)
      ∷ codes "log-async=50"
      ∷ codes "bind-dynamic"
      ∷ codes "dhcp-authoritative"
      ∷ []
      ∷ all_lines portal_port router_vlans)

-- `line.split(/\s+/)`; the test says whether a separator came just before.
abbrev pub words : Bool → Text → List Text
words inside [] = [] ∷ []
words inside (c ∷ s) =
    let rest = words (is_space c) s in
    if is_space c then (if inside then rest else [] ∷ rest) else add_to_first c rest

-- The last segment with a prefix counts, as in a map.
abbrev pub router_of : List RouterVlanConfig → Text → Option Text
router_of vlans prefix = elim (find (λ r. same r.prefix prefix) (reverse vlans)) [
  | none ↦ none
  | some r ↦ some r.router_id
]

abbrev pub hostname_of : List Text → Option Text
hostname_of [] = none
hostname_of (h ∷ _) = if same h (codes "*") then none else some h

-- A line with fewer than three words has no address, and is left out.
abbrev pub lease_of : List RouterVlanConfig → List Text → List Lease
lease_of vlans (expiry ∷ mac ∷ ip ∷ rest) =
    if is_empty mac || is_empty ip
    then []
    else record {
      mac_address = upper mac;
      ip_address = ip;
      expiry = expiry;
      hostname = hostname_of rest;
      router_id = router_of vlans (network_prefix ip);
    }
      ∷ []
lease_of vlans _ = []

abbrev pub leases_of : List RouterVlanConfig → List Text → List Lease
leases_of vlans [] = []
leases_of vlans (line ∷ ls) = lease_of vlans (words false line) ++ leases_of vlans ls

-- The content of the file, if it can be read.
unfoldable pub read_leases : List RouterVlanConfig → Option Text → List Lease
read_leases router_vlans none = []
read_leases router_vlans (some content) =
    leases_of router_vlans (select (λ line. not (is_empty line)) (map trim (split 10 content)))
