-- ===== src/Agent/Ruleset.antt =====
-- apps/network-agent/src/nft.ts: the firewall. A rule is printed as the line that the source
-- pushes. Ports are text here, since they are only printed and compared.
use netcam.Agent.Config.{RouterVlanConfig}
use netcam.Prelude.{ℕ, max, List, [], ◌∷◌, ◌++◌, map, Text, codes}

pub data Rule : Type 0 where
  accept_authorized : (iface wan : Text) → Rule
  drop_from : (iface : Text) → Rule
  accept_established : Rule
  drop_control : (iface port : Text) → Rule
  accept_udp_services : (iface : Text) → Rule
  accept_tcp : (iface port : Text) → Rule
  to_portal : (iface gateway port : Text) → Rule
  masquerade : (wan : Text) → Rule

abbrev from : Text → Text
from iface = codes "    iifname \"" ++ iface ++ codes "\""

unfoldable pub print_rule : Rule → Text
print_rule (accept_authorized iface wan) =
    from iface ++ codes " oifname \"" ++ wan ++ codes "\" ether saddr @authorized_macs accept"
print_rule (drop_from iface) = from iface ++ codes " drop"
print_rule accept_established = codes "    ct state established,related accept"
print_rule (drop_control iface port) = from iface ++ codes " tcp dport " ++ port ++ codes " drop"
print_rule (accept_udp_services iface) = from iface ++ codes " udp dport { 53, 67 } accept"
print_rule (accept_tcp iface port) = from iface ++ codes " tcp dport " ++ port ++ codes " accept"
print_rule (to_portal iface gateway port) =
    from iface
    ++ codes " tcp dport 80 ether saddr != @authorized_macs dnat ip to "
    ++ gateway
    ++ codes ":"
    ++ port
print_rule (masquerade wan) = codes "    oifname \"" ++ wan ++ codes "\" masquerade"

abbrev pub accepts : Text → List RouterVlanConfig → List Rule → List Rule
accepts wan [] rest = rest
accepts wan (r ∷ rs) rest = accept_authorized r.vlan_interface wan ∷ accepts wan rs rest

abbrev pub drops : List RouterVlanConfig → List Rule → List Rule
drops [] rest = rest
drops (r ∷ rs) rest = drop_from r.vlan_interface ∷ drops rs rest

-- The chain `forward`: the clients' rules come before the shortcut for established connections.
unfoldable pub forward_rules : Text → List RouterVlanConfig → List Rule
forward_rules wan routers = accepts wan routers (drops routers (accept_established ∷ []))

abbrev pub services : Text → Text → List RouterVlanConfig → List Rule
services portal control [] = []
services portal control (r ∷ rs) =
    drop_control r.vlan_interface control
    ∷ accept_udp_services r.vlan_interface
    ∷ accept_tcp r.vlan_interface (codes "53")
    ∷ accept_tcp r.vlan_interface portal
    ∷ services portal control rs

unfoldable pub input_rules : Text → Text → List RouterVlanConfig → List Rule
input_rules portal control routers = accept_established ∷ services portal control routers

unfoldable pub prerouting_rules : Text → List RouterVlanConfig → List Rule
prerouting_rules portal [] = []
prerouting_rules portal (r ∷ rs) =
    to_portal r.vlan_interface r.gateway_ip portal ∷ prerouting_rules portal rs

abbrev chain : Text → Text → List Rule → List Text
chain name hook rules =
    (codes "  chain " ++ name ++ codes " {")
      ∷ (codes "    type " ++ hook ++ codes "; policy accept;")
      ∷ map print_rule rules
    ++ codes "  }" ∷ []

abbrev unlines : List Text → Text
unlines [] = []
unlines (l ∷ ls) = l ++ 10 ∷ unlines ls

unfoldable pub generate_ruleset : Text → List RouterVlanConfig → (portal control : Text) → Text
unfolding forward_rules input_rules prerouting_rules print_rule
generate_ruleset wan routers portal control = unlines (
    codes "table inet netcam"
      ∷ codes "delete table inet netcam"
      ∷ codes "table inet netcam {"
      ∷ codes "  set authorized_macs {"
      ∷ codes "    type ether_addr"
      ∷ codes "    flags dynamic,timeout"
      ∷ codes "  }"
      ∷ []
      ∷ chain (codes "forward") (codes "filter hook forward priority filter")
          (forward_rules wan routers)
    ++ []
      ∷ chain (codes "input") (codes "filter hook input priority filter")
          (input_rules portal control routers)
    ++ []
      ∷ chain (codes "prerouting") (codes "nat hook prerouting priority dstnat")
          (prerouting_rules portal routers)
    ++ []
      ∷ chain (codes "postrouting") (codes "nat hook postrouting priority srcnat")
          (masquerade wan ∷ [])
    ++ codes "}" ∷ [])

-- `admitMac`: the seconds of an element's timeout
abbrev pub timeout_of : ℕ → ℕ
timeout_of seconds = max 1 seconds
