-- ===== src/Agent/Garden.antt =====
-- The walled garden: what the chains do with a packet. A chain is read as nft documents it: the
-- first rule that matches and has a verdict decides, and the chain's policy otherwise.
use netcam.Prelude.{
  ◌≡◌, refl, ap, Bool, true, false, ◌&&◌, ◌||◌, not, List, [], ◌∷◌, arith, Text, codes, same, any,
  if◌then◌else◌, inl, inr, Bool-cases,
}
use netcam.Agent.Config.{RouterVlanConfig}
use netcam.Agent.Ruleset.{
  Rule, accepts, drops, forward_rules, services, input_rules, accept_authorized, drop_from,
  accept_established, drop_control, accept_udp_services, accept_tcp, to_portal, masquerade,
}

pub data Verdict : Type 0 where
  accept drop redirect : Verdict

pub data Protocol : Type 0 where
  tcp udp other : Protocol

pub record Packet : Type 0 where
  pub iif : Text
  pub oif : Text
  pub is_authorized : Bool
  pub is_established : Bool
  pub protocol : Protocol
  pub dport : Text

abbrev is_tcp : Protocol → Bool
is_tcp tcp = true
is_tcp _ = false

abbrev is_udp : Protocol → Bool
is_udp udp = true
is_udp _ = false

abbrev pub matches : Rule → Packet → Bool
matches (accept_authorized iface wan) p = same iface p.iif && same wan p.oif && p.is_authorized
matches (drop_from iface) p = same iface p.iif
matches accept_established p = p.is_established
matches (drop_control iface port) p = same iface p.iif && is_tcp p.protocol && same port p.dport
matches (accept_udp_services iface) p =
    same iface p.iif
    && is_udp p.protocol
    && (same (codes "53") p.dport || same (codes "67") p.dport)
matches (accept_tcp iface port) p = same iface p.iif && is_tcp p.protocol && same port p.dport
matches (to_portal iface gateway port) p =
    same iface p.iif && is_tcp p.protocol && same (codes "80") p.dport && not p.is_authorized
matches (masquerade wan) p = same wan p.oif

abbrev pub verdict_of : Rule → Verdict
verdict_of (drop_from iface) = drop
verdict_of (drop_control iface port) = drop
verdict_of (to_portal iface gateway port) = redirect
verdict_of _ = accept

unfoldable pub decide : List Rule → Packet → Verdict
decide [] p = accept
decide (r ∷ rs) p = let rest = decide rs p in if matches r p then verdict_of r else rest

-- The packet comes from one of the routers' interfaces.
abbrev pub is_client : List RouterVlanConfig → Packet → Bool
is_client routers p = any (λ r. same r.vlan_interface p.iif) routers

decide-accepts :
    (wan : Text) (routers : List RouterVlanConfig) (rest : List Rule) (p : Packet)
    → decide (accepts wan routers rest) p
      ≡ (if is_client routers p && same wan p.oif && p.is_authorized then accept else decide rest p)
unfolding decide
decide-accepts wan [] rest p = refl
decide-accepts wan (r ∷ rs) rest p = ground (arith, decide-accepts wan rs rest p)

decide-drops :
    (routers : List RouterVlanConfig) (rest : List Rule) (p : Packet)
    → decide (drops routers rest) p ≡ (if is_client routers p then drop else decide rest p)
unfolding decide
decide-drops [] rest p = refl
decide-drops (r ∷ rs) rest p = ground (arith, decide-drops rs rest p)

-- A client's packet is forwarded exactly when it goes to the uplink from an authorized MAC, also
-- on a connection that is already open; other traffic is not touched.
pub decide-forward_rules :
    (wan : Text) (routers : List RouterVlanConfig) (p : Packet)
    → decide (forward_rules wan routers) p
      ≡ (if is_client routers p && not (same wan p.oif && p.is_authorized) then drop else accept)
unfolding decide forward_rules
decide-forward_rules wan routers p = ground (
  arith,
  decide-accepts wan routers (drops routers (accept_established ∷ [])) p,
  decide-drops routers (accept_established ∷ []) p,
)

services-drop :
    (portal control : Text) (routers : List RouterVlanConfig) (p : Packet)
    → is_client routers p ≡ true
    → is_tcp p.protocol ≡ true
    → same control p.dport ≡ true
    → decide (services portal control routers) p ≡ drop
unfolding decide
services-drop portal control [] p client t c = ground arith
services-drop portal control (r ∷ rs) p client t c = elim (Bool-cases (is_client rs p)) [
  | inl later ↦ ground (arith, client, t, c, services-drop portal control rs p later t c)
  | inr here ↦ ground (arith, client, t, c, here)
]

-- A client cannot open a connection to the agent's control port, whatever the ports are.
pub decide-control_port :
    (portal control : Text) (routers : List RouterVlanConfig) (p : Packet)
    → is_client routers p ≡ true
    → p.is_established ≡ false
    → p.protocol ≡ tcp
    → same control p.dport ≡ true
    → decide (input_rules portal control routers) p ≡ drop
unfolding decide input_rules
decide-control_port portal control routers p client new t c =
    ground (arith, new, services-drop portal control routers p client (ap is_tcp t) c)
