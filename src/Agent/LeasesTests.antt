-- ===== src/Agent/LeasesTests.antt =====
-- Scans of the leases, the lease file and the configuration of dnsmasq, on concrete values.
use netcam.Agent.Config.{RouterVlanConfig}
use netcam.Agent.Dnsmasq.{read_leases, network_prefix, generate_dnsmasq_conf, join, managed_by}
use netcam.Prelude.Strings.{trim}
use netcam.Agent.Leases.{Lease, Watcher, Scan, scan, scan_lease}
use netcam.Prelude.{
  ℕ, ◌+◌, ◌≡◌, refl, Bool, true, false, none, some, List, [], ◌∷◌, codes, length, ◌*◌, ◌++◌, Text,
}

abbrev lease : Lease
lease = record {
  mac_address = codes "AA:BB:CC:DD:EE:01";
  ip_address = codes "10.50.10.7";
  expiry = codes "1700000000";
  hostname = none;
  router_id = some (codes "r1");
}

abbrev at : ℕ → Bool → Scan
at minutes failing = record {
  now = 600000 + minutes * 60000;
  free_launch = false;
  is_admitted = λ mac. false;
  fails = λ mac. failing;
}

abbrev after : List Scan → Watcher → ℕ
after [] b = length b.asked
after (s ∷ scans) b = after scans (scan s (lease ∷ []) b)

abbrev fresh : Watcher
fresh = record { last_checked = []; asked = [] }

asked_once : after (at 0 false ∷ at 1 false ∷ at 4 false ∷ []) fresh ≡ 1
unfolding scan scan_lease
asked_once = refl

asked_again : after (at 0 false ∷ at 5 false ∷ []) fresh ≡ 2
unfolding scan scan_lease
asked_again = refl

asked_after_a_failure : after (at 0 true ∷ at 1 false ∷ []) fresh ≡ 2
unfolding scan scan_lease
asked_after_a_failure = refl

abbrev network : RouterVlanConfig
network = record {
  parent_interface = codes "eth0";
  vlan_id = none;
  subnet_id = 10;
  router_id = codes "r1";
  vlan_interface = codes "eth0";
  ifb_interface = codes "ifb-v10";
  prefix = codes "10.50.10.";
  gateway_ip = codes "10.50.10.1";
}

abbrev lease_file : Text
lease_file =
    codes "1700000000 aa:bb:cc:dd:ee:01 10.50.10.7  * 01:aa" ++ 10 ∷ codes "duid x" ++ 10 ∷ []

one_lease : read_leases (network ∷ []) (some lease_file) ≡ lease ∷ []
unfolding read_leases network_prefix trim
one_lease = refl

no_file : read_leases (network ∷ []) none ≡ []
unfolding read_leases
no_file = refl

without_segments :
    generate_dnsmasq_conf (λ n. codes "80") (codes "log") [] 80
    ≡ join (10 ∷ []) (
        managed_by
        ∷ []
        ∷ codes "cache-size=10000"
        ∷ codes "log-queries=extra"
        ∷ codes "log-facility=log"
        ∷ codes "log-async=50"
        ∷ codes "bind-dynamic"
        ∷ codes "dhcp-authoritative"
        ∷ []
        ∷ [])
unfolding generate_dnsmasq_conf
without_segments = refl
