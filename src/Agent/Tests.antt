-- ===== src/Agent/Tests.antt =====
-- Runs of the network agent, and instances of its theorems.
use netcam.Agent.Config.{RouterVlanConfig, parse_router_networks}
use netcam.Agent.Segments.{parse_router_networks_unique, on_interface, on_subnet, for_router}
use netcam.Agent.Shaping.{
  Command, Link, begin_removal, end_removal, apply_shaping_for_mac, allocate_minor,
  upsert_class_and_filter, perform,
}
use netcam.Agent.Shell.{is_mac, is_interface}
use netcam.Agent.Events.{Event, apply, begin, finish, step, run, idle, take_out}
use netcam.Agent.Overlaps.{holders-run}
use netcam.Agent.Minors.{holders}
use netcam.Agent.Ruleset.{forward_rules, input_rules}
use netcam.Agent.Health.{Reading, check_all, booted}
use netcam.Agent.Outages.{IsPaired, check_all_pairs}
use netcam.Agent.DnsLog.{
  LogLine, Catalog, DnsLog, app_of, classify_domain, parse_dns_log_line, app_for_destination,
}
use netcam.Agent.Lookups.{
  IsBounded, feed, quiet, quiet_log_kept_small, app_for_destination-parse_dns_log_line,
}
use netcam.Agent.Garden.{Packet, tcp, decide, drop, decide-forward_rules, decide-control_port}
use netcam.Prelude.{
  ℕ, ◌≤◌, ◌≡◌, refl, ◌≢◌, Bool, true, false, some, List, [], ◌∷◌, Text, codes, none, arith,
}

abbrev segment : ℕ → Text → RouterVlanConfig
segment n iface = record {
  parent_interface = codes "eth0";
  vlan_id = some n;
  subnet_id = n;
  router_id = iface;
  vlan_interface = iface;
  ifb_interface = codes "ifb-v10";
  prefix = codes "10.50.10.";
  gateway_ip = codes "10.50.10.1";
}

abbrev two_segments : List RouterVlanConfig
two_segments = segment 10 (codes "eth0.10") ∷ segment 20 (codes "eth0.20") ∷ []

parse_router_networks_unique_example :
    (two_segments ≡ two_segments)
    × (on_interface (codes "eth0.10") two_segments ≤ 1)
    × (on_subnet 10 two_segments ≤ 1)
    × (for_router (codes "eth0.10") two_segments ≤ 1)
unfolding parse_router_networks
parse_router_networks_unique_example =
    parse_router_networks_unique two_segments two_segments (codes "eth0.10") (codes "eth0.10") 10
      refl

abbrev link : Link
link = record { vlan_interface = codes "eth0.10"; ifb_interface = codes "ifb-v10" }

abbrev no_failure : Command → Bool
no_failure c = false

-- Two removals overlap with each other and with the set-up of a third device.
abbrev shapes : List ((Command → Bool) × Event)
shapes =
    (no_failure, apply link (codes "aa:bb:cc:dd:ee:01") 2000 1000)
    ∷ (no_failure, apply link (codes "aa:bb:cc:dd:ee:02") 2000 1000)
    ∷ (no_failure, begin link (codes "AA:BB:CC:DD:EE:01"))
    ∷ (no_failure, begin link (codes "aa:bb:cc:dd:ee:02"))
    ∷ (no_failure, apply link (codes "aa:bb:cc:dd:ee:03") 2000 1000)
    ∷ (no_failure, finish (codes "AA:BB:CC:DD:EE:02"))
    ∷ (no_failure, finish (codes "AA:BB:CC:DD:EE:01"))
    ∷ []

holders-run_example :
    (holders 17 (run shapes idle).shaper ≤ 1)
    × (holders 17 (run shapes idle).shaper ≢ 0 → (16 ≤ 17) × (17 ≤ 65520))
unfolding step begin_removal apply_shaping_for_mac allocate_minor upsert_class_and_filter perform
    end_removal take_out is_mac is_interface
holders-run_example = holders-run shapes refl 17

-- Two removals of one MAC overlap: its number is given back twice, and two others get it.
abbrev twice : List ((Command → Bool) × Event)
twice =
    (no_failure, apply link (codes "aa:bb:cc:dd:ee:01") 2000 1000)
    ∷ (no_failure, begin link (codes "AA:BB:CC:DD:EE:01"))
    ∷ (no_failure, begin link (codes "AA:BB:CC:DD:EE:01"))
    ∷ (no_failure, finish (codes "AA:BB:CC:DD:EE:01"))
    ∷ (no_failure, finish (codes "AA:BB:CC:DD:EE:01"))
    ∷ (no_failure, apply link (codes "aa:bb:cc:dd:ee:02") 2000 1000)
    ∷ (no_failure, apply link (codes "aa:bb:cc:dd:ee:03") 2000 1000)
    ∷ []

shared_number : holders 16 (run twice idle).shaper ≡ 2
unfolding run step begin_removal apply_shaping_for_mac allocate_minor upsert_class_and_filter
    perform end_removal take_out is_mac is_interface
shared_number = refl

abbrev stream : Packet
stream = record {
  iif = codes "eth0.20";
  oif = codes "wlan0";
  is_authorized = false;
  is_established = true;
  protocol = tcp;
  dport = codes "443";
}

-- The connection was open when the MAC lost its authorization.
decide-forward_rules_example : decide (forward_rules (codes "wlan0") two_segments) stream ≡ drop
decide-forward_rules_example = decide-forward_rules (codes "wlan0") two_segments stream

abbrev probe : Packet
probe = record stream { is_established = false; dport = codes "8787" }

decide-control_port_example :
    decide (input_rules (codes "8088") (codes "8787") two_segments) probe ≡ drop
decide-control_port_example =
    decide-control_port (codes "8088") (codes "8787") two_segments probe refl refl refl refl

abbrev outage : ℕ → Reading
outage now = record {
  now = now;
  power = record { on_mains = some false; battery_percent = some 5 };
  reachable = false;
  api_ok = true;
  disk = none;
  millidegrees = none;
}

check_all_pairs_example : IsPaired (check_all (outage 0 ∷ outage 30000 ∷ outage 60000 ∷ []) booted)
check_all_pairs_example = check_all_pairs (outage 0 ∷ outage 30000 ∷ outage 60000 ∷ [])

abbrev known_apps : Catalog
known_apps = (codes "youtube.com", codes "YouTube") ∷ (codes "google.com", codes "Google") ∷ []

abbrev reply : LogLine
reply = record {
  serial = codes "812";
  client = codes "10.50.10.66";
  action = codes "reply";
  name = codes "youtube-ui.l.google.com";
  value = codes "1.2.3.4";
  is_ipv4 = true;
}

-- The device asked for www.youtube.com, and was answered with a name of Google's.
abbrev asked : DnsLog
asked = record quiet {
  query_name_by_serial = record { serial = codes "812"; name = codes "www.YouTube.com." } ∷ [];
}

quiet_log_kept_small_example : IsBounded (feed known_apps ((0, reply) ∷ (1, reply) ∷ []) quiet)
quiet_log_kept_small_example = quiet_log_kept_small known_apps ((0, reply) ∷ (1, reply) ∷ [])

app_for_destination-parse_dns_log_line_example :
    app_for_destination 5000
      (codes "10.50.10.66")
      (codes "1.2.3.4")
      (parse_dns_log_line known_apps 1000 reply asked)
    ≡ some (codes "YouTube")
unfolding app_of classify_domain
app_for_destination-parse_dns_log_line_example =
    app_for_destination-parse_dns_log_line known_apps 1000 5000 reply asked (codes "YouTube") refl
      refl refl (omega arith)
