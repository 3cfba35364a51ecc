-- ===== src/Vouchers/Tests.antt =====
-- Runs of the vouchers service, and an instance of its theorem.
use netcam.Database.{list_client, list_client-IsPrisma}
use netcam.Vouchers.Slots.{in_use}
use netcam.Vouchers.Cut.{expire_overdue_sweeps}
use netcam.Vouchers.Switches.{expire_overdue, is_overdue, is_orphaned}
use netcam.Vouchers.Limit.{in_use-redeem}
use netcam.Prelude.{
  ℕ, ◌+◌, ◌≤◌, ◌≡◌, refl, true, false, none, some, [], ◌∷◌, map, arith, codes, err, is_some,
  count_if,
}
use netcam.Vouchers.{Package, Voucher, Device, Hall, Outside, active, full, Session}
use netcam.Vouchers.Redeem.{
  RedeemInput, free_slot_if_full, take_slot, bind_device, activate, connect, redeem,
}
use netcam.Prelude.Strings.{trim}

abbrev plan : Package
plan = record {
  duration_minutes = some 60;
  data_cap_mb = none;
  down_kbps = 2000;
  up_kbps = 1000;
  device_limit = 1;
}

abbrev slip : Voucher
slip = record {
  id = 1;
  code = codes "ABCD";
  pkg = plan;
  status = active;
  activated_at = some 0;
  expires_at = some 3600000;
  data_used_mb = 0;
}

abbrev phone : Device
phone = record {
  id = 5;
  voucher_id = 1;
  mac_address = codes "AA:01";
  user_agent = none;
  hostname = none;
  is_blocked = false;
  released_at = none;
  last_seen_at = 1000;
}

abbrev hall : Hall
hall = record {
  vouchers = slip ∷ [];
  devices = phone ∷ [];
  sessions = [];
  packages = [];
  purchases = [];
  agent_calls = [];
  audits = [];
}

-- The phone was seen `age` milliseconds ago, and is still on the network.
abbrev outside : ℕ → Outside
outside age = record {
  now = 1000 + age;
  new_device_id = 6;
  new_session_id = 8;
  new_package_id = 9;
  new_voucher_id = 20;
  drawn = codes "FREE" ∷ codes "FREE" ∷ codes "MORE" ∷ [];
  is_present = λ mac ip. some true;
}

abbrev tablet : RedeemInput
tablet = record {
  voucher_code = codes " abcd";
  mac_address = codes "aa:02";
  ip_address = none;
  user_agent = none;
  hostname = none;
}

busy_phone_keeps_its_slot : (redeem list_client (outside 599999) tablet none hall).0 ≡ err full
unfolding redeem bind_device take_slot free_slot_if_full trim
busy_phone_keeps_its_slot = refl

idle_phone_gives_way :
    map
      (λ d. is_some d.released_at)
      (redeem list_client (outside 600000) tablet none hall).1.devices
    ≡ true ∷ false ∷ []
unfolding redeem bind_device take_slot free_slot_if_full trim activate connect
idle_phone_gives_way = refl

in_use-redeem_example :
    in_use 1 (redeem list_client (outside 600000) tablet none hall).1.devices ≤ 1
unfolding trim
in_use-redeem_example =
    in_use-redeem list_client list_client-IsPrisma (outside 600000) slip tablet none hall refl
      (record { ids = λ i. ground arith; macs = omega arith })

abbrev visit : Session
visit = record {
  id = 3;
  device_id = 5;
  voucher_id = 1;
  router_id = none;
  ip_address = none;
  started_at = 1000;
  ended_at = none;
}

abbrev busy_hall : Hall
busy_hall = record hall { sessions = visit ∷ [] }

expire_overdue_sweeps_example :
    let c = expire_overdue list_client (outside 7200000) busy_hall in
    (count_if (is_overdue 7201000) c.vouchers ≡ 0)
    × (count_if (is_orphaned list_client c.vouchers) c.sessions ≡ 0)
expire_overdue_sweeps_example =
    expire_overdue_sweeps list_client list_client-IsPrisma (outside 7200000) busy_hall
