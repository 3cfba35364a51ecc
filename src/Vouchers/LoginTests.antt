-- ===== src/Vouchers/LoginTests.antt =====
-- Logins without a code, on a concrete voucher.
use netcam.Database.{list_client, list_client-IsPrisma}
use netcam.Prelude.Strings.{trim}
use netcam.Vouchers.Redeem.{
  redeem, bind_device, take_slot, free_slot_if_full, release_device, activate, connect,
  redeem_voucher,
}
use netcam.Vouchers.Slots.{in_use}
use netcam.Vouchers.Login.{
  DeviceContext, auto_login, known_device, paid_voucher, redeem_for, hand_over_changed_mac,
  voucher_usable, free_connect, connect_free, create_voucher, generate_batch,
}
use netcam.Vouchers.Sharing.{in_use-auto_login}
use netcam.Prelude.{
  ◌≤◌, max, ◌≡◌, refl, Bool, true, false, none, some, [], ◌∷◌, map, arith, Text, codes, is_some,
}
use netcam.Vouchers.{Package, Voucher, Device, Hall, Outside, active}

abbrev plan : Package
plan = record {
  duration_minutes = some 60;
  data_cap_mb = none;
  down_kbps = 2000;
  up_kbps = 1000;
  device_limit = 1;
}

abbrev slip : Voucher
slip = record {
  id = 1;
  code = codes "ABCD";
  pkg = plan;
  status = active;
  activated_at = some 0;
  expires_at = some 3600000;
  data_used_mb = 0;
}

abbrev tablet : Device
tablet = record {
  id = 5;
  voucher_id = 1;
  mac_address = codes "AA:01";
  user_agent = none;
  hostname = some (codes "Galaxy-Tab");
  is_blocked = false;
  released_at = none;
  last_seen_at = 1000;
}

abbrev hall : Hall
hall = record {
  vouchers = slip ∷ [];
  devices = tablet ∷ [];
  sessions = [];
  packages = record { id = 3; name = codes "Day"; limits = plan } ∷ [];
  purchases = [];
  agent_calls = [];
  audits = [];
}

-- A minute later; whether the tablet's old MAC is on the network is the argument.
abbrev outside : Bool → Outside
outside present = record {
  now = 61000;
  new_device_id = 6;
  new_session_id = 8;
  new_package_id = 9;
  new_voucher_id = 20;
  drawn = codes "FREE" ∷ codes "FREE" ∷ codes "MORE" ∷ [];
  is_present = λ mac ip. some present;
}

abbrev new_mac : DeviceContext
new_mac = record {
  mac_address = codes "aa:02";
  ip_address = none;
  router_id = none;
  hostname = some (codes "Galaxy-Tab");
}

abbrev slots : Device → Text × Bool
slots d = (d.mac_address, is_some d.released_at)

new_mac_takes_over :
    map slots (auto_login list_client (outside false) new_mac hall).1.devices
    ≡ (codes "AA:01", true) ∷ (codes "AA:02", false) ∷ []
unfolding auto_login known_device voucher_usable paid_voucher hand_over_changed_mac redeem_for
    release_device redeem redeem_voucher bind_device take_slot free_slot_if_full activate connect
    trim
new_mac_takes_over = refl

other_tablet_stays_out :
    (auto_login list_client (outside true) new_mac hall).1.devices ≡ tablet ∷ []
unfolding auto_login known_device voucher_usable paid_voucher hand_over_changed_mac trim
other_tablet_stays_out = refl

free_voucher_is_made :
    map (λ v. v.code) (free_connect list_client (outside true) new_mac none hall).1.vouchers
    ≡ codes "ABCD" ∷ codes "FREE" ∷ []
unfolding free_connect connect_free create_voucher auto_login known_device voucher_usable
    paid_voucher hand_over_changed_mac redeem redeem_voucher bind_device take_slot free_slot_if_full
    activate connect trim
free_voucher_is_made = refl

batch_codes_differ :
    map
      (λ v. v.code)
      (generate_batch list_client
        (outside true)
        (record { package_id = 3; count = 2 })
        hall).1.vouchers
    ≡ codes "ABCD" ∷ codes "FREE" ∷ codes "MORE" ∷ []
unfolding generate_batch
batch_codes_differ = refl

in_use-auto_login_example :
    in_use 1 (auto_login list_client (outside false) new_mac hall).1.devices
    ≤ max 1 (in_use 1 hall.devices)
in_use-auto_login_example =
    in_use-auto_login list_client list_client-IsPrisma 1 1 (outside false) new_mac hall
      (λ q. omega arith, tt) (λ j. record { ids = λ i. ground arith; macs = ground arith })
