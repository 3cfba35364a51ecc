-- ===== src/Agent/SyncTests.antt =====
-- Syncs of the network agent with the API, on a concrete gateway.
use netcam.Agent.Admission.{
  Gate, AdmitRequest, NftCommand, sync_with_api, is_stale, admit_device, admit_mac, revoke_mac,
  run_nft, admit_on, drop_old_shaping, drop_shaping, revoke_device, admit_sessions, revoke_stale,
}
use netcam.Agent.Entitled.{stale-sync_with_api}
use netcam.Agent.Config.{RouterVlanConfig, find_router}
use netcam.Agent.Shaping.{
  Command, apply_shaping_for_mac, remove_shaping_for_mac, allocate_minor, upsert_class_and_filter,
  perform,
}
use netcam.Agent.Shell.{is_mac, is_interface}
use netcam.Prelude.{
  ℕ, ◌≡◌, refl, Bool, false, none, some, List, [], ◌∷◌, map, Text, codes, count_if,
}

abbrev lobby : RouterVlanConfig
lobby = record {
  parent_interface = codes "eth0";
  vlan_id = some 10;
  subnet_id = 10;
  router_id = codes "lobby";
  vlan_interface = codes "eth0.10";
  ifb_interface = codes "ifb-v10";
  prefix = codes "10.50.10.";
  gateway_ip = codes "10.50.10.1";
}

abbrev request : Text → AdmitRequest
request mac = record {
  mac_address = mac;
  router_id = some (codes "lobby");
  ip_address = none;
  down_kbps = 2000;
  up_kbps = 1000;
  session_expires_at = 3600000;
}

abbrev works : Command → Bool
works c = false

abbrev nft_works : NftCommand → Bool
nft_works c = false

abbrev closed : Gate
closed = record {
  admitted = [];
  shaper = record { minor_by_mac = []; free_minors = []; next_minor = 16; ran = [] };
  nft_ran = [];
}

abbrev first_mac : Text
first_mac = codes "aa:bb:cc:dd:ee:01"

abbrev second_mac : Text
second_mac = codes "aa:bb:cc:dd:ee:02"

-- The first device is let in at 0; at 60 seconds the API lists the second alone.
abbrev one_inside : Gate
one_inside = (admit_device (lobby ∷ []) works nft_works 0 (request first_mac) false closed).1

abbrev listed : List (ℕ × AdmitRequest)
listed = (60500, request second_mac) ∷ []

abbrev synced : ℕ × Gate
synced = sync_with_api (lobby ∷ []) works nft_works 60000 listed (some (first_mac ∷ [])) one_inside

sync_swaps_the_devices : map (λ e. e.mac) synced.1.admitted ≡ codes "AA:BB:CC:DD:EE:02" ∷ []
unfolding sync_with_api admit_device find_router admit_on admit_mac revoke_mac run_nft is_mac
    drop_old_shaping apply_shaping_for_mac allocate_minor upsert_class_and_filter perform
    is_interface admit_sessions revoke_stale revoke_device drop_shaping remove_shaping_for_mac
sync_swaps_the_devices = refl

stale-sync_with_api_example :
    let after =
      sync_with_api (lobby ∷ []) works nft_works 60000 listed (some (first_mac ∷ [])) one_inside in
    count_if (is_stale 60000 listed) after.1.admitted ≡ 0
unfolding admit_device find_router admit_on admit_mac revoke_mac run_nft is_mac drop_old_shaping
    apply_shaping_for_mac allocate_minor upsert_class_and_filter perform is_interface
stale-sync_with_api_example =
    stale-sync_with_api (lobby ∷ []) works nft_works 60000 listed (some (first_mac ∷ [])) one_inside
      (refl, tt)
