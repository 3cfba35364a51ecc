-- ===== src/Routers/Tests.antt =====
-- Tests on two routers.
use netcam.Database.{list_client}
use netcam.Prelude.{◌≡◌, refl, none, some, List, [], ◌∷◌, map, Text, codes, err}
use netcam.Routers.{
  Router, RouterForm, Outside, find_all, find_topology, find_one, create, update, mark_seen,
  offline, unknown, no_parent, own_parent,
}

abbrev outside : Text → Outside
outside id = record { now = 1000000; new_id = id; encrypt = λ s. s }

abbrev no_change : RouterForm
no_change = record {
  name = none;
  mac_address = none;
  ip_address = none;
  model = none;
  location = none;
  vlan_id = none;
  subnet_cidr = none;
  ap_ssid = none;
  ap_password = none;
  output_channel_id = none;
  parent_router_id = none;
}

abbrev below : Text → RouterForm
below parent = record no_change { parent_router_id = some parent }

abbrev first_router : List Router
first_router = (create list_client (outside (codes "a")) no_change []).1

abbrev chain : List Router
chain = (create list_client (outside (codes "b")) (below (codes "a")) first_router).1

one_root : (find_topology list_client 0 chain).roots ≡ codes "a" ∷ []
unfolding find_topology create
one_root = refl

parent_must_be_there :
    (create list_client (outside (codes "c")) (below (codes "x")) chain).0 ≡ err no_parent
unfolding create
parent_must_be_there = refl

own_parent_is_refused :
    (update list_client (outside []) (codes "a") (below (codes "a")) chain).0 ≡ err own_parent
unfolding update find_one create
own_parent_is_refused = refl

-- Each is the parent of the other, and no root is left.
cycle_has_no_root :
    (find_topology list_client 0
      (update list_client (outside []) (codes "a") (below (codes "b")) chain).1).roots
    ≡ []
unfolding find_topology update find_one create
cycle_has_no_root = refl

heartbeat_counts_for_three_minutes :
    map
      (λ s. s.shown_status)
      (find_all list_client 1180001 (mark_seen list_client 1000000 (codes "a") chain).1)
    ≡ offline ∷ unknown ∷ []
unfolding find_all mark_seen find_one create
heartbeat_counts_for_three_minutes = refl
