-- ===== src/Routers.antt =====
-- apps/api/src/routers/routers.service.ts: the routers and how they hang together. The output channel
-- of a router is its id, a field that a form leaves out is `none`, and `encryptSecret` comes from
-- outside. A node of the topology is named by the id of its router.
mod Tests
use netcam.Database.{Client}
use netcam.Prelude.{
  ℕ, ◌+◌, ◌-◌, ◌*◌, Bool, true, false, ◌&&◌, ◌||◌, not, Option, none, some, List, [], map, Text,
  same, is_empty, any, select, Action, pure, throw, ◌>>=◌, ◌>>◌, throw_if, modify, ltb, leb,
  if◌then◌else◌, or_default, or_else, is_some, sort_by,
}

pub data Status : Type 0 where
  online offline unknown : Status

pub record Router : Type 0 where
  pub id : Text
  pub name : Text
  pub mac_address : Option Text
  pub ip_address : Option Text
  pub model : Option Text
  pub location : Option Text
  pub status : Status
  pub last_seen_at : Option ℕ
  pub vlan_id : Option ℕ
  pub subnet_cidr : Option Text
  pub ap_ssid : Option Text
  pub ap_password_enc : Option Text
  pub output_channel_id : Option Text
  pub parent_router_id : Option Text
  pub created_at : ℕ

pub record RouterForm : Type 0 where
  pub name : Option Text
  pub mac_address : Option Text
  pub ip_address : Option Text
  pub model : Option Text
  pub location : Option Text
  pub vlan_id : Option ℕ
  pub subnet_cidr : Option Text
  pub ap_ssid : Option Text
  pub ap_password : Option Text
  pub output_channel_id : Option Text
  pub parent_router_id : Option Text

-- The columns of a session that the list of active users reads.
pub record Session : Type 0 where
  pub router_id : Option Text
  pub started_at : ℕ
  pub ended_at : Option ℕ

pub record Outside : Type 0 where
  pub now : ℕ
  pub new_id : Text
  pub encrypt : Text → Text

pub data Error : Type 0 where
  not_found no_parent own_parent : Error

-- A router as it is shown, without its password.
pub record Shown : Type 0 where
  pub router : Router
  pub shown_status : Status

pub record Node : Type 0 where
  pub shown : Shown
  pub children : List Text

pub record Topology : Type 0 where
  pub nodes : List Node
  pub roots : List Text

abbrev pub online_window_ms : ℕ
online_window_ms = 3 * 60 * 1000

abbrev pub derive_status : Option ℕ → ℕ → Status
derive_status none now = unknown
derive_status (some t) now = if leb now (t + online_window_ms) then online else offline

abbrev pub shown : ℕ → Router → Shown
shown now r = record {
  router = record r { ap_password_enc = none };
  shown_status = derive_status r.last_seen_at now;
}

abbrev pub has_id : Text → Router → Bool
has_id id r = same r.id id

abbrev pub oldest_first : List Router → List Router
oldest_first = sort_by (λ a b. ltb a.created_at b.created_at)

abbrev pub names : Text → Option Text → Bool
names id none = false
names id (some s) = not (is_empty s) && same s id

-- `router.parentRouterId && byId.has(router.parentRouterId)`, and its negation
abbrev pub is_root : List Router → Router → Bool
is_root rs r = not (any (λ p. names p.id r.parent_router_id) rs)

abbrev pub is_child : Text → Router → Bool
is_child id r = names id r.parent_router_id

abbrev pub ids : List Router → List Text
ids = map (λ r. r.id)

abbrev pub node : ℕ → List Router → Router → Node
node now rs r = record { shown = shown now r; children = ids (select (is_child r.id) rs) }

abbrev pub encrypted : Outside → Option Text → Option Text
encrypted out none = none
encrypted out (some s) = if is_empty s then none else some (out.encrypt s)

abbrev pub new_router : Outside → RouterForm → Router
new_router out dto = record {
  id = out.new_id;
  name = or_default dto.name [];
  mac_address = dto.mac_address;
  ip_address = dto.ip_address;
  model = dto.model;
  location = dto.location;
  status = unknown;
  last_seen_at = none;
  vlan_id = dto.vlan_id;
  subnet_cidr = dto.subnet_cidr;
  ap_ssid = dto.ap_ssid;
  ap_password_enc = encrypted out dto.ap_password;
  output_channel_id = dto.output_channel_id;
  parent_router_id = dto.parent_router_id;
  created_at = out.now;
}

abbrev pub with_changes : Outside → RouterForm → Router → Router
with_changes out dto r = record r {
  name = or_default dto.name r.name;
  mac_address = or_else dto.mac_address r.mac_address;
  ip_address = or_else dto.ip_address r.ip_address;
  model = or_else dto.model r.model;
  location = or_else dto.location r.location;
  vlan_id = or_else dto.vlan_id r.vlan_id;
  subnet_cidr = or_else dto.subnet_cidr r.subnet_cidr;
  ap_ssid = or_else dto.ap_ssid r.ap_ssid;
  ap_password_enc = or_else (encrypted out dto.ap_password) r.ap_password_enc;
  output_channel_id = or_else dto.output_channel_id r.output_channel_id;
  parent_router_id = or_else dto.parent_router_id r.parent_router_id;
}

abbrev pub is_own : Text → Option Text → Bool
is_own id none = false
is_own id (some s) = same s id

abbrev pub is_current : Text → ℕ → Session → Bool
is_current id cutoff s =
    is_own id s.router_id && not (is_some s.ended_at) && leb cutoff s.started_at

abbrev pub latest_first : List Session → List Session
latest_first = sort_by (λ a b. ltb b.started_at a.started_at)

module _ (db : Client) where
  unfoldable pub find_all : ℕ → List Router → List Shown
  find_all now rs = map (shown now) (oldest_first (db.find_many Router (λ r. true) rs))

  unfoldable pub find_topology : ℕ → List Router → Topology
  find_topology now rs =
      let routers = oldest_first (db.find_many Router (λ r. true) rs) in
      record {
        nodes = map (node now routers) routers;
        roots = ids (select (is_root routers) routers);
      }

  unfoldable pub find_one : ℕ → Text → Action (List Router) Error Shown
  find_one now id rs = elim (db.find_first Router (has_id id) rs) [
    | none ↦ throw not_found rs
    | some r ↦ pure (shown now r) rs
  ]

  unfoldable pub find_active_users :
      ℕ → Text → List Session → Action (List Router) Error (List Session)
  unfolding find_one
  find_active_users now id sessions = do
    found ← find_one now id
    pure (latest_first (db.find_many Session (is_current id (now - online_window_ms)) sessions))

  -- The parent is there, when the form has one.
  abbrev pub is_parent : Option Text → List Router → Bool
  is_parent none rs = true
  is_parent (some id) rs = is_empty id || is_some (db.find_first Router (has_id id) rs)

  unfoldable pub create : Outside → RouterForm → Action (List Router) Error Router
  create out dto rs =
      if is_parent dto.parent_router_id rs
      then pure (new_router out dto) (db.create Router (new_router out dto) rs)
      else throw no_parent rs

  unfoldable pub update : Outside → Text → RouterForm → Action (List Router) Error (Unit {0})
  unfolding find_one
  update out id dto = do
    existing ← find_one out.now id
    throw_if (is_own id dto.parent_router_id) own_parent
    modify (λ rs. (db.update_many Router (has_id id) (with_changes out dto) rs).0)

  unfoldable pub remove : ℕ → Text → Action (List Router) Error (Unit {0})
  unfolding find_one
  remove now id = do existing ← find_one now id; modify (db.delete_many Router (has_id id))

  -- A heartbeat; the client refuses an id that no row has.
  unfoldable pub mark_seen : ℕ → Text → Action (List Router) Error (Unit {0})
  unfolding find_one
  mark_seen now id = do
    existing ← find_one now id
    modify (λ rs.
        (db.update_many Router (has_id id)
          (λ r. record r { last_seen_at = some now; status = online }) rs).0)
