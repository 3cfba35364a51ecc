-- ===== src/Vouchers/Login.antt =====
-- `VouchersService.autoLogin`, `handOverChangedMac`, `freeConnect` and `generateBatch`.
use netcam.Database.{Client}
use netcam.Prelude.Strings.{upper, lower, trimmed}
use netcam.Prelude.Int.{ℤ, pos}
use netcam.Prelude.{
  ℕ, suc, ◌+◌, ◌-◌, ◌*◌, Bool, true, false, ◌&&◌, ◌||◌, not, Option, none, some, List, [], ◌∷◌,
  ◌++◌, Text, codes, same, is_empty, length, any, Action, pure, throw, gets, or_throw, ◌>>=◌, ◌>>◌,
  modify, ltb, leb, ◌==◌, if◌then◌else◌, or_default, or_else, is_some, sort_by,
}
use netcam.Vouchers.{
  VoucherStatus, Voucher, Device, Session, NamedPackage, Purchase, Hall, Outside, Error, nonzero,
  is_of, call, has_id, holds_slot, unused, active, admit, voucher_batch_generated,
  device_mac_handover, unknown_package, code_taken, no_code,
}
use netcam.Vouchers.Redeem.{
  fallback_session_ttl_ms, RedeemInput, Connected, is_absent, ip_of, release_device, redeem,
}

pub record DeviceContext : Type 0 where
  pub mac_address : Text
  pub ip_address : Option Text
  pub router_id : Option Text
  pub hostname : Option Text

-- Its own result, with a code when the device is let in.
pub record AutoLoginResult : Type 0 where
  pub authorized : Bool
  pub voucher_code : Option Text
  pub expires_at : Option ℕ
  pub remaining_data_mb : Option ℤ

pub record Batch : Type 0 where
  pub package_id : ℕ
  pub count : ℕ

abbrev pub mac_handover_window_ms : ℕ
mac_handover_window_ms = 15 * 60000

abbrev pub generic_hostnames : List Text
generic_hostnames =
    codes "android"
    ∷ codes "iphone"
    ∷ codes "ipad"
    ∷ codes "localhost"
    ∷ codes "unknown"
    ∷ codes "*"
    ∷ []

abbrev pub refused : AutoLoginResult
refused = record {
  authorized = false;
  voucher_code = none;
  expires_at = none;
  remaining_data_mb = none;
}

abbrev pub is_active_status : VoucherStatus → Bool
is_active_status active = true
is_active_status _ = false

abbrev pub is_unused : VoucherStatus → Bool
is_unused unused = true
is_unused _ = false

unfoldable pub voucher_usable : Voucher → ℕ → Bool
voucher_usable v now =
    elim v.expires_at [ none ↦ true | some end ↦ ltb now end ]
    && elim (nonzero v.pkg.data_cap_mb) [ none ↦ true | some cap ↦ ltb v.data_used_mb cap ]

-- `Math.max(0, cap - used)`
abbrev pub data_left : Voucher → Option ℤ
data_left v = elim (nonzero v.pkg.data_cap_mb) [
  | none ↦ none
  | some cap ↦ some (pos (cap - v.data_used_mb))
]

abbrev pub known_result : Voucher → AutoLoginResult
known_result v = record {
  authorized = true;
  voucher_code = some v.code;
  expires_at = v.expires_at;
  remaining_data_mb = data_left v;
}

abbrev pub redeemed_result : Voucher → Connected → AutoLoginResult
redeemed_result v c = record {
  authorized = true;
  voucher_code = some v.code;
  expires_at = c.session_expires_at;
  remaining_data_mb = c.remaining_data_mb;
}

abbrev pub input_for : Text → Text → DeviceContext → Option Text → RedeemInput
input_for code mac ctx hostname = record {
  voucher_code = code;
  mac_address = mac;
  ip_address = ctx.ip_address;
  user_agent = none;
  hostname = hostname;
}

abbrev pub latest_seen : List Device → List Device
latest_seen = sort_by (λ a b. ltb b.last_seen_at a.last_seen_at)

-- `completedAt: "desc"`, where null comes first
abbrev pub completed_later : Purchase → Purchase → Bool
completed_later a b = elim b.completed_at [
  | none ↦ false
  | some t ↦ elim a.completed_at [ none ↦ true | some s ↦ ltb t s ]
]

abbrev pub has_voucher : ℕ → Voucher → Bool
has_voucher id v = v.id == id

abbrev pub has_mac : Text → Option Text → Bool
has_mac mac none = false
has_mac mac (some s) = same s mac

-- `a !== b`, where a missing `a` is `undefined` and a missing `b` is null
abbrev pub differs : Option Text → Option Text → Bool
differs none b = true
differs (some a) none = true
differs (some a) (some b) = not (same a b)

-- `ctx.ipAddress && ctx.ipAddress !== open.ipAddress`
abbrev pub has_moved : Option Text → Option Text → Bool
has_moved none old = false
has_moved (some ip) old = not (is_empty ip) && differs (some ip) old

-- The device with its voucher, and the first that `p` accepts.
abbrev pub first_pair :
    (Device → Option Voucher) → (Device → Voucher → Bool) → List Device → Option (Device × Voucher)
first_pair voucher_of p [] = none
first_pair voucher_of p (d ∷ ds) =
    let rest = first_pair voucher_of p ds in
    elim (voucher_of d) [ none ↦ rest | some v ↦ if p d v then some (d, v) else rest ]

abbrev pub router_of : Option Session → Option Text
router_of none = none
router_of (some s) = s.router_id

module _ (db : Client) where
  abbrev pub voucher_of : Hall → Device → Option Voucher
  voucher_of b d = db.find_first Voucher (has_voucher d.voucher_id) b.vouchers

  -- A device with a slot on a voucher that is active.
  abbrev pub is_entitled : Hall → Device → Bool
  is_entitled b d =
      holds_slot d && elim (voucher_of b d) [ none ↦ false | some v ↦ is_active_status v.status ]

  unfoldable pub known_device : Outside → Text → Hall → Option (Device × Voucher)
  unfolding voucher_usable
  known_device out mac b =
      first_pair (voucher_of b) (λ d v. voucher_usable v out.now)
        (latest_seen
          (db.find_many Device (λ d. same d.mac_address mac && is_entitled b d) b.devices))

  -- The open session of the device that started last.
  abbrev pub open_session : ℕ → Hall → Option Session
  open_session device b =
      elim (sort_by (λ s t. ltb t.started_at s.started_at)
        (db.find_many Session (is_of device) b.sessions)) [ [] ↦ none | s ∷ _ ↦ some s ]

  abbrev pub new_session : Outside → Device → Voucher → Option Text → DeviceContext → Session
  new_session out d v router ctx = record {
    id = out.new_session_id;
    device_id = d.id;
    voucher_id = v.id;
    router_id = router;
    ip_address = ctx.ip_address;
    started_at = out.now;
    ended_at = none;
  }

  abbrev pub moved : Option Text → DeviceContext → Session → Session
  moved router ctx s = record s {
    router_id = router;
    ip_address = or_else ctx.ip_address s.ip_address;
  }

  abbrev pub refreshed_sessions : Outside → DeviceContext → Device → Voucher → Hall → List Session
  refreshed_sessions out ctx d v b = elim (open_session d.id b) [
    | none ↦ db.create Session (new_session out d v ctx.router_id ctx) b.sessions
    | some s ↦
        let router = or_else ctx.router_id s.router_id in
        if differs router s.router_id || has_moved ctx.ip_address s.ip_address
        then (db.update_many Session (λ t. t.id == s.id) (moved router ctx) b.sessions).0
        else b.sessions
  ]

  abbrev pub logged_row : Outside → DeviceContext → Device → Device
  logged_row out ctx d = record d {
    last_seen_at = out.now;
    hostname = or_else ctx.hostname d.hostname;
  }

  unfoldable pub log_in_known : Outside → DeviceContext → Text → Device → Voucher → Hall → Hall
  log_in_known out ctx mac d v b =
      call
        (admit mac v.id v.pkg.down_kbps v.pkg.up_kbps
          (or_default v.expires_at (out.now + fallback_session_ttl_ms)))
        (record b {
          sessions = refreshed_sessions out ctx d v b;
          devices = (db.update_many Device (has_id d.id) (logged_row out ctx) b.devices).0;
        })

  abbrev pub bought : Hall → Purchase → Option Voucher
  bought b p = elim p.voucher_id [
    | none ↦ none
    | some id ↦ db.find_first Voucher (has_voucher id) b.vouchers
  ]

  -- The latest payment of this MAC for a voucher that nobody has used.
  unfoldable pub paid_voucher : Text → Hall → Option (Purchase × Voucher)
  paid_voucher mac b =
      let is_open = λ (p : Purchase).
        has_mac mac p.mac_address
        && p.is_success
        && elim (bought b p) [ none ↦ false | some v ↦ is_unused v.status ] in
      elim (sort_by completed_later (db.find_many Purchase is_open b.purchases)) [
        | [] ↦ none
        | p ∷ _ ↦ elim (bought b p) [ none ↦ none | some v ↦ some (p, v) ]
      ]

  -- `redeem`, and the answer of a login by it.
  unfoldable pub redeem_for :
      Outside → Voucher → RedeemInput → Option Text → Action Hall Error AutoLoginResult
  unfolding redeem
  redeem_for out v input router = do c ← redeem db out input router; pure (redeemed_result v c)

  abbrev pub is_candidate : Outside → Text → Text → Hall → Device → Bool
  is_candidate out mac hostname b d =
      has_mac hostname d.hostname
      && not (same d.mac_address mac)
      && leb (out.now - mac_handover_window_ms) d.last_seen_at
      && is_entitled b d

  -- Off the network for certain, and on a voucher that can still be used.
  abbrev pub may_hand_over : Outside → Hall → Device → Voucher → Bool
  may_hand_over out b d v =
      voucher_usable v out.now
      && is_absent
          (out.is_present d.mac_address (ip_of (db.find_first Session (is_of d.id) b.sessions)))

  unfoldable pub hand_over_changed_mac :
      Outside → DeviceContext → Text → Action Hall Error AutoLoginResult
  unfolding release_device redeem_for voucher_usable
  hand_over_changed_mac out ctx mac b = elim (trimmed ctx.hostname) [
    | none ↦ pure refused b
    | some hostname ↦
        let candidates =
          latest_seen (db.find_many Device (is_candidate out mac hostname b) b.devices) in
        if any (same (lower hostname)) generic_hostnames
        then pure refused b
        else elim (first_pair (voucher_of b) (may_hand_over out b) candidates) [
          | none ↦ pure refused b
          | some (old, v) ↦
              let router =
                or_else ctx.router_id
                  (router_of (db.find_first Session (is_of old.id) b.sessions)) in
              let released = release_device db out old b in
              redeem_for out v (input_for v.code mac ctx (some hostname)) router (record released {
                audits = released.audits ++ (device_mac_handover, old.voucher_id) ∷ [];
              })
        ]
  ]

  unfoldable pub auto_login : Outside → DeviceContext → Action Hall Error AutoLoginResult
  unfolding known_device log_in_known paid_voucher redeem_for hand_over_changed_mac
  auto_login out ctx b =
      let mac = upper ctx.mac_address in
      elim (known_device out mac b) [
        | some (d, v) ↦ pure (known_result v) (log_in_known out ctx mac d v b)
        | none ↦ elim (paid_voucher mac b) [
          | some (p, v) ↦
              redeem_for out v (input_for v.code mac ctx ctx.hostname)
                (or_else ctx.router_id p.router_id) b
          | none ↦ hand_over_changed_mac out ctx mac b
        ]
      ]

  abbrev pub free_launch : NamedPackage
  free_launch = record {
    id = 0;
    name = codes "Free Launch";
    limits = record {
      duration_minutes = some (24 * 60);
      data_cap_mb = none;
      down_kbps = 20000;
      up_kbps = 10000;
      device_limit = 99;
    };
  }

  abbrev pub ensure_free_launch_package : Outside → Action Hall Error NamedPackage
  ensure_free_launch_package out b =
      elim (db.find_first NamedPackage (λ p. same p.name free_launch.name) b.packages) [
        | some p ↦ pure p b
        | none ↦
            let p = record free_launch { id = out.new_package_id } in
            pure p (record b { packages = db.create NamedPackage p b.packages })
      ]

  abbrev pub new_voucher : ℕ → Text → NamedPackage → Voucher
  new_voucher id code pkg = record {
    id = id;
    code = code;
    pkg = pkg.limits;
    status = unused;
    activated_at = none;
    expires_at = none;
    data_used_mb = 0;
  }

  -- The table refuses a code that it has.
  unfoldable pub create_voucher : ℕ → Text → NamedPackage → Action Hall Error Voucher
  create_voucher id code pkg b =
      let v = new_voucher id code pkg in
      if is_some (db.find_first Voucher (λ w. same w.code code) b.vouchers)
      then throw code_taken b
      else pure v (record b { vouchers = db.create Voucher v b.vouchers })

  unfoldable pub connect_free : Outside → DeviceContext → Option Text → Action Hall Error Connected
  unfolding create_voucher redeem
  connect_free out ctx router = do
    pkg ← ensure_free_launch_package out
    code ← or_throw (elim out.drawn [ [] ↦ none | c ∷ _ ↦ some c ]) no_code
    v ← create_voucher out.new_voucher_id code pkg
    redeem db out (input_for v.code ctx.mac_address ctx ctx.hostname) router

  abbrev pub connected_from : AutoLoginResult → Connected
  connected_from r = record {
    session_expires_at = r.expires_at;
    remaining_data_mb = r.remaining_data_mb;
  }

  unfoldable pub free_connect : Outside → DeviceContext → Option Text → Action Hall Error Connected
  unfolding auto_login connect_free
  free_connect out ctx router_id = do
    let router = or_else router_id ctx.router_id
    existing ← auto_login out (record ctx { router_id = router })
    if existing.authorized then pure (connected_from existing) else connect_free out ctx router

  -- The set of codes, in the order in which they were first drawn; none when the draws run out.
  abbrev pub draw_codes : ℕ → List Text → List Text → Option (List Text)
  draw_codes count drawn [] = if leb count (length drawn) then some drawn else none
  draw_codes count drawn (c ∷ cs) =
      let more = draw_codes count (if any (same c) drawn then drawn else drawn ++ c ∷ []) cs in
      if leb count (length drawn) then some drawn else more

  abbrev pub batch_rows : ℕ → NamedPackage → List Text → List Voucher
  batch_rows id pkg [] = []
  batch_rows id pkg (c ∷ cs) = new_voucher id c pkg ∷ batch_rows (suc id) pkg cs

  -- `createMany`: all of the rows, or none when the table has one of the codes.
  abbrev pub create_batch : List Voucher → Action Hall Error (Unit {0})
  create_batch rows b =
      if any (λ v. is_some (db.find_first Voucher (λ w. same w.code v.code) b.vouchers)) rows
      then throw code_taken b
      else pure tt (record b { vouchers = b.vouchers ++ rows })

  unfoldable pub generate_batch : Outside → Batch → Action Hall Error (List Voucher)
  generate_batch out dto = do
    found ← gets (λ b. db.find_first NamedPackage (λ p. p.id == dto.package_id) b.packages)
    pkg ← or_throw found unknown_package
    drawn ← or_throw (draw_codes dto.count [] out.drawn) no_code
    create_batch (batch_rows out.new_voucher_id pkg drawn)
    modify (λ b. record b { audits = b.audits ++ (voucher_batch_generated, dto.package_id) ∷ [] })
    gets (λ b. db.find_many Voucher (λ v. any (same v.code) drawn) b.vouchers)
