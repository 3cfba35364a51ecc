-- ===== src/Vouchers/Redeem.antt =====
-- `VouchersService.redeem`, `freeSlotIfFull` and `releaseDevice`.
use netcam.Database.{Client}
use netcam.Prelude.Strings.{upper}
use netcam.Prelude.Int.{ℤ, pos, ◌-ℤ◌}
use netcam.Prelude.{
  ℕ, ◌+◌, ◌-◌, ◌*◌, Bool, true, false, ◌&&◌, ◌||◌, not, Option, none, some, List, [], ◌∷◌, Text,
  same, length, find, Action, pure, throw, ◌>>=◌, ◌>>◌, modify, ltb, leb, ◌==◌, if◌then◌else◌,
  or_default, or_else, is_some,
}
use netcam.Vouchers.{
  Voucher, Device, Session, Hall, Outside, Error, normalize_code, nonzero, is_of, ended, call,
  has_id, is_for, holds_slot, unused, active, expired, depleted, suspended, admit, revoke,
  no_voucher, is_suspended, not_valid, is_blocked_here, full, has_expired,
}

abbrev pub device_slot_stale_ms : ℕ
device_slot_stale_ms = 10 * 60000

abbrev pub fallback_session_ttl_ms : ℕ
fallback_session_ttl_ms = 24 * 60 * 60000

pub record RedeemInput : Type 0 where
  pub voucher_code : Text
  pub mac_address : Text
  pub ip_address : Option Text
  pub user_agent : Option Text
  pub hostname : Option Text

pub record Connected : Type 0 where
  pub session_expires_at : Option ℕ
  pub remaining_data_mb : Option ℤ

-- `sort((a, b) => a.lastSeenAt - b.lastSeenAt)`, which is stable.
abbrev pub insert_stale : Device → List Device → List Device
insert_stale d [] = d ∷ []
insert_stale d (e ∷ es) =
    let rest = insert_stale d es in
    if leb d.last_seen_at e.last_seen_at then d ∷ e ∷ es else e ∷ rest

abbrev pub stalest_first : List Device → List Device
stalest_first [] = []
stalest_first (d ∷ ds) = insert_stale d (stalest_first ds)

abbrev pub holds : ℕ → Text → Device → Bool
holds voucher mac d = is_for voucher d && holds_slot d && not (same d.mac_address mac)

abbrev pub released_row : ℕ → Device → Device
released_row now d = record d { released_at = some now }

abbrev pub returned_row : ℕ → RedeemInput → Device → Device
returned_row now dto d = record d {
  released_at = none;
  last_seen_at = now;
  user_agent = or_else dto.user_agent d.user_agent;
  hostname = or_else dto.hostname d.hostname;
}

abbrev pub seen_row : ℕ → RedeemInput → Device → Device
seen_row now dto d = record d { last_seen_at = now; hostname = or_else dto.hostname d.hostname }

abbrev pub new_device : Outside → Voucher → Text → RedeemInput → Device
new_device out v mac dto = record {
  id = out.new_device_id;
  voucher_id = v.id;
  mac_address = mac;
  user_agent = dto.user_agent;
  hostname = dto.hostname;
  is_blocked = false;
  released_at = none;
  last_seen_at = out.now;
}

abbrev pub is_absent : Option Bool → Bool
is_absent (some false) = true
is_absent _ = false

abbrev pub ip_of : Option Session → Option Text
ip_of none = none
ip_of (some s) = s.ip_address

module _ (db : Client) where
  unfoldable pub release_device : Outside → Device → Hall → Hall
  release_device out d b = call (revoke d.mac_address) (record b {
    devices = (db.update_many Device (has_id d.id) (released_row out.now) b.devices).0;
    sessions = (db.update_many Session (is_of d.id) (ended out.now) b.sessions).0;
  })

  -- The device cannot be in use: idle for a while, or off the network.
  abbrev pub may_go : Outside → Hall → Device → Bool
  may_go out b d =
      leb device_slot_stale_ms (out.now - d.last_seen_at)
      || is_absent
          (out.is_present d.mac_address (ip_of (db.find_first Session (is_of d.id) b.sessions)))

  unfoldable pub free_slot_if_full : Outside → Voucher → Text → Action Hall Error (Unit {0})
  unfolding release_device
  free_slot_if_full out v mac b =
      let holders = db.find_many Device (holds v.id mac) b.devices in
      if ltb (length holders) v.pkg.device_limit
      then pure tt b
      else elim (find (may_go out b) (stalest_first holders)) [
        | none ↦ throw full b
        | some d ↦ pure tt (release_device out d b)
      ]

  -- `!device || device.releasedAt`: a slot is needed.
  unfoldable pub take_slot :
      Outside → Voucher → Text → RedeemInput → Option Device → Action Hall Error ℕ
  take_slot out v mac dto device = do
    free_slot_if_full out v mac
    elim device [
      | some d ↦ do
        modify (λ b. record b {
          devices = (db.update_many Device (has_id d.id) (returned_row out.now dto) b.devices).0;
        })
        pure d.id
      | none ↦ do
        modify (λ b. record b { devices = db.create Device (new_device out v mac dto) b.devices })
        pure out.new_device_id
    ]

  unfoldable pub bind_device : Outside → Voucher → Text → RedeemInput → Action Hall Error ℕ
  bind_device out v mac dto b =
      let device = db.find_first Device (λ d. is_for v.id d && same d.mac_address mac) b.devices in
      elim device [
        | none ↦ take_slot out v mac dto none b
        | some d ↦
            if d.is_blocked
            then throw is_blocked_here b
            else if is_some d.released_at
            then take_slot out v mac dto (some d) b
            else pure d.id (record b {
              devices = (db.update_many Device (has_id d.id) (seen_row out.now dto) b.devices).0;
            })
      ]

  -- The first use starts the clock; a voucher past its end is marked.
  unfoldable pub activate : Outside → Voucher → Action Hall Error (Option ℕ)
  activate out v b = elim v.status [
    | unused ↦
        let end : Option ℕ = elim (nonzero v.pkg.duration_minutes) [
          | none ↦ none
          | some m ↦ some (out.now + m * 60000)
        ] in
        pure end (record b {
          vouchers =
              (db.update_many Voucher (λ w. w.id == v.id)
                (λ w. record w { status = active; activated_at = some out.now; expires_at = end })
                b.vouchers).0;
        })
    | _ ↦
        if elim v.expires_at [ none ↦ false | some end ↦ ltb end out.now ]
        then throw has_expired (record b {
          vouchers =
              (db.update_many Voucher (λ w. w.id == v.id) (λ w. record w { status = expired })
                b.vouchers).0;
        })
        else pure v.expires_at b
  ]

  -- The open session of the device is replaced, and the agent admits its MAC.
  unfoldable pub connect :
      Outside
      → Voucher
      → Text
      → RedeemInput
      → Option Text
      → ℕ
      → Option ℕ
      → Action Hall Error Connected
  connect out v mac dto router device end b =
      let session : Session = record {
        id = out.new_session_id;
        device_id = device;
        voucher_id = v.id;
        router_id = router;
        ip_address = dto.ip_address;
        started_at = out.now;
        ended_at = none;
      } in
      let closed = (db.update_many Session (is_of device) (ended out.now) b.sessions).0 in
      pure
        (record {
          session_expires_at = end;
          remaining_data_mb = elim (nonzero v.pkg.data_cap_mb) [
            | none ↦ none
            | some cap ↦ some (pos cap -ℤ pos v.data_used_mb)
          ];
        })
        (call
          (admit mac v.id v.pkg.down_kbps v.pkg.up_kbps
            (or_default end (out.now + fallback_session_ttl_ms)))
          (record b { sessions = db.create Session session closed }))

  unfoldable pub redeem_voucher :
      Outside → Voucher → RedeemInput → Option Text → Action Hall Error Connected
  redeem_voucher out v dto router = do
    device ← bind_device out v (upper dto.mac_address) dto
    end ← activate out v
    connect out v (upper dto.mac_address) dto router device end

  unfoldable pub redeem : Outside → RedeemInput → Option Text → Action Hall Error Connected
  unfolding redeem_voucher
  redeem out dto router b =
      elim (db.find_first Voucher (λ v. same v.code (normalize_code dto.voucher_code)) b.vouchers) [
        | none ↦ throw no_voucher b
        | some v ↦ elim v.status [
          | suspended ↦ throw is_suspended b
          | expired ↦ throw not_valid b
          | depleted ↦ throw not_valid b
          | _ ↦ redeem_voucher out v dto router b
        ]
      ]
