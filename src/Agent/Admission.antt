-- ===== src/Agent/Admission.antt =====
-- apps/network-agent/src/admission.ts and state.ts, with admitMac and revokeMac of nft.ts: which
-- devices are let in. The answers of the API and the list of the firewall's set come from outside, and
-- so do the times at which the devices of a sync are handled.
use netcam.Agent.Shell.{is_mac}
use netcam.Agent.Config.{RouterVlanConfig, find_router}
use netcam.Agent.Shaping.{
  Shaper, Link, Command, Error, apply_shaping_for_mac, remove_shaping_for_mac, command_failed,
  bad_mac,
}
use netcam.Prelude.Strings.{upper}
use netcam.Prelude.{
  ℕ, ◌+◌, ◌-◌, ◌*◌, ◌/◌, max, Bool, true, false, ◌&&◌, not, Option, none, some, List, [], ◌∷◌, ◌++◌,
  map, Text, same, any, select, find, ok, Action, pure, throw, ◌>>=◌, ◌>>◌, modify, ltb, leb, ◌==◌,
  if◌then◌else◌, or_default, upsert,
}

-- The commands on the set `authorized_macs`.
pub data NftCommand : Type 0 where
  nft_add : (mac : Text) (timeout : ℕ) → NftCommand
  nft_delete : (mac : Text) → NftCommand

pub record AdmitRequest : Type 0 where
  pub mac_address : Text
  pub router_id : Option Text
  pub ip_address : Option Text
  pub down_kbps : ℕ
  pub up_kbps : ℕ
  pub session_expires_at : ℕ

pub record AdmittedMac : Type 0 where
  pub mac : Text
  pub router : RouterVlanConfig
  pub session_expires_at : ℕ
  pub down_kbps : ℕ
  pub up_kbps : ℕ
  pub admitted_at : ℕ
  pub last_down_bytes : ℕ
  pub last_up_bytes : ℕ

-- The registry `admitted`, in the order of insertion, the class numbers, and the commands that ran.
pub record Gate : Type 0 where
  pub admitted : List AdmittedMac
  pub shaper : Shaper
  pub nft_ran : List NftCommand

abbrev pub expiry_tolerance_ms : ℕ
expiry_tolerance_ms = 5 * 60000

abbrev pub is_entry : Text → AdmittedMac → Bool
is_entry mac e = same e.mac mac

abbrev pub link_of : RouterVlanConfig → Link
link_of r = record { vlan_interface = r.vlan_interface; ifb_interface = r.ifb_interface }

abbrev pub shaping : {A : Type 0} → Action Shaper Error A → Action Gate Error A
shaping m g = let (r, s) = m g.shaper in (r, record g { shaper = s })

-- `.catch(() => undefined)`
abbrev pub attempt : {A : Type 0} → Action Gate Error A → Action Gate Error (Unit {0})
attempt m g = (ok tt, (m g).1)

abbrev pub is_same_router : RouterVlanConfig → AdmittedMac → Bool
is_same_router router e = same e.router.router_id router.router_id

abbrev pub distance : ℕ → ℕ → ℕ
distance a b = (a - b) + (b - a)

abbrev pub is_unchanged : RouterVlanConfig → AdmitRequest → AdmittedMac → Bool
is_unchanged router req e =
    is_same_router router e
    && e.down_kbps == req.down_kbps
    && e.up_kbps == req.up_kbps
    && ltb (distance e.session_expires_at req.session_expires_at) expiry_tolerance_ms

-- `Math.max(60, Math.ceil((expiresAt - Date.now()) / 1000))`
abbrev pub timeout_seconds : ℕ → ℕ → ℕ
timeout_seconds now expires_at = max 60 ((expires_at - now + 999) / 1000)

abbrev pub holds_for : (AdmittedMac → Bool) → Option AdmittedMac → Bool
holds_for p none = false
holds_for p (some e) = p e

-- The entry that stays under its router keeps its age, and its counters when its class was kept.
abbrev pub new_entry : ℕ → RouterVlanConfig → AdmitRequest → Option AdmittedMac → Bool → AdmittedMac
new_entry now router req existing kept =
    let same_router = holds_for (is_same_router router) existing in
    record {
      mac = upper req.mac_address;
      router = router;
      session_expires_at = req.session_expires_at;
      down_kbps = req.down_kbps;
      up_kbps = req.up_kbps;
      admitted_at =
          if same_router then elim existing [ none ↦ now | some e ↦ e.admitted_at ] else now;
      last_down_bytes = if kept then elim existing [ none ↦ 0 | some e ↦ e.last_down_bytes ] else 0;
      last_up_bytes = if kept then elim existing [ none ↦ 0 | some e ↦ e.last_up_bytes ] else 0;
    }

abbrev pub put_entry : AdmittedMac → Gate → Gate
put_entry e g = record g { admitted = upsert (is_entry e.mac) e (λ x. e) g.admitted }

abbrev pub remove_entry : Text → Gate → Gate
remove_entry mac g = record g { admitted = select (λ e. not (is_entry mac e)) g.admitted }

abbrev pub entitled : List (ℕ × AdmitRequest) → Text → Bool
entitled sessions mac = any (λ s. same (upper s.1.mac_address) mac) sessions

abbrev pub is_stale : ℕ → List (ℕ × AdmitRequest) → AdmittedMac → Bool
is_stale started_at sessions e = not (entitled sessions e.mac) && ltb e.admitted_at started_at

module _ (networks : List RouterVlanConfig) (tc_fails : Command → Bool)
    (nft_fails : NftCommand → Bool) where
  unfoldable pub run_nft : NftCommand → Action Gate Error (Unit {0})
  run_nft c g =
      if nft_fails c
      then throw command_failed g
      else pure tt (record g { nft_ran = g.nft_ran ++ c ∷ [] })

  unfoldable pub revoke_mac : Text → Action Gate Error (Unit {0})
  unfolding run_nft
  revoke_mac mac g = if is_mac mac then run_nft (nft_delete (upper mac)) g else throw bad_mac g

  unfoldable pub admit_mac : Text → ℕ → Action Gate Error (Unit {0})
  unfolding run_nft revoke_mac
  admit_mac mac timeout g =
      if is_mac mac
      then (do attempt (revoke_mac (upper mac)); run_nft (nft_add (upper mac) (max 1 timeout))) g
      else throw bad_mac g

  unfoldable pub drop_old_shaping :
      RouterVlanConfig → Text → Option AdmittedMac → Action Gate Error (Unit {0})
  unfolding remove_shaping_for_mac
  drop_old_shaping router mac none = pure tt
  drop_old_shaping router mac (some e) =
      if is_same_router router e
      then pure tt
      else attempt (shaping (remove_shaping_for_mac tc_fails (link_of e.router) mac))

  unfoldable pub admit_on :
      ℕ → RouterVlanConfig → AdmitRequest → Option AdmittedMac → Action Gate Error Bool
  unfolding admit_mac drop_old_shaping apply_shaping_for_mac
  admit_on now router req existing = do
    admit_mac (upper req.mac_address) (timeout_seconds now req.session_expires_at)
    drop_old_shaping router (upper req.mac_address) existing
    kept ← shaping (
        apply_shaping_for_mac tc_fails (link_of router) (upper req.mac_address) req.down_kbps
          req.up_kbps)
    modify (put_entry (new_entry now router req existing kept))
    pure true

  unfoldable pub admit_device : ℕ → AdmitRequest → Bool → Action Gate Error Bool
  unfolding admit_on
  admit_device now req force g =
      let existing = find (is_entry (upper req.mac_address)) g.admitted in
      elim (find_router networks req.router_id req.ip_address) [
        | none ↦ pure false g
        | some router ↦
            if holds_for (is_unchanged router req) existing && not force
            then pure true g
            else admit_on now router req existing g
      ]

  unfoldable pub drop_shaping : Text → Option AdmittedMac → Action Gate Error (Unit {0})
  unfolding remove_shaping_for_mac
  drop_shaping mac none = pure tt
  drop_shaping mac (some e) =
      attempt (shaping (remove_shaping_for_mac tc_fails (link_of e.router) mac))

  unfoldable pub revoke_device : Text → Gate → Gate
  unfolding revoke_mac drop_shaping
  revoke_device address g =
      let mac = upper address in
      let entry = find (is_entry mac) g.admitted in
      remove_entry mac (drop_shaping mac entry (revoke_mac mac g).1).1

  -- The loop over the sessions; it counts those that were missing and could be admitted.
  unfoldable pub admit_sessions : List Text → List (ℕ × AdmitRequest) → Gate → ℕ × Gate
  unfolding admit_device
  admit_sessions in_firewall [] g = (0, g)
  admit_sessions in_firewall ((now, req) ∷ sessions) g =
      let missing = not (any (same (upper req.mac_address)) in_firewall) in
      let (r, after) = admit_device now req missing g in
      let (n, last) = admit_sessions in_firewall sessions after in
      (n + (elim r [ ok true ↦ if missing then 1 else 0 | _ ↦ 0 ]), last)

  unfoldable pub revoke_stale : ℕ → List (ℕ × AdmitRequest) → List AdmittedMac → Gate → Gate
  unfolding revoke_device
  revoke_stale started_at sessions [] g = g
  revoke_stale started_at sessions (e ∷ es) g =
      revoke_stale started_at sessions es
        (if is_stale started_at sessions e then revoke_device e.mac g else g)

  -- What follows when the API has answered; the firewall's set is empty when it cannot be read.
  unfoldable pub sync_with_api : ℕ → List (ℕ × AdmitRequest) → Option (List Text) → Gate → ℕ × Gate
  unfolding admit_sessions revoke_stale
  sync_with_api started_at sessions set g =
      let in_firewall = map upper (or_default set []) in
      let (restored, after) = admit_sessions in_firewall sessions g in
      (restored, revoke_stale started_at sessions after.admitted after)

  -- `startExpirySweep` of index.ts, once.
  unfoldable pub expiry_sweep : ℕ → List AdmittedMac → Gate → Gate
  unfolding revoke_device
  expiry_sweep now [] g = g
  expiry_sweep now (e ∷ es) g =
      expiry_sweep now es (if leb e.session_expires_at now then revoke_device e.mac g else g)
