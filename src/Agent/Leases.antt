-- ===== src/Agent/Leases.antt =====
-- apps/network-agent/src/lease-watcher.ts: one scan of the leases, which asks the API about each
-- device that joined. The clock is given in milliseconds since 1970. Which devices are admitted when
-- their turn comes and which requests fail come from outside.
use netcam.Prelude.{
  ℕ, ◌+◌, ◌-◌, Bool, false, ◌&&◌, ◌||◌, Option, none, some, List, [], ◌∷◌, ◌++◌, Text, same,
  is_empty, find, ltb, if◌then◌else◌, upsert, or_default,
}
use netcam.Agent.Minors.{at}

pub record Lease : Type 0 where
  pub mac_address : Text
  pub ip_address : Text
  pub expiry : Text
  pub hostname : Option Text
  pub router_id : Option Text

pub record Checked : Type 0 where
  pub mac : Text
  pub lease : Text
  pub at : ℕ

-- A request to let a device in: for free, or if it is entitled.
pub record Asked : Type 0 where
  pub free : Bool
  pub lease : Lease

pub record Watcher : Type 0 where
  pub last_checked : List Checked
  pub asked : List Asked

abbrev pub recheck_ms : ℕ
recheck_ms = 300000

abbrev pub retry_after_error_ms : ℕ
retry_after_error_ms = 10000

abbrev pub lease_key : Lease → Text
lease_key l = l.ip_address ++ b'|' ∷ l.expiry

abbrev pub set_checked : Text → Text → ℕ → List Checked → List Checked
set_checked mac key at =
    upsert (λ c. same c.mac mac) (record { mac = mac; lease = key; at = at })
      (λ c. record c { lease = key; at = at })

-- `prev && prev.lease === leaseKey && now - prev.at < RECHECK_MS`
abbrev pub is_known : ℕ → Text → Option Checked → Bool
is_known now key none = false
is_known now key (some prev) = same prev.lease key && ltb now (prev.at + recheck_ms)

-- What a scan reads from outside.
pub record Scan : Type 0 where
  pub now : ℕ
  pub free_launch : Bool
  pub is_admitted : Text → Bool
  pub fails : Text → Bool

unfoldable pub scan_lease : Scan → Lease → Watcher → Watcher
scan_lease s l b =
    let key = lease_key l in
    let prev = find (λ c. same c.mac l.mac_address) b.last_checked in
    if is_empty (or_default l.router_id []) || s.is_admitted l.mac_address
    then b
    else if is_known s.now key prev
    then b
    else let at =
        if s.fails l.mac_address then s.now + retry_after_error_ms - recheck_ms else s.now in
      record {
        last_checked = set_checked l.mac_address key at b.last_checked;
        asked = b.asked ++ record { free = s.free_launch; lease = l } ∷ [];
      }

unfoldable pub scan : Scan → List Lease → Watcher → Watcher
unfolding scan_lease
scan s [] b = b
scan s (l ∷ leases) b = scan s leases (scan_lease s l b)
