-- ===== src/Vouchers.antt =====
-- apps/api/src/vouchers/vouchers.service.ts: vouchers, the devices on them and their sessions. Here
-- are the rows; Redeem connects a device. The database client,
-- the clock and whether a device is on the network come from outside. A voucher's package is part
-- of its row, and data is counted in whole megabytes.
pub mod Redeem
pub mod Slots
pub mod Limit
pub mod Others
pub mod Login
pub mod Sharing
pub mod Switches
pub mod Cut
mod Tests
mod LoginTests
use netcam.Prelude.Strings.{trim, upper}
use netcam.Prelude.{
  ℕ, Bool, ◌&&◌, not, Option, none, some, List, [], ◌∷◌, ◌++◌, Text, ◌==◌, if◌then◌else◌, is_some,
}

pub data VoucherStatus : Type 0 where
  unused active expired depleted suspended : VoucherStatus

pub record Package : Type 0 where
  pub duration_minutes : Option ℕ
  pub data_cap_mb : Option ℕ
  pub down_kbps : ℕ
  pub up_kbps : ℕ
  pub device_limit : ℕ

pub record Voucher : Type 0 where
  pub id : ℕ
  pub code : Text
  pub pkg : Package
  pub status : VoucherStatus
  pub activated_at : Option ℕ
  pub expires_at : Option ℕ
  pub data_used_mb : ℕ

pub record Device : Type 0 where
  pub id : ℕ
  pub voucher_id : ℕ
  pub mac_address : Text
  pub user_agent : Option Text
  pub hostname : Option Text
  pub is_blocked : Bool
  pub released_at : Option ℕ
  pub last_seen_at : ℕ

pub record Session : Type 0 where
  pub id : ℕ
  pub device_id : ℕ
  pub voucher_id : ℕ
  pub router_id : Option Text
  pub ip_address : Option Text
  pub started_at : ℕ
  pub ended_at : Option ℕ

-- The calls of the network agent, and the audit's.
pub data AgentCall : Type 0 where
  admit : (mac : Text) (voucher : ℕ) (down_kbps up_kbps : ℕ) (expires_at : ℕ) → AgentCall
  revoke : (mac : Text) → AgentCall

pub data AuditAction : Type 0 where
  voucher_suspended device_blocked device_unblocked : AuditAction
  voucher_batch_generated device_mac_handover : AuditAction

-- A row of the packages; the vouchers carry its limits.
pub record NamedPackage : Type 0 where
  pub id : ℕ
  pub name : Text
  pub limits : Package

-- The columns of a payment that a login reads.
pub record Purchase : Type 0 where
  pub mac_address : Option Text
  pub router_id : Option Text
  pub is_success : Bool
  pub completed_at : Option ℕ
  pub voucher_id : Option ℕ

pub record Hall : Type 0 where
  pub vouchers : List Voucher
  pub devices : List Device
  pub sessions : List Session
  pub packages : List NamedPackage
  pub purchases : List Purchase
  pub agent_calls : List AgentCall
  -- with the id that the entry names
  pub audits : List (AuditAction × ℕ)

pub record Outside : Type 0 where
  pub now : ℕ
  pub new_device_id : ℕ
  pub new_session_id : ℕ
  pub new_package_id : ℕ
  -- the ids of the vouchers of a batch follow on this one
  pub new_voucher_id : ℕ
  -- what `generateVoucherCode` draws, call by call
  pub drawn : List Text
  -- `isPresent`, of a MAC and the address of its session; none when it cannot tell
  pub is_present : Text → Option Text → Option Bool

pub data Error : Type 0 where
  no_voucher is_suspended not_valid is_blocked_here full has_expired no_device : Error
  unknown_package code_taken no_code : Error

-- `normalizeCode`
abbrev pub normalize_code : Text → Text
normalize_code code = upper (trim code)

-- `n ? f n : null`: 0 counts as missing.
abbrev pub nonzero : Option ℕ → Option ℕ
nonzero none = none
nonzero (some n) = if n == 0 then none else some n

abbrev pub is_open : Session → Bool
is_open s = not (is_some s.ended_at)

abbrev pub is_of : ℕ → Session → Bool
is_of device s = s.device_id == device && is_open s

abbrev pub ended : ℕ → Session → Session
ended now s = record s { ended_at = some now }

abbrev pub call : AgentCall → Hall → Hall
call c b = record b { agent_calls = b.agent_calls ++ c ∷ [] }

abbrev pub has_id : ℕ → Device → Bool
has_id id d = d.id == id

abbrev pub is_for : ℕ → Device → Bool
is_for voucher d = d.voucher_id == voucher

-- The device holds a slot of its voucher.
abbrev pub holds_slot : Device → Bool
holds_slot d = not d.is_blocked && not (is_some d.released_at)
