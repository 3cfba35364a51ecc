-- ===== src/Vouchers/Switches.antt =====
-- `VouchersService.suspend` and `setDeviceBlocked`, and `SessionsService.expireOverdue` of
-- apps/api/src/sessions/sessions.service.ts.
use netcam.Database.{Client}
use netcam.Prelude.{
  ℕ, Bool, true, false, ◌&&◌, not, none, some, List, [], ◌∷◌, ◌++◌, Action, pure, throw, ltb, leb,
  ◌==◌, if◌then◌else◌, is_some,
}
use netcam.Vouchers.{
  VoucherStatus, Voucher, Device, Session, AuditAction, Hall, Outside, Error, is_open, is_of, ended,
  call, has_id, is_for, active, expired, depleted, suspended, revoke, voucher_suspended,
  device_blocked, device_unblocked, no_voucher, no_device,
}

abbrev pub of_voucher : ℕ → Session → Bool
of_voucher voucher s = s.voucher_id == voucher && is_open s

abbrev pub has_voucher_id : ℕ → Voucher → Bool
has_voucher_id id v = v.id == id

abbrev pub with_status : VoucherStatus → Voucher → Voucher
with_status s v = record v { status = s }

abbrev pub blocked_row : Bool → Device → Device
blocked_row is_blocked d = record d { is_blocked = is_blocked }

abbrev pub audit : AuditAction → ℕ → Hall → Hall
audit a id b = record b { audits = b.audits ++ (a, id) ∷ [] }

-- `for (const device of devices) await revoke(device)`
abbrev pub revoke_all : List Device → Hall → Hall
revoke_all [] b = b
revoke_all (d ∷ ds) b = revoke_all ds (call (revoke d.mac_address) b)

abbrev pub is_active : Voucher → Bool
is_active v = elim v.status [ active ↦ true | _ ↦ false ]

abbrev pub is_overdue : ℕ → Voucher → Bool
is_overdue now v = is_active v && elim v.expires_at [ none ↦ false | some end ↦ ltb end now ]

abbrev pub is_over_cap : Voucher → Bool
is_over_cap v = elim v.pkg.data_cap_mb [ none ↦ false | some cap ↦ leb cap v.data_used_mb ]

module _ (db : Client) where
  -- A status for the voucher, an end for its sessions, and its devices are cut off.
  unfoldable pub retire : Outside → VoucherStatus → ℕ → Hall → Hall
  retire out s id b = revoke_all (db.find_many Device (is_for id) b.devices) (record b {
    vouchers = (db.update_many Voucher (has_voucher_id id) (with_status s) b.vouchers).0;
    sessions = (db.update_many Session (of_voucher id) (ended out.now) b.sessions).0;
  })

  unfoldable pub suspend : Outside → ℕ → Action Hall Error (Unit {0})
  unfolding retire
  suspend out id b = elim (db.find_first Voucher (has_voucher_id id) b.vouchers) [
    | none ↦ throw no_voucher b
    | some v ↦ pure tt (audit voucher_suspended id (retire out suspended id b))
  ]

  unfoldable pub set_device_blocked :
      Outside → (voucher device : ℕ) → Bool → Action Hall Error (Unit {0})
  set_device_blocked out voucher device is_blocked b =
      elim (db.find_first Device (has_id device) b.devices) [
        | none ↦ throw no_device b
        | some d ↦
            if not (d.voucher_id == voucher)
            then throw no_device b
            else (let marked = record b {
              devices =
                  (db.update_many Device (has_id device) (blocked_row is_blocked) b.devices).0;
            } in
                if is_blocked
                then pure tt (
                    audit device_blocked device (
                      call (revoke d.mac_address) (record marked {
                        sessions =
                            (db.update_many Session (is_of device) (ended out.now) b.sessions).0;
                      })))
                else pure tt (audit device_unblocked device marked))
      ]

  abbrev pub retire_all : Outside → VoucherStatus → List Voucher → Hall → Hall
  retire_all out s [] b = b
  retire_all out s (v ∷ vs) b = retire_all out s vs (retire out s v.id b)

  -- The loop skips the vouchers that are under their cap.
  abbrev pub deplete_all : Outside → List Voucher → Hall → Hall
  deplete_all out [] b = b
  deplete_all out (v ∷ vs) b =
      deplete_all out vs (if is_over_cap v then retire out depleted v.id b else b)

  -- The session is open, and its voucher is not active.
  abbrev pub is_orphaned : List Voucher → Session → Bool
  is_orphaned vs s =
      is_open s
      && is_some (db.find_first Voucher (λ v. v.id == s.voucher_id && not (is_active v)) vs)

  unfoldable pub expire_overdue : Outside → Hall → Hall
  unfolding retire
  expire_overdue out b =
      let b1 = retire_all out expired (db.find_many Voucher (is_overdue out.now) b.vouchers) b in
      let capped = λ (v : Voucher). is_active v && is_some v.pkg.data_cap_mb in
      let b2 = deplete_all out (db.find_many Voucher capped b1.vouchers) b1 in
      record b2 {
        sessions = (db.update_many Session (is_orphaned b2.vouchers) (ended out.now) b2.sessions).0;
      }
