-- ===== src/Vouchers/Limit.antt =====
-- The device limit of a voucher.
use netcam.Database.{Client, IsPrisma, client-eq, list_client}
use netcam.Vouchers.Slots.{
  in_use, IsKeyed, with_mac, in_use-returned, in_use-seen, in_use-snoc, ids-released, IsOut,
  holders-in_use, in_use-picked,
}
use netcam.Prelude.{
  ◌≤◌, max, ◌≡◌, inl, inr, Option, none, some, arith, Text, select, find, Option-cases, ℕ, suc,
  refl, length, count_if, Result, ok, err, ltb, Bool-cases, same, ◌>>=◌, ◌>>◌, Result-cases,
}
use netcam.Vouchers.{Voucher, Device, Hall, Outside, has_id, Error, normalize_code}
use netcam.Vouchers.Redeem.{
  RedeemInput, stalest_first, holds, new_device, may_go, take_slot, bind_device, free_slot_if_full,
  activate, connect, redeem_voucher, redeem,
}
use netcam.Prelude.Strings.{upper}

-- No more slots than the limit, or than there were.
abbrev pub Fits : Voucher → Hall → Hall → Type 0
Fits v b c = in_use v.id c.devices ≤ max v.pkg.device_limit (in_use v.id b.devices)

-- Room for one more: the step failed, or leaves a slot free under the limit or under the old count.
abbrev HasRoom : Voucher → Hall → Result Error (Unit {0}) → Hall → Type 0
HasRoom v b (err e) c = Fits v b c
HasRoom v b (ok _) c =
    (suc (in_use v.id c.devices) ≤ max v.pkg.device_limit (in_use v.id b.devices))
    × ((i : ℕ) → count_if (has_id i) c.devices ≡ count_if (has_id i) b.devices)

module _ (out : Outside) (v : Voucher) (mac : Text) (dto : RedeemInput) (b : Hall) where
  free_slot_if_full_lem :
      length (select (holds v.id mac) b.devices) ≡ in_use v.id b.devices
      → let r = free_slot_if_full list_client out v mac b in HasRoom v b r.0 r.1
  unfolding free_slot_if_full
  free_slot_if_full_lem counted =
      let holders = select (holds v.id mac) b.devices in
      elim (Bool-cases (ltb (length holders) v.pkg.device_limit)) [
        | inl room ↦ rw (free_slot_if_full, room) (ground (arith, room, counted), λ i. refl)
        | inr crowded ↦
            elim (Option-cases (find (may_go list_client out b) (stalest_first holders))) [
              | inl stuck ↦ rw (free_slot_if_full, crowded, stuck) (ground arith)
              | inr (old, found) ↦
                  rw (free_slot_if_full, crowded, found)
                    (
                      ground (
                        arith,
                        in_use-picked v.id out.now mac (may_go list_client out b) b.devices old
                            found,
                      ),
                      λ i. ids-released old.id i out.now b.devices,
                    )
            ]
      ]

  abbrev freed : Result Error (Unit {0}) × Hall
  freed = free_slot_if_full list_client out v mac b

  taken_lem :
      (device : Option Device) (r : Result Error (Unit {0}))
      → freed.0 ≡ r
      → HasRoom v b r freed.1
      → IsKeyed v.id mac b.devices
      → Fits v b (take_slot list_client out v mac dto device b).1
  unfolding take_slot
  taken_lem device (err e) same_result h keyed = rw (take_slot, ◌>>◌, ◌>>=◌, same_result) h
  taken_lem none (ok u) same_result (room, ids) keyed =
      rw (take_slot, ◌>>◌, ◌>>=◌, same_result)
        (omega (arith, room, in_use-snoc v.id freed.1.devices (new_device out v mac dto)))
  taken_lem (some d) (ok u) same_result (room, ids) keyed =
      rw (take_slot, ◌>>◌, ◌>>=◌, same_result)
        (omega (
          arith,
          room,
          ids d.id,
          keyed.ids d.id,
          in_use-returned v.id d.id out.now dto freed.1.devices,
        ))

  take_slot_lem :
      (device : Option Device)
      → IsKeyed v.id mac b.devices
      → find (with_mac v.id mac) b.devices ≡ device
      → IsOut device
      → Fits v b (take_slot list_client out v mac dto device b).1
  take_slot_lem device keyed same_device is_out =
      let counted = holders-in_use v.id mac b.devices keyed (rw same_device is_out) in
      taken_lem device _ refl (free_slot_if_full_lem counted) keyed

  bind_device_lem :
      IsKeyed v.id mac b.devices → Fits v b (bind_device list_client out v mac dto b).1
  unfolding bind_device
  bind_device_lem keyed = elim (Option-cases (find (with_mac v.id mac) b.devices)) [
    | inl missing ↦ rw (bind_device, missing) (take_slot_lem none keyed missing tt)
    | inr (d, found) ↦ ground (
      arith,
      found,
      in_use-seen v.id d.id out.now dto b.devices,
      take_slot_lem (some d) keyed found,
    )
  ]

pub activate-devices :
    (out : Outside) (v : Voucher) (b : Hall) → (activate list_client out v b).1.devices ≡ b.devices
unfolding activate
activate-devices out v b = ground arith

pub connect-devices :
    (out : Outside) (v : Voucher) (mac : Text) (dto : RedeemInput) (router : Option Text) (d : ℕ)
    → (end : Option ℕ) (b : Hall)
    → (connect list_client out v mac dto router d end b).1.devices ≡ b.devices
unfolding connect
connect-devices out v mac dto router d end b = refl

module _ (out : Outside) (v : Voucher) (dto : RedeemInput) (router : Option Text) (b : Hall) where
  abbrev pub bound : Result Error ℕ × Hall
  bound = bind_device list_client out v (upper dto.mac_address) dto b

  bound_lem :
      (r : Result Error ℕ)
      → bound.0 ≡ r
      → Fits v b bound.1
      → Fits v b (redeem_voucher list_client out v dto router b).1
  unfolding redeem_voucher
  bound_lem (err e) same_result h = rw (redeem_voucher, ◌>>=◌, same_result) h
  bound_lem (ok d) same_result h =
      let same_devices = activate-devices out v bound.1 in
      elim (Result-cases (activate list_client out v bound.1).0) [
        | inr (e, late) ↦ rw (redeem_voucher, ◌>>=◌, same_result, late, same_devices) h
        | inl (end, started) ↦
            let after = (activate list_client out v bound.1).1 in
            let connected = connect-devices out v (upper dto.mac_address) dto router d end after in
            rw (redeem_voucher, ◌>>=◌, same_result, started, connected, same_devices) h
      ]

  redeem_voucher_lem :
      IsKeyed v.id (upper dto.mac_address) b.devices
      → Fits v b (redeem_voucher list_client out v dto router b).1
  redeem_voucher_lem keyed =
      bound_lem _ refl (bind_device_lem out v (upper dto.mac_address) dto b keyed)

  pub redeem_lem :
      find (λ w. same w.code (normalize_code dto.voucher_code)) b.vouchers ≡ some v
      → IsKeyed v.id (upper dto.mac_address) b.devices
      → Fits v b (redeem list_client out dto router b).1
  unfolding redeem
  redeem_lem found keyed = rw (redeem, found) (ground (arith, redeem_voucher_lem keyed))

-- Redeeming a voucher, whether or not it succeeds, never leaves more devices holding a slot on it
-- than its limit allows, or than held one before; device ids, and the MACs on a voucher, being
-- unique.
pub in_use-redeem :
    (db : Client)
    → IsPrisma db
    → (out : Outside) (v : Voucher) (dto : RedeemInput) (router : Option Text) (b : Hall)
    → find (λ w. same w.code (normalize_code dto.voucher_code)) b.vouchers ≡ some v
    → IsKeyed v.id (upper dto.mac_address) b.devices
    → in_use v.id (redeem db out dto router b).1.devices
      ≤ max v.pkg.device_limit (in_use v.id b.devices)
in_use-redeem db lawful out v dto router b found keyed =
    rw (client-eq db lawful) (redeem_lem out v dto router b found keyed)
