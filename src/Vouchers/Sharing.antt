-- ===== src/Vouchers/Sharing.antt =====
-- Logging in without a code keeps to the device limits.
use netcam.Database.{Client, IsPrisma, list_client, client-eq}
use netcam.Prelude.Strings.{upper, upper-upper, same_eq, trimmed, lower}
use netcam.Prelude.{
  ℕ, ◌≤◌, max, ◌≡◌, refl, inl, inr, true, Option, some, List, [], ◌∷◌, ◌++◌, arith, Text, same, any,
  select, count_if, find, patch, All, ◌>>=◌, ◌==◌, Bool-cases, Option-cases, Result-cases, or_else,
}
use netcam.Vouchers.{Voucher, Device, Hall, Outside, is_of, has_id, device_mac_handover}
use netcam.Vouchers.Redeem.{RedeemInput, released_row, release_device, redeem}
use netcam.Vouchers.Slots.{in_use, with_mac, IsKeyed, ids-released}
use netcam.Vouchers.Others.{in_use-released_row, redeem_any}
use netcam.Vouchers.Login.{
  DeviceContext, generic_hostnames, input_for, latest_seen, first_pair, router_of, voucher_of,
  known_device, logged_row, log_in_known, paid_voucher, redeem_for, is_candidate, may_hand_over,
  hand_over_changed_mac, auto_login,
}

-- The keys of the table, for every voucher.
abbrev AreKeyed : Text → List Device → Type 0
AreKeyed mac ds = (j : ℕ) → IsKeyed j mac ds

macs-released :
    (i j now : ℕ) (mac : Text) (ds : List Device)
    → count_if (with_mac j mac) (patch (has_id i) (released_row now) ds)
      ≡ count_if (with_mac j mac) ds
macs-released i j now mac [] = refl
macs-released i j now mac (d ∷ ds) = ground (arith, macs-released i j now mac ds)

keyed-released :
    (i now : ℕ) (mac : Text) (ds : List Device)
    → AreKeyed mac ds
    → AreKeyed mac (patch (has_id i) (released_row now) ds)
keyed-released i now mac ds h j = record {
  ids = λ (l : ℕ). omega (arith, (h j).ids l, ids-released i l now ds);
  macs = omega (arith, (h j).macs, macs-released i j now mac ds);
}

in_use-logged :
    (k i : ℕ) (out : Outside) (ctx : DeviceContext) (ds : List Device)
    → in_use k (patch (has_id i) (logged_row list_client out ctx) ds) ≡ in_use k ds
in_use-logged k i out ctx [] = refl
in_use-logged k i out ctx (d ∷ ds) = ground (arith, in_use-logged k i out ctx ds)

redeem_for-devices :
    (out : Outside) (v : Voucher) (input : RedeemInput) (router : Option Text) (b : Hall)
    → (redeem_for list_client out v input router b).1.devices
      ≡ (redeem list_client out input router b).1.devices
unfolding redeem_for
redeem_for-devices out v input router b =
    elim (Result-cases (redeem list_client out input router b).0) [
      | inl (c, done) ↦ rw (redeem_for, ◌>>=◌, done) refl
      | inr (e, failed) ↦ rw (redeem_for, ◌>>=◌, failed) refl
    ]

abbrev HasLimit : ℕ → ℕ → List Voucher → Type 0
HasLimit k limit vs = All (λ v. (v.id == k) ≡ true → v.pkg.device_limit ≤ limit) vs

module _ (k limit : ℕ) (out : Outside) (ctx : DeviceContext) (b : Hall) where
  abbrev mac : Text
  mac = upper ctx.mac_address

  redeem_for_lem :
      (v : Voucher) (host : Option Text) (code : Text) (router : Option Text) (c : Hall)
      → HasLimit k limit c.vouchers
      → AreKeyed mac c.devices
      → in_use k (redeem_for list_client out v (input_for code mac ctx host) router c).1.devices
        ≤ max limit (in_use k c.devices)
  redeem_for_lem v host code router c limits keyed =
      let input = input_for code mac ctx host in
      let e : mac ≡ upper mac =
        same_eq (upper ctx.mac_address) (upper mac) (upper-upper ctx.mac_address) in
      rw (redeem_for-devices out v input router c)
        (redeem_any k limit out input router c limits (rw e at keyed))

  hand_over_lem :
      HasLimit k limit b.vouchers
      → AreKeyed mac b.devices
      → in_use k (hand_over_changed_mac list_client out ctx mac b).1.devices
        ≤ max limit (in_use k b.devices)
  unfolding hand_over_changed_mac release_device
  hand_over_lem limits keyed = elim (Option-cases (trimmed ctx.hostname)) [
    | inl nameless ↦ rw (hand_over_changed_mac, nameless) (omega arith)
    | inr (host, named) ↦ elim (Bool-cases (any (same (lower host)) generic_hostnames)) [
      | inl common ↦ rw (hand_over_changed_mac, named, common) (omega arith)
      | inr special ↦
          let candidates =
            latest_seen (select (is_candidate list_client out mac host b) b.devices) in
          let chosen =
            first_pair (voucher_of list_client b) (may_hand_over list_client out b) candidates in
          elim (Option-cases chosen) [
            | inl no_one ↦ rw (hand_over_changed_mac, named, special, no_one) (omega arith)
            | inr (pair, found) ↦
                let old = pair.0 in
                let router = or_else ctx.router_id (router_of (find (is_of old.id) b.sessions)) in
                let free = release_device list_client out old b in
                let c = record free {
                  audits = free.audits ++ (device_mac_handover, old.voucher_id) ∷ [];
                } in
                rw (hand_over_changed_mac, named, special, found)
                  (omega (
                    arith,
                    redeem_for_lem pair.1 (some host) pair.1.code router c limits
                        (keyed-released old.id out.now mac b.devices keyed),
                    in_use-released_row k old.id out.now b.devices,
                  ))
          ]
    ]
  ]

  auto_login_lem :
      HasLimit k limit b.vouchers
      → AreKeyed mac b.devices
      → in_use k (auto_login list_client out ctx b).1.devices ≤ max limit (in_use k b.devices)
  unfolding auto_login log_in_known
  auto_login_lem limits keyed = elim (Option-cases (known_device list_client out mac b)) [
    | inr (pair, known) ↦
        rw (auto_login, known) (omega (arith, in_use-logged k pair.0.id out ctx b.devices))
    | inl new ↦ elim (Option-cases (paid_voucher list_client mac b)) [
      | inr (pair, paid) ↦
          rw (auto_login, new, paid)
            (redeem_for_lem pair.1 ctx.hostname pair.1.code (or_else ctx.router_id pair.0.router_id)
              b limits keyed)
      | inl unpaid ↦ rw (auto_login, new, unpaid) (hand_over_lem limits keyed)
    ]
  ]

-- Logging a device in without a code, whether it is known, has paid, or takes over the slot of an old
-- MAC, never leaves more devices holding a slot on a voucher than the voucher's limit allows, or than
-- held one before; device ids, and the MACs on a voucher, being unique.
pub in_use-auto_login :
    (db : Client)
    → IsPrisma db
    → (k limit : ℕ) (out : Outside) (ctx : DeviceContext) (b : Hall)
    → All (λ v. (v.id == k) ≡ true → v.pkg.device_limit ≤ limit) b.vouchers
    → ((j : ℕ) → IsKeyed j (upper ctx.mac_address) b.devices)
    → in_use k (auto_login db out ctx b).1.devices ≤ max limit (in_use k b.devices)
in_use-auto_login db lawful k limit out ctx b limits keyed =
    rw (client-eq db lawful) (auto_login_lem k limit out ctx b limits keyed)
