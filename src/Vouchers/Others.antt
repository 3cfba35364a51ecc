-- ===== src/Vouchers/Others.antt =====
-- Redeeming a voucher takes no slot of another voucher.
use netcam.Database.{list_client}
use netcam.Prelude.{
  ℕ, ◌≤◌, ◌≡◌, refl, inl, inr, Bool, true, false, Option, none, some, List, [], ◌∷◌, ◌++◌, arith,
  Text, length, select, count_if, find, patch, All, Result, ok, err, ◌>>=◌, ◌>>◌, ltb, ◌==◌,
  Bool-cases, Option-cases, max, ◌∙◌, same, Result-cases,
}
use netcam.Vouchers.{Voucher, Device, Hall, Outside, Error, has_id, is_for, normalize_code}
use netcam.Vouchers.Redeem.{
  RedeemInput, stalest_first, holds, released_row, returned_row, new_device, release_device, may_go,
  free_slot_if_full, take_slot, bind_device, activate, redeem_voucher, redeem,
}
use netcam.Vouchers.Slots.{in_use, with_mac, IsKeyed, in_use-seen}
use netcam.Vouchers.Limit.{activate-devices, connect-devices, bound, redeem_lem}
use netcam.Prelude.Strings.{upper}

module _ (k : ℕ) where
  pub in_use-released_row :
      (i now : ℕ) (ds : List Device)
      → in_use k (patch (has_id i) (released_row now) ds) ≤ in_use k ds
  in_use-released_row i now [] = omega arith
  in_use-released_row i now (d ∷ ds) = ground (arith, in_use-released_row i now ds)

  -- The rows of this id are on the voucher `w`.
  abbrev AreOn : ℕ → ℕ → List Device → Type 0
  AreOn i w ds = All (λ d. has_id i d ≡ true → is_for w d ≡ true) ds

  on-released :
      (i w j now : ℕ) (ds : List Device)
      → AreOn i w ds
      → AreOn i w (patch (has_id j) (released_row now) ds)
  on-released i w j now [] h = tt
  on-released i w j now (d ∷ ds) (h, hs) = (
    elim (Bool-cases (has_id j d)) [ inl e ↦ rw e h | inr e ↦ rw e h ],
    on-released i w j now ds hs,
  )

  on-absent : (i w : ℕ) (ds : List Device) → count_if (has_id i) ds ≡ 0 → AreOn i w ds
  on-absent i w [] h = tt
  on-absent i w (d ∷ ds) h =
      (λ (q : has_id i d ≡ true). ground (arith, h, q), on-absent i w ds (ground (arith, h)))

  found-counts :
      (p : Device → Bool) (ds : List Device) (d : Device)
      → find p ds ≡ some d
      → 1 ≤ count_if (has_id d.id) ds
  found-counts p [] d h = ground (arith, h)
  found-counts p (x ∷ ds) d h = elim (Bool-cases (p x)) [
    | inl here ↦ let e : x ≡ d = ground (arith, h, here) in rw e (ground arith)
    | inr later ↦ ground (arith, found-counts p ds d (ground (arith, h, later)))
  ]

  on-found :
      (w : ℕ) (mac : Text) (ds : List Device) (d : Device)
      → count_if (has_id d.id) ds ≤ 1
      → find (with_mac w mac) ds ≡ some d
      → AreOn d.id w ds
  on-found w mac [] d one h = tt
  on-found w mac (x ∷ ds) d one h = elim (Bool-cases (with_mac w mac x)) [
    | inl here ↦
        let e : x ≡ d = ground (arith, h, here) in
        (
          λ (q : has_id d.id x ≡ true). ground (arith, here),
          on-absent d.id w ds
              (let at : has_id d.id x ≡ true = rw e (ground arith) in ground (arith, one, at)),
        )
    | inr later ↦
        let rest : find (with_mac w mac) ds ≡ some d = ground (arith, h, later) in
        let twice = found-counts (with_mac w mac) ds d rest in
        (
          λ (q : has_id d.id x ≡ true). ground (arith, one, twice, q),
          on-found w mac ds d (ground (arith, one)) rest,
        )
  ]

  in_use-other :
      (i w now : ℕ) (dto : RedeemInput) (ds : List Device)
      → (w == k) ≡ false
      → AreOn i w ds
      → in_use k (patch (has_id i) (returned_row now dto) ds) ≡ in_use k ds
  in_use-other i w now dto [] other h = refl
  in_use-other i w now dto (d ∷ ds) other (h, hs) =
      ground (arith, other, h, in_use-other i w now dto ds other hs)

  in_use-new :
      (ds : List Device) (d : Device) → is_for k d ≡ false → in_use k (ds ++ d ∷ []) ≡ in_use k ds
  in_use-new [] d h = ground (arith, h)
  in_use-new (e ∷ ds) d h = ground (arith, in_use-new ds d h)

  module _ (out : Outside) (v : Voucher) (mac : Text) (dto : RedeemInput) (b : Hall) where
    abbrev freed : Result Error (Unit {0}) × Hall
    freed = free_slot_if_full list_client out v mac b

    freed_lem :
        (in_use k freed.1.devices ≤ in_use k b.devices)
        × ((i w : ℕ) → AreOn i w b.devices → AreOn i w freed.1.devices)
    unfolding free_slot_if_full release_device
    freed_lem =
        let holders = select (holds v.id mac) b.devices in
        elim (Bool-cases (ltb (length holders) v.pkg.device_limit)) [
          | inl room ↦ rw (free_slot_if_full, room) (omega arith, λ i w h. h)
          | inr crowded ↦
              elim (Option-cases (find (may_go list_client out b) (stalest_first holders))) [
                | inl stuck ↦ rw (free_slot_if_full, crowded, stuck) (omega arith, λ i w h. h)
                | inr (old, found) ↦
                    rw (free_slot_if_full, crowded, found)
                      (
                        in_use-released_row old.id out.now b.devices,
                        λ i w h. on-released i w old.id out.now b.devices h,
                      )
              ]
        ]

    take_slot_other :
        (v.id == k) ≡ false
        → (device : Option Device) → ((d : Device) → device ≡ some d → AreOn d.id v.id b.devices)
        → (r : Result Error (Unit {0})) → freed.0 ≡ r
        → in_use k (take_slot list_client out v mac dto device b).1.devices ≤ in_use k b.devices
    unfolding take_slot
    take_slot_other other device on (err e) same_result =
        rw (take_slot, ◌>>◌, ◌>>=◌, same_result) freed_lem.0
    take_slot_other other none on (ok u) same_result =
        rw (take_slot, ◌>>◌, ◌>>=◌, same_result)
          (omega (arith, freed_lem.0, in_use-new freed.1.devices (new_device out v mac dto) other))
    take_slot_other other (some d) on (ok u) same_result =
        rw (take_slot, ◌>>◌, ◌>>=◌, same_result)
          (omega (
            arith,
            freed_lem.0,
            in_use-other d.id v.id out.now dto freed.1.devices other
                (freed_lem.1 d.id v.id (on d refl)),
          ))

    bind_device_other :
        (v.id == k) ≡ false
        → ((i : ℕ) → count_if (has_id i) b.devices ≤ 1)
        → in_use k (bind_device list_client out v mac dto b).1.devices ≤ in_use k b.devices
    unfolding bind_device
    bind_device_other other ids = elim (Option-cases (find (with_mac v.id mac) b.devices)) [
      | inl missing ↦
          rw (bind_device, missing)
            (take_slot_other other none
              (λ d h. on-found v.id mac b.devices d (ids d.id) (missing ∙ h)) freed.0 refl)
      | inr (d, found) ↦
          let taken =
            take_slot_other other (some d)
              (λ e h. on-found v.id mac b.devices e (ids e.id) (found ∙ h)) freed.0 refl in
          ground (arith, found, in_use-seen k d.id out.now dto b.devices, taken)
    ]

module _ (k : ℕ) (out : Outside) (v : Voucher) (dto : RedeemInput) (router : Option Text)
    (b : Hall) where
  bound_other :
      (r : Result Error ℕ)
      → (bound out v dto router b).0 ≡ r
      → in_use k (bound out v dto router b).1.devices ≤ in_use k b.devices
      → in_use k (redeem_voucher list_client out v dto router b).1.devices ≤ in_use k b.devices
  unfolding redeem_voucher
  bound_other (err e) same_result h = rw (redeem_voucher, ◌>>=◌, same_result) h
  bound_other (ok d) same_result h =
      let after_bind = (bound out v dto router b).1 in
      let same_devices = activate-devices out v after_bind in
      elim (Result-cases (activate list_client out v after_bind).0) [
        | inr (e, late) ↦ rw (redeem_voucher, ◌>>=◌, same_result, late, same_devices) h
        | inl (end, started) ↦
            let after = (activate list_client out v after_bind).1 in
            let connected = connect-devices out v (upper dto.mac_address) dto router d end after in
            rw (redeem_voucher, ◌>>=◌, same_result, started, connected, same_devices) h
      ]

  redeem_voucher_other :
      (v.id == k) ≡ false
      → ((i : ℕ) → count_if (has_id i) b.devices ≤ 1)
      → in_use k (redeem_voucher list_client out v dto router b).1.devices ≤ in_use k b.devices
  redeem_voucher_other other ids =
      bound_other _ refl (bind_device_other k out v (upper dto.mac_address) dto b other ids)

found_limit :
    (k limit : ℕ) (code : Text) (vs : List Voucher) (v : Voucher)
    → All (λ v. (v.id == k) ≡ true → v.pkg.device_limit ≤ limit) vs
    → find (λ w. same w.code code) vs ≡ some v
    → (v.id == k) ≡ true
    → v.pkg.device_limit ≤ limit
found_limit k limit code [] v h found it = ground (arith, found)
found_limit k limit code (w ∷ vs) v (h, hs) found it = elim (Bool-cases (same w.code code)) [
  | inl here ↦ let e : w ≡ v = ground (arith, found, here) in (rw e at h) it
  | inr later ↦ found_limit k limit code vs v hs (ground (arith, found, later)) it
]

-- Redeeming a voucher, whichever it is, keeps to the limit of voucher `k`.
pub redeem_any :
    (k limit : ℕ) (out : Outside) (dto : RedeemInput) (router : Option Text) (b : Hall)
    → All (λ v. (v.id == k) ≡ true → v.pkg.device_limit ≤ limit) b.vouchers
    → ((j : ℕ) → IsKeyed j (upper dto.mac_address) b.devices)
    → in_use k (redeem list_client out dto router b).1.devices ≤ max limit (in_use k b.devices)
unfolding redeem
redeem_any k limit out dto router b limits keyed =
    elim (Option-cases (find (λ w. same w.code (normalize_code dto.voucher_code)) b.vouchers)) [
      | inl missing ↦ rw (redeem, missing) (omega arith)
      | inr (v, found) ↦ elim (Bool-cases (v.id == k)) [
        | inr other ↦
            rw (redeem, found)
              (ground (arith, redeem_voucher_other k out v dto router b other (keyed v.id).ids))
        | inl it ↦
            let bounded =
              found_limit k limit (normalize_code dto.voucher_code) b.vouchers v limits found it in
            let fits = redeem_lem out v dto router b found (keyed v.id) in
            let e : v.id ≡ k = ground (arith, it) in rw (← e) (omega (arith, fits, bounded))
      ]
    ]
