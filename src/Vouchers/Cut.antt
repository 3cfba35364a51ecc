-- ===== src/Vouchers/Cut.antt =====
-- What is left after the minutely sweep: no active voucher past its end, and no session that is open
-- on a voucher that is not active.
use netcam.Database.{Client, IsPrisma, client-eq, list_client}
use netcam.Prelude.{
  ℕ, ◌≤◌, ◌≡◌, refl, ap, Bool, false, ◌&&◌, not, List, [], ◌∷◌, arith, any, select, count_if, patch,
  ◌==◌, true, if◌then◌else◌, is_some,
}
use netcam.Vouchers.{
  VoucherStatus, Voucher, Device, Session, Hall, Outside, ended, call, is_for, expired, depleted,
  revoke,
}
use netcam.Vouchers.Switches.{
  has_voucher_id, with_status, revoke_all, is_active, is_overdue, is_over_cap, retire, retire_all,
  deplete_all, is_orphaned, expire_overdue,
}

revoke_all-vouchers : (ds : List Device) (b : Hall) → (revoke_all ds b).vouchers ≡ b.vouchers
revoke_all-vouchers [] b = refl
revoke_all-vouchers (d ∷ ds) b = revoke_all-vouchers ds (call (revoke d.mac_address) b)

-- The vouchers that are overdue and not among `xs`.
abbrev missed : ℕ → List Voucher → Voucher → Bool
missed now xs v = is_overdue now v && not (any (λ x. x.id == v.id) xs)

missed-cons :
    (now : ℕ) (x : Voucher) (xs vs : List Voucher) (s : VoucherStatus)
    → is_active (with_status s x) ≡ false
    → count_if (missed now xs) (patch (has_voucher_id x.id) (with_status s) vs)
      ≤ count_if (missed now (x ∷ xs)) vs
missed-cons now x xs [] s h = omega arith
missed-cons now x xs (v ∷ vs) s h = ground (arith, h, missed-cons now x xs vs s h)

missed-none :
    (now : ℕ) (vs : List Voucher) → count_if (missed now []) vs ≡ count_if (is_overdue now) vs
missed-none now [] = refl
missed-none now (v ∷ vs) = ground (arith, missed-none now vs)

retire-vouchers :
    (out : Outside) (s : VoucherStatus) (id : ℕ) (b : Hall)
    → (retire list_client out s id b).vouchers
      ≡ patch (has_voucher_id id) (with_status s) b.vouchers
unfolding retire
retire-vouchers out s id b = revoke_all-vouchers (select (is_for id) b.devices) _

overdue-retire_all :
    (out : Outside) (xs : List Voucher) (b : Hall)
    → count_if (is_overdue out.now) (retire_all list_client out expired xs b).vouchers
      ≤ count_if (missed out.now xs) b.vouchers
overdue-retire_all out [] b = omega (arith, missed-none out.now b.vouchers)
overdue-retire_all out (x ∷ xs) b =
    let c = retire list_client out expired x.id b in
    omega (
      arith,
      overdue-retire_all out xs c,
      ap (count_if (missed out.now xs)) (retire-vouchers out expired x.id b),
      missed-cons out.now x xs b.vouchers expired refl,
    )

missed-weaken :
    (now : ℕ) (x : Voucher) (xs vs : List Voucher)
    → count_if (missed now (x ∷ xs)) vs ≤ count_if (missed now xs) vs
missed-weaken now x xs [] = omega arith
missed-weaken now x xs (v ∷ vs) = ground (arith, missed-weaken now x xs vs)

missed-select :
    (now : ℕ) (vs : List Voucher) → count_if (missed now (select (is_overdue now) vs)) vs ≡ 0
missed-select now [] = refl
missed-select now (v ∷ vs) =
    ground (arith, missed-select now vs, missed-weaken now v (select (is_overdue now) vs) vs)

overdue-retired :
    (now : ℕ) (id : ℕ) (s : VoucherStatus) (vs : List Voucher)
    → ((v : Voucher) → is_active (with_status s v) ≡ false)
    → count_if (is_overdue now) (patch (has_voucher_id id) (with_status s) vs)
      ≤ count_if (is_overdue now) vs
overdue-retired now id s [] h = omega arith
overdue-retired now id s (v ∷ vs) h = ground (arith, h v, overdue-retired now id s vs h)

overdue-swept :
    (out : Outside) (x : Voucher) (b : Hall) (over : Bool)
    → let c = if over then retire list_client out depleted x.id b else b in
      count_if (is_overdue out.now) c.vouchers ≤ count_if (is_overdue out.now) b.vouchers
overdue-swept out x b false = omega arith
overdue-swept out x b true = omega (
  arith,
  ap (count_if (is_overdue out.now)) (retire-vouchers out depleted x.id b),
  overdue-retired out.now x.id depleted b.vouchers (λ v. refl),
)

overdue-deplete_all :
    (out : Outside) (xs : List Voucher) (b : Hall)
    → count_if (is_overdue out.now) (deplete_all list_client out xs b).vouchers
      ≤ count_if (is_overdue out.now) b.vouchers
overdue-deplete_all out [] b = omega arith
overdue-deplete_all out (x ∷ xs) b =
    let c = if is_over_cap x then retire list_client out depleted x.id b else b in
    omega (arith, overdue-deplete_all out xs c, overdue-swept out x b (is_over_cap x))

orphans-ended :
    (now : ℕ) (vs : List Voucher) (ss : List Session)
    → count_if (is_orphaned list_client vs) (patch (is_orphaned list_client vs) (ended now) ss) ≡ 0
orphans-ended now vs [] = refl
orphans-ended now vs (s ∷ ss) = ground (arith, orphans-ended now vs ss)

expire_overdue_lem :
    (out : Outside) (b : Hall)
    → let c = expire_overdue list_client out b in
      (count_if (is_overdue out.now) c.vouchers ≡ 0)
      × (count_if (is_orphaned list_client c.vouchers) c.sessions ≡ 0)
unfolding expire_overdue
expire_overdue_lem out b =
    let late = select (is_overdue out.now) b.vouchers in
    let b1 = retire_all list_client out expired late b in
    let capped = select (λ v. is_active v && is_some v.pkg.data_cap_mb) b1.vouchers in
    let b2 = deplete_all list_client out capped b1 in
    (
      omega (
        arith,
        overdue-deplete_all out capped b1,
        overdue-retire_all out late b,
        missed-select out.now b.vouchers,
      ),
      orphans-ended out.now b2.vouchers b2.sessions,
    )

-- After the sweep, no active voucher is past its end, and no session is open on a voucher that is
-- not active.
pub expire_overdue_sweeps :
    (db : Client)
    → IsPrisma db
    → (out : Outside) (b : Hall)
    → let c = expire_overdue db out b in
      (count_if (is_overdue out.now) c.vouchers ≡ 0)
      × (count_if (is_orphaned db c.vouchers) c.sessions ≡ 0)
expire_overdue_sweeps db lawful out b = rw (client-eq db lawful) (expire_overdue_lem out b)
