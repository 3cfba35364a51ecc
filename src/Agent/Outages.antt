-- ===== src/Agent/Outages.antt =====
-- The alerts of an outage: one when it has lasted, one when it is over.
use netcam.Prelude.{
  ◌+◌, ◌≤◌, ◌≡◌, refl, Bool, true, false, ◌||◌, not, List, [], ◌∷◌, ◌++◌, arith, count_if, leb,
  if◌then◌else◌, ℕ, none, some, inl, inr, Option-cases,
}
use netcam.Agent.Health.{
  HealthAlert, Reading, Health, raise, check_power, check_internet, check_api, check_disk,
  check_temperature, internet_back, internet_down, api_recovered, api_down, disk_full, overheating,
  battery_level, check_mains, check_battery, check, check_all, booted, power_restored, power_cut,
  battery,
}

abbrev is_internet_down : HealthAlert → Bool
is_internet_down internet_down = true
is_internet_down _ = false

abbrev is_internet_back : HealthAlert → Bool
is_internet_back internet_back = true
is_internet_back _ = false

abbrev is_api_down : HealthAlert → Bool
is_api_down api_down = true
is_api_down _ = false

abbrev is_api_recovered : HealthAlert → Bool
is_api_recovered api_recovered = true
is_api_recovered _ = false

-- Every outage that was announced is over or lasts, and was announced once.
pub record IsPaired (h : Health) : Type 0 where
  pub internet :
      count_if is_internet_down h.raised
      ≡ count_if is_internet_back h.raised + (if h.internet_up then 0 else 1)
  pub internet_lasted : h.internet_up ≡ false → 2 ≤ h.internet_failures
  pub api :
      count_if is_api_down h.raised
      ≡ count_if is_api_recovered h.raised + (if leb 4 h.api_failures then 1 else 0)

count_if-snoc :
    (p : HealthAlert → Bool) (sent : List HealthAlert) (a : HealthAlert)
    → count_if p (sent ++ a ∷ []) ≡ count_if p sent + (if p a then 1 else 0)
count_if-snoc p [] a = ground arith
count_if-snoc p (x ∷ sent) a = ground (arith, count_if-snoc p sent a)

check_internet-IsPaired : (r : Reading) (h : Health) → IsPaired h → IsPaired (check_internet r h)
unfolding check_internet
check_internet-IsPaired r h k = record {
  internet = ground (
    arith,
    k.internet,
    count_if-snoc is_internet_down h.raised internet_down,
    count_if-snoc is_internet_down h.raised internet_back,
    count_if-snoc is_internet_back h.raised internet_down,
    count_if-snoc is_internet_back h.raised internet_back,
  );
  internet_lasted = ground (arith, k.internet_lasted);
  api = ground (
    arith,
    k.api,
    count_if-snoc is_api_down h.raised internet_down,
    count_if-snoc is_api_down h.raised internet_back,
    count_if-snoc is_api_recovered h.raised internet_down,
    count_if-snoc is_api_recovered h.raised internet_back,
  );
}

check_api-IsPaired : (r : Reading) (h : Health) → IsPaired h → IsPaired (check_api r h)
unfolding check_api
check_api-IsPaired r h k = record {
  internet = ground (
    arith,
    k.internet,
    count_if-snoc is_internet_down h.raised api_down,
    count_if-snoc is_internet_down h.raised api_recovered,
    count_if-snoc is_internet_back h.raised api_down,
    count_if-snoc is_internet_back h.raised api_recovered,
  );
  internet_lasted = ground (arith, k.internet_lasted);
  api = ground (
    arith,
    k.api,
    count_if-snoc is_api_down h.raised api_down,
    count_if-snoc is_api_down h.raised api_recovered,
    count_if-snoc is_api_recovered h.raised api_down,
    count_if-snoc is_api_recovered h.raised api_recovered,
  );
}

-- An alert about something else.
abbrev is_other : HealthAlert → Bool
is_other a = not (is_internet_down a || is_internet_back a || is_api_down a || is_api_recovered a)

raise-IsPaired :
    (a : HealthAlert) (h : Health) → is_other a ≡ true → IsPaired h → IsPaired (raise a h)
raise-IsPaired a h apart k = record {
  internet = ground (
    arith,
    apart,
    k.internet,
    count_if-snoc is_internet_down h.raised a,
    count_if-snoc is_internet_back h.raised a,
  );
  internet_lasted = k.internet_lasted;
  api = ground (
    arith,
    apart,
    k.api,
    count_if-snoc is_api_down h.raised a,
    count_if-snoc is_api_recovered h.raised a,
  );
}

check_disk-IsPaired : (r : Reading) (h : Health) → IsPaired h → IsPaired (check_disk r h)
unfolding check_disk
check_disk-IsPaired r h k = ground (arith, k, raise-IsPaired disk_full h refl k)

check_temperature-IsPaired :
    (r : Reading) (h : Health) → IsPaired h → IsPaired (check_temperature r h)
unfolding check_temperature
check_temperature-IsPaired r h k = ground (arith, k, raise-IsPaired overheating h refl k)

check_mains-IsPaired : (r : Reading) (h : Health) → IsPaired h → IsPaired (check_mains r h)
unfolding check_mains
check_mains-IsPaired r h k =
    ground (arith, k, raise-IsPaired power_cut h refl k, raise-IsPaired power_restored h refl k)

check_battery-IsPaired : (r : Reading) (h : Health) → IsPaired h → IsPaired (check_battery r h)
unfolding check_battery
check_battery-IsPaired r h k = elim (Option-cases r.power.battery_percent) [
  | inl unknown ↦ ground (arith, unknown, k)
  | inr (percent, known) ↦ elim (Option-cases (battery_level percent)) [
    | inl enough ↦ ground (arith, known, enough, k)
    | inr (level, low) ↦
        ground (arith, known, low, k, raise-IsPaired (battery percent level) h refl k)
  ]
]

check_power-IsPaired : (r : Reading) (h : Health) → IsPaired h → IsPaired (check_power r h)
unfolding check_power
check_power-IsPaired r h k =
    let done = check_battery-IsPaired r (check_mains r h) (check_mains-IsPaired r h k) in
    record { internet = done.internet; internet_lasted = done.internet_lasted; api = done.api }

check_all-IsPaired : (rs : List Reading) (h : Health) → IsPaired h → IsPaired (check_all rs h)
unfolding check_all check
check_all-IsPaired [] h k = k
check_all-IsPaired (r ∷ rs) h k =
    let h1 = check_power r h in
    let h2 = check_internet r h1 in
    let h3 = check_api r h2 in
    let h4 = check_disk r h3 in
    let k2 = check_internet-IsPaired r h1 (check_power-IsPaired r h k) in
    let k4 = check_disk-IsPaired r h3 (check_api-IsPaired r h2 k2) in
    check_all-IsPaired rs (check_temperature r h4) (check_temperature-IsPaired r h4 k4)

booted-IsPaired : IsPaired booted
booted-IsPaired = record { internet = refl; internet_lasted = λ e. ground arith; api = refl }

-- Whatever the gateway reads from its start on: every outage of the internet or of the API that
-- was announced has been announced as over, but for the one that lasts; and the internet is taken
-- as down only after two failed checks in a row.
pub check_all_pairs : (rs : List Reading) → IsPaired (check_all rs booted)
check_all_pairs rs = check_all-IsPaired rs booted booted-IsPaired

-- The level of a battery alert is 30, however empty the battery is.
battery_level_lem :
    (percent : ℕ) → battery_level percent ≡ (if leb percent 30 then some 30 else none)
unfolding battery_level
battery_level_lem percent = ground arith
