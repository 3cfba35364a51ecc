-- ===== src/Agent/Health.antt =====
-- apps/network-agent/src/host-health.ts: what the gateway machine watches itself. One check takes
-- the readings of the machine, which come from outside, and raises alerts.
use netcam.Prelude.{
  ℕ, suc, ◌-◌, ◌*◌, Bool, true, false, ◌&&◌, not, Option, none, some, List, [], ◌∷◌, ◌++◌, ltb, leb,
  ◌==◌, if◌then◌else◌, is_some,
}

pub record PowerState : Type 0 where
  pub on_mains : Option Bool
  pub battery_percent : Option ℕ

-- The alerts, by their titles. A battery alert has the level of its `dedupeKey`.
pub data HealthAlert : Type 0 where
  power_restored power_cut : HealthAlert
  battery : (percent level : ℕ) → HealthAlert
  internet_back internet_down : HealthAlert
  api_recovered api_down : HealthAlert
  disk_full overheating : HealthAlert

pub record Reading : Type 0 where
  pub now : ℕ
  pub power : PowerState
  pub reachable : Bool
  pub api_ok : Bool
  -- free and total blocks of the disk; the hottest zone in thousandths of a degree
  pub disk : Option (ℕ × ℕ)
  pub millidegrees : Option ℕ

-- The variables of `startHostHealthMonitor`, and the alerts raised so far.
pub record Health : Type 0 where
  pub power : Option PowerState
  pub internet_up : Bool
  pub internet_failures : ℕ
  pub internet_down_since : ℕ
  pub api_failures : ℕ
  pub api_down_since : ℕ
  pub raised : List HealthAlert

abbrev pub check_ms : ℕ
check_ms = 30000

abbrev pub internet_failures_before_alert : ℕ
internet_failures_before_alert = 2

abbrev pub api_failures_before_alert : ℕ
api_failures_before_alert = 4

abbrev pub raise : HealthAlert → Health → Health
raise a h = record h { raised = h.raised ++ a ∷ [] }

abbrev same_mains : Option Bool → Option Bool → Bool
same_mains none none = true
same_mains (some true) (some true) = true
same_mains (some false) (some false) = true
same_mains _ _ = false

-- `power && now.onMains !== null && power.onMains !== now.onMains`
abbrev changed : Option PowerState → PowerState → Bool
changed none p = false
changed (some q) p = is_some p.on_mains && not (same_mains q.on_mains p.on_mains)

abbrev is_off_mains : Option Bool → Bool
is_off_mains (some false) = true
is_off_mains _ = false

-- `for (const level of levels) if (percent <= level) { ...; break; }`
abbrev pub first_level : ℕ → List ℕ → Option ℕ
first_level percent [] = none
first_level percent (l ∷ ls) =
    let rest = first_level percent ls in if leb percent l then some l else rest

unfoldable pub battery_level : ℕ → Option ℕ
battery_level percent = first_level percent (30 ∷ 15 ∷ 7 ∷ [])

-- The mains have come or gone.
unfoldable pub check_mains : Reading → Health → Health
check_mains r h =
    if changed h.power r.power
    then raise (if is_off_mains r.power.on_mains then power_cut else power_restored) h
    else h

unfoldable pub check_battery : Reading → Health → Health
unfolding battery_level
check_battery r h =
    if is_off_mains r.power.on_mains
    then elim r.power.battery_percent [
      | none ↦ h
      | some percent ↦ elim (battery_level percent) [
        | none ↦ h
        | some level ↦ raise (battery percent level) h
      ]
    ]
    else h

unfoldable pub check_power : Reading → Health → Health
unfolding check_mains check_battery
check_power r h = record (check_battery r (check_mains r h)) { power = some r.power }

unfoldable pub check_internet : Reading → Health → Health
check_internet r h =
    if r.reachable
    then record (if h.internet_up then h else raise internet_back h) {
      internet_up = true;
      internet_failures = 0;
    }
    else (let failing = record h { internet_failures = suc h.internet_failures } in
        if leb internet_failures_before_alert failing.internet_failures && h.internet_up
        then raise internet_down (record failing {
          internet_up = false;
          internet_down_since = r.now - internet_failures_before_alert * check_ms;
        })
        else failing)

unfoldable pub check_api : Reading → Health → Health
check_api r h =
    if r.api_ok
    then record (if leb api_failures_before_alert h.api_failures
        then raise api_recovered h
        else h) { api_failures = 0 }
    else (let failing = record h { api_failures = suc h.api_failures } in
        if failing.api_failures == api_failures_before_alert
        then raise api_down
            (record failing { api_down_since = r.now - api_failures_before_alert * check_ms })
        else failing)

-- Below a tenth of the disk; 90 degrees or more.
unfoldable pub check_disk : Reading → Health → Health
check_disk r h = elim r.disk [
  | none ↦ h
  | some (free, total) ↦ if ltb (10 * free) total then raise disk_full h else h
]

unfoldable pub check_temperature : Reading → Health → Health
check_temperature r h = elim r.millidegrees [
  | none ↦ h
  | some t ↦ if leb 90000 t then raise overheating h else h
]

unfoldable pub check : Reading → Health → Health
unfolding check_power check_internet check_api check_disk check_temperature
check r h = check_temperature r (check_disk r (check_api r (check_internet r (check_power r h))))

unfoldable pub check_all : List Reading → Health → Health
unfolding check
check_all [] h = h
check_all (r ∷ rs) h = check_all rs (check r h)

abbrev pub booted : Health
booted = record {
  power = none;
  internet_up = true;
  internet_failures = 0;
  internet_down_since = 0;
  api_failures = 0;
  api_down_since = 0;
  raised = [];
}
