-- ===== src/Alerts/Monitor.antt =====
-- apps/api/src/alerts/alerts-monitor.service.ts: the checks of the routers, of the network agent and
-- of the SMS log. Their state in memory is a `Watch`; whether the agent is healthy comes from outside.
use netcam.Database.{Client}
use netcam.Prelude.{
  ℕ, ◌+◌, ◌-◌, ◌*◌, Bool, true, false, ◌&&◌, not, Option, none, some, List, [], ◌∷◌, ◌++◌, Text,
  codes, same, length, take, find, ltb, leb, if◌then◌else◌, or_default, upsert, sort_by,
}
use netcam.Alerts.{AlertInput, Desk, Outside, notify, network, system, info, warning, critical}

pub record Router : Type 0 where
  pub id : Text
  pub name : Text
  pub last_seen_at : Option ℕ

pub record SmsLog : Type 0 where
  pub has_failed : Bool
  pub created_at : ℕ
  pub error : Option Text

pub record Watch : Type 0 where
  pub router_online : List (Text × Bool)
  pub agent_failures : ℕ
  pub agent_down_alerted : Bool
  pub desk : Desk

abbrev pub router_online_window_ms : ℕ
router_online_window_ms = 3 * 60000

abbrev pub agent_failures_before_alert : ℕ
agent_failures_before_alert = 2

abbrev pub is_online : ℕ → Router → Bool
is_online now r = elim r.last_seen_at [
  | none ↦ false
  | some t ↦ leb now (t + router_online_window_ms)
]

abbrev pub is_entry : Text → Text × Bool → Bool
is_entry id e = same e.0 id

abbrev pub set_online : Text → Bool → List (Text × Bool) → List (Text × Bool)
set_online id online = upsert (is_entry id) (id, online) (λ e. (e.0, online))

abbrev pub same_bool : Bool → Bool → Bool
same_bool true b = b
same_bool false b = not b

abbrev pub router_alert : Router → Bool → AlertInput
router_alert r true = record {
  category = network;
  severity = info;
  title = r.name ++ codes " is back online";
  message = r.name ++ codes " is connected again and serving customers.";
  dedupe_key = none;
  cooldown_minutes = none;
}
router_alert r false = record {
  category = network;
  severity = critical;
  title = r.name ++ codes " is offline";
  message =
      codes "No contact with "
      ++ r.name
      ++ codes
          " for 3 minutes. Check its power and the cable to the gateway. Customers on it have no internet.";
  dedupe_key = some (codes "router-offline:" ++ r.id);
  cooldown_minutes = some 15;
}

abbrev pub recovered : AlertInput
recovered = record {
  category = system;
  severity = info;
  title = codes "Network agent recovered";
  message = codes "The gateway's network agent is responding again; customers can log in.";
  dedupe_key = none;
  cooldown_minutes = none;
}

abbrev pub not_responding : AlertInput
not_responding = record {
  category = system;
  severity = critical;
  title = codes "Network agent not responding";
  message =
      codes
        "The gateway's network agent has not answered for 2 minutes. New customers can't log in and paid ones may lose access. It restarts automatically; if this repeats, restart the gateway.";
  dedupe_key = some (codes "agent-down");
  cooldown_minutes = some 60;
}

-- The digits of how many failures there are, of which at most five are read.
abbrev pub sms_failing : ℕ → Option Text → AlertInput
sms_failing failed error = record {
  category = system;
  severity = warning;
  title = codes "SMS sending is failing";
  message =
      (b'0' + failed) ∷ codes " SMS failed in the last 10 minutes. Latest error: "
      ++ or_default error (codes "unknown")
      ++ codes ". Check the EGO SMS balance and sender ID.";
  dedupe_key = some (codes "sms-failing");
  cooldown_minutes = some 120;
}

-- Rows of the same time in the order of the table.
abbrev pub latest_first : List SmsLog → List SmsLog
latest_first = sort_by (λ a b. ltb b.created_at a.created_at)

abbrev pub has_just_failed : ℕ → SmsLog → Bool
has_just_failed since s = s.has_failed && leb since s.created_at

module _ (db : Client) where
  unfoldable pub raise : Outside → AlertInput → Watch → Watch
  unfolding notify
  raise out input w = record w { desk = notify db out input w.desk }

  unfoldable pub check_router : Outside → Router → Watch → Watch
  unfolding raise
  check_router out r w =
      let online = is_online out.now r in
      let seen = record w { router_online = set_online r.id online w.router_online } in
      elim (find (is_entry r.id) w.router_online) [
        | none ↦ seen
        | some (id, before) ↦
            if same_bool before online then seen else raise out (router_alert r online) seen
      ]

  unfoldable pub check_routers : Outside → List Router → Watch → Watch
  unfolding check_router
  check_routers out [] w = w
  check_routers out (r ∷ rs) w = check_routers out rs (check_router out r w)

  unfoldable pub check_agent : Outside → Bool → Watch → Watch
  unfolding raise
  check_agent out true w =
      let told = if w.agent_down_alerted then raise out recovered w else w in
      record told { agent_failures = 0; agent_down_alerted = false }
  check_agent out false w =
      let counted = record w { agent_failures = w.agent_failures + 1 } in
      if leb agent_failures_before_alert counted.agent_failures && not w.agent_down_alerted
      then raise out not_responding (record counted { agent_down_alerted = true })
      else counted

  unfoldable pub check_sms_failures : Outside → List SmsLog → Watch → Watch
  unfolding raise
  check_sms_failures out logs w =
      let since = out.now - 10 * 60000 in
      let failed = take 5 (latest_first (db.find_many SmsLog (has_just_failed since) logs)) in
      let many = length failed in
      elim failed [ [] ↦ w | l ∷ _ ↦ raise out (sms_failing many l.error) w ]
