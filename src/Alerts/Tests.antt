-- ===== src/Alerts/Tests.antt =====
-- Tests and examples on concrete alerts.
use netcam.Database.{list_client, list_client-IsPrisma}
use netcam.Messages.{Services, send}
use netcam.Alerts.Cooldown.{AreSpaced, notify_all, notify_all-AreSpaced}
use netcam.Alerts.Monitor.{Watch, check_agent, check_router, raise}
-- WhatsApp fails, SMS works.
use netcam.Prelude.{ℕ, ◌*◌, ◌≡◌, refl, true, false, none, some, List, [], ◌∷◌, map, arith, codes}
use netcam.Alerts.{
  AlertInput, Recipient, Desk, Outside, notify_recipients, recent, record_alert, notify, payments,
  network, warning, critical,
}

abbrev services : Services
services = record {
  app_name = codes "NetCam";
  send_update = λ phone name subject message. record { ok = false; error = codes "no template" };
  send_now = λ phone message customer payment. record { ok = true; error = [] };
}

abbrev at : ℕ → Outside
at minutes = record { now = minutes * 60000; new_id = minutes; services = services }

abbrev owner : Recipient
owner = record {
  id = 1;
  name = codes "Owner";
  phone_number = codes "256770000000";
  categories = [];
  min_severity = warning;
  whatsapp = true;
  sms = true;
  enabled = true;
}

abbrev shopkeeper : Recipient
shopkeeper = record owner { id = 2; categories = payments ∷ [] }

abbrev desk : Desk
desk = record { events = []; recipients = owner ∷ shopkeeper ∷ [] }

abbrev down : AlertInput
down = record {
  category = network;
  severity = critical;
  title = codes "Down";
  message = codes "No internet";
  dedupe_key = some (codes "internet");
  cooldown_minutes = some 60;
}

abbrev calls : List (Outside × AlertInput)
calls = (at 10, down) ∷ (at 40, down) ∷ (at 80, down) ∷ []

two_events_in_two_hours :
    map (λ e. e.created_at) (notify_all list_client calls desk).events ≡ 600000 ∷ 4800000 ∷ []
unfolding notify_all notify recent record_alert notify_recipients send
two_events_in_two_hours = refl

only_the_owner_is_told :
    map (λ e. map (λ d. d.recipient_id) e.deliveries) (notify list_client (at 10) down desk).events
    ≡ (1 ∷ []) ∷ []
unfolding notify recent record_alert notify_recipients send
only_the_owner_is_told = refl

notify_all-AreSpaced_example :
    AreSpaced 3600000 (codes "internet") (notify_all list_client calls desk).events
notify_all-AreSpaced_example =
    notify_all-AreSpaced list_client list_client-IsPrisma 3600000 (codes "internet") calls desk refl
      (λ q. omega arith, (λ q. omega arith, (λ q. omega arith, tt))) tt

abbrev quiet_watch : Watch
quiet_watch = record {
  router_online = [];
  agent_failures = 0;
  agent_down_alerted = false;
  desk = desk;
}

-- The second failure is announced, then the recovery.
abbrev after_failures : Watch
after_failures = check_agent list_client (at 4) true (
    check_agent list_client (at 3) false
      (check_agent list_client (at 2) false (check_agent list_client (at 1) false quiet_watch)))

agent_outage_is_told_once :
    map (λ e. e.created_at) after_failures.desk.events ≡ 120000 ∷ 240000 ∷ []
unfolding check_agent raise notify recent record_alert notify_recipients send
agent_outage_is_told_once = refl

-- The first look at a router only records its state.
first_look_is_silent :
    (check_router list_client
      (at 60)
      (record { id = []; name = []; last_seen_at = none })
      quiet_watch).desk.events
    ≡ []
unfolding check_router raise notify
first_look_is_silent = refl
