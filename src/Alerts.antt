-- ===== src/Alerts.antt =====
-- apps/api/src/alerts/alerts.service.ts: raising an alert. Monitor has the checks that raise them.
-- The database client, the clock and the messaging services come from outside; what a call of the
-- services returns is recorded, their calls are not ordered among recipients.
pub mod Monitor
pub mod Cooldown
mod Tests
use netcam.Database.{Client}
use netcam.Messages.{OutgoingMessage, Delivery, Services, send}
use netcam.Prelude.{
  ℕ, ◌-◌, ◌*◌, Bool, true, false, ◌&&◌, ◌||◌, Option, none, some, List, [], ◌∷◌, ◌++◌, map, Text,
  codes, same, is_empty, any, select, leb, ◌==◌, if◌then◌else◌, or_default,
}

pub data Category : Type 0 where
  payments finance network power system security customers daily_summary : Category

pub data Severity : Type 0 where
  info warning critical : Severity

abbrev pub rank : Severity → ℕ
rank info = 0
rank warning = 1
rank critical = 2

abbrev pub same_category : Category → Category → Bool
same_category payments payments = true
same_category finance finance = true
same_category network network = true
same_category power power = true
same_category system system = true
same_category security security = true
same_category customers customers = true
same_category daily_summary daily_summary = true
same_category _ _ = false

pub record AlertInput : Type 0 where
  pub category : Category
  pub severity : Severity
  pub title : Text
  pub message : Text
  pub dedupe_key : Option Text
  pub cooldown_minutes : Option ℕ

pub record Recipient : Type 0 where
  pub id : ℕ
  pub name : Text
  pub phone_number : Text
  pub categories : List Category
  pub min_severity : Severity
  pub whatsapp : Bool
  pub sms : Bool
  pub enabled : Bool

pub record Delivered : Type 0 where
  pub recipient_id : ℕ
  pub name : Text
  pub delivery : Delivery

pub record Event : Type 0 where
  pub id : ℕ
  pub category : Category
  pub severity : Severity
  pub title : Text
  pub message : Text
  pub dedupe_key : Option Text
  pub created_at : ℕ
  -- null on a new row
  pub deliveries : List Delivered

pub record Desk : Type 0 where
  pub events : List Event
  pub recipients : List Recipient

pub record Outside : Type 0 where
  pub now : ℕ
  pub new_id : ℕ
  pub services : Services

abbrev pub default_cooldown_minutes : ℕ
default_cooldown_minutes = 30

-- A key that is present and not empty.
abbrev pub key_of : Option Text → Option Text
key_of none = none
key_of (some k) = if is_empty k then none else some k

abbrev pub cooldown_ms : AlertInput → ℕ
cooldown_ms input = or_default input.cooldown_minutes default_cooldown_minutes * 60000

abbrev pub has_key : Text → Event → Bool
has_key k e = elim e.dedupe_key [ none ↦ false | some l ↦ same l k ]

abbrev pub is_recent : Text → ℕ → Event → Bool
is_recent k since e = has_key k e && leb since e.created_at

abbrev pub prefix : Severity → Text
prefix critical = codes "URGENT: "
prefix warning = codes "Warning: "
prefix info = []

abbrev pub matches : AlertInput → Recipient → Bool
matches input r =
    (elim r.categories [ [] ↦ true | _ ∷ _ ↦ false ]
      || any (same_category input.category) r.categories)
    && leb (rank r.min_severity) (rank input.severity)

abbrev pub message_to : AlertInput → Recipient → OutgoingMessage
message_to input r = record {
  phone_digits = r.phone_number;
  name = some r.name;
  subject = prefix input.severity ++ input.title;
  message = input.message;
  customer_id = none;
  payment_id = none;
  whatsapp = some r.whatsapp;
  sms = some r.sms;
}

abbrev pub deliver_to : Outside → AlertInput → Recipient → Delivered
deliver_to out input r = record {
  recipient_id = r.id;
  name = r.name;
  delivery = send out.services (message_to input r);
}

unfoldable pub notify_recipients : Outside → List Recipient → AlertInput → List Delivered
notify_recipients out recipients input = map (deliver_to out input) recipients

abbrev pub new_event : Outside → AlertInput → Event
new_event out input = record {
  id = out.new_id;
  category = input.category;
  severity = input.severity;
  title = input.title;
  message = input.message;
  dedupe_key = input.dedupe_key;
  created_at = out.now;
  deliveries = [];
}

module _ (db : Client) where
  -- The alert with the same key within the cooldown.
  unfoldable pub recent : Outside → AlertInput → Desk → Option Event
  recent out input b = elim (key_of input.dedupe_key) [
    | none ↦ none
    | some k ↦ db.find_first Event (is_recent k (out.now - cooldown_ms input)) b.events
  ]

  -- `if (recipients.length === 0) return;`, and the deliveries.
  abbrev pub deliver : Outside → AlertInput → List Recipient → List Event → List Event
  deliver out input [] events = events
  deliver out input (r ∷ rs) events =
      let deliveries = notify_recipients out (r ∷ rs) input in
      (db.update_many Event (λ e. e.id == out.new_id) (λ e. record e { deliveries = deliveries })
        events).0

  unfoldable pub record_alert : Outside → AlertInput → Desk → Desk
  unfolding notify_recipients
  record_alert out input b =
      let events = db.create Event (new_event out input) b.events in
      let enabled = db.find_many Recipient (λ r. r.enabled) b.recipients in
      record b { events = deliver out input (select (matches input) enabled) events }

  unfoldable pub notify : Outside → AlertInput → Desk → Desk
  unfolding recent record_alert
  notify out input b = elim (recent out input b) [ some e ↦ b | none ↦ record_alert out input b ]
