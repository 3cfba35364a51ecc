-- ===== src/Messages.antt =====
-- apps/api/src/whatsapp/messenger.service.ts: WhatsApp first, then SMS. What the two services answer
-- comes from outside.
use netcam.Prelude.{Bool, true, false, not, Option, none, some, ◌++◌, Text, codes, if◌then◌else◌}

pub record OutgoingMessage : Type 0 where
  pub phone_digits : Text
  pub name : Option Text
  pub subject : Text
  pub message : Text
  pub customer_id : Option Text
  pub payment_id : Option Text
  -- none when it is left out
  pub whatsapp : Option Bool
  pub sms : Option Bool

pub data Channel : Type 0 where
  by_whatsapp by_sms by_none : Channel

pub record Delivery : Type 0 where
  pub ok : Bool
  pub channel : Channel
  pub error : Option Text

-- The answer of a service.
pub record Sent : Type 0 where
  pub ok : Bool
  pub error : Text

pub record Services : Type 0 where
  pub app_name : Text
  pub send_update : (phone_digits : Text) → (name : Option Text) → (subject message : Text) → Sent
  pub send_now : (phone_digits message : Text) → (customer payment : Option Text) → Sent

abbrev pub is_allowed : Option Bool → Bool
is_allowed none = true
is_allowed (some b) = b

-- `errors.join("; ") || "no channel enabled"`, for the two errors there can be
abbrev pub joined : Option Text → Option Text → Text
joined none none = codes "no channel enabled"
joined (some a) none = a
joined none (some b) = b
joined (some a) (some b) = a ++ codes "; " ++ b

abbrev pub by_sms_too : Services → OutgoingMessage → Option Text → Delivery
by_sms_too s m failed =
    let text = s.app_name ++ codes ": " ++ m.subject ++ codes ". " ++ m.message in
    let sms = s.send_now m.phone_digits text m.customer_id m.payment_id in
    if not (is_allowed m.sms)
    then record { ok = false; channel = by_none; error = some (joined failed none) }
    else if sms.ok
    then record { ok = true; channel = by_sms; error = none }
    else record {
      ok = false;
      channel = by_none;
      error = some (joined failed (some (codes "sms: " ++ sms.error)));
    }

unfoldable pub send : Services → OutgoingMessage → Delivery
send s m =
    let wa = s.send_update m.phone_digits m.name m.subject m.message in
    if not (is_allowed m.whatsapp)
    then by_sms_too s m none
    else if wa.ok
    then record { ok = true; channel = by_whatsapp; error = none }
    else by_sms_too s m (some (codes "whatsapp: " ++ wa.error))
