-- ===== src/Agent/Events.antt =====
-- Calls of the traffic shaping that overlap. A call gives way to others while it awaits a command.
-- Of the numbers, `ensureShapingForRouter` changes all at its end and `applyShapingForMac` its own
-- at its start, so that each is one event; `removeShapingForMac` reads the number at its start and
-- gives it back at its end, which are two.
use netcam.Prelude.{
  ℕ, Bool, true, false, ◌&&◌, not, Option, none, some, List, [], ◌∷◌, Text, any, Result, ok, err,
  if◌then◌else◌,
}
use netcam.Prelude.Strings.{upper}
use netcam.Agent.Shaping.{
  first_minor, Command, Entry, Shaper, Error, has_mac, Link, ensure_shaping_for_router,
  apply_shaping_for_mac, begin_removal, end_removal,
}

pub data Event : Type 0 where
  ensure : Link → Event
  apply : Link → Text → (down_kbps up_kbps : ℕ) → Event
  begin : Link → Text → Event
  -- the first removal of this MAC, in capitals, that has not ended
  finish : Text → Event

-- The numbers, and the removals that have begun.
pub record Busy : Type 0 where
  pub shaper : Shaper
  pub removals : List Entry

-- The first entry of a MAC, and the others.
unfoldable pub take_out : Text → List Entry → Option (Entry × List Entry)
take_out mac [] = none
take_out mac (e ∷ es) =
    let rest = take_out mac es in
    if has_mac mac e
    then some (e, es)
    else elim rest [ none ↦ none | some (f, fs) ↦ some (f, e ∷ fs) ]

abbrev pub started : Option Entry → List Entry → List Entry
started none es = es
started (some e) es = e ∷ es

abbrev pub ended : Option (Entry × List Entry) → Busy → Busy
ended none s = s
ended (some (e, es)) s = record { shaper = end_removal e s.shaper; removals = es }

-- The number that a removal read, if it still runs.
abbrev pub given : Result Error (Option Entry) → Option Entry
given (ok o) = o
given (err _) = none

unfoldable pub step : (Command → Bool) → Event → Busy → Busy
step fails (ensure r) s = record s { shaper = (ensure_shaping_for_router fails r s.shaper).1 }
step fails (apply r mac down up) s = record s {
  shaper = (apply_shaping_for_mac fails r mac down up s.shaper).1;
}
step fails (begin r mac) s =
    let (result, b) = begin_removal fails r mac s.shaper in
    record { shaper = b; removals = started (given result) s.removals }
step fails (finish mac) s = ended (take_out mac s.removals) s

-- Each call meets its own failures of commands.
unfoldable pub run : List ((Command → Bool) × Event) → Busy → Busy
run [] s = s
run ((fails, e) ∷ es) s = run es (step fails e s)

-- No removal of a MAC begins before the one before it has ended, and no router is set up meanwhile.
abbrev pub is_allowed : Event → List Entry → Bool
is_allowed (ensure r) [] = true
is_allowed (ensure r) (e ∷ es) = false
is_allowed (begin r mac) es = not (any (has_mac (upper mac)) es)
is_allowed (apply _ _ _ _) es = true
is_allowed (finish _) es = true

abbrev pub are_apart : List ((Command → Bool) × Event) → Busy → Bool
are_apart [] s = true
are_apart ((fails, e) ∷ es) s = is_allowed e s.removals && are_apart es (step fails e s)

-- The state of the module when the agent starts.
abbrev pub idle : Busy
idle = record {
  shaper = record { minor_by_mac = []; free_minors = []; next_minor = first_minor; ran = [] };
  removals = [];
}
