-- ===== src/Agent/DeliveryTests.antt =====
-- Alerts that go straight to the phones, on concrete texts.
use netcam.Agent.Delivery.{AgentAlert, Hub, Sender, hub_from, flat, raise_alert, send_direct}
use netcam.Alerts.{critical, warning}
use netcam.Prelude.Strings.{trim}
use netcam.Prelude.{ℕ, ◌+◌, ◌*◌, ◌≡◌, refl, false, none, some, [], ◌∷◌, ◌++◌, codes, length}

abbrev hub : Hub
hub =
    hub_from (some (codes "https://hub//")) (some (codes "k")) none
      (some (codes "256700000001, 0700000002,256700000003"))

the_settings :
    (hub.url ∷ hub.template ∷ hub.phones)
    ≡ codes "https://hub"
      ∷ codes "general_app_update"
      ∷ codes "256700000001"
      ∷ codes "256700000003"
      ∷ []
unfolding trim
the_settings = refl

in_one_line :
    flat 200 (codes "a" ++ 10 ∷ 13 ∷ codes "b      c" ++ 10 ∷ [])
    ≡ codes "a " ++ 183 ∷ codes " b   c " ++ 183 ∷ []
unfolding flat trim
in_one_line = refl

-- The cut is after the last sentence if that is late enough, and else in the middle of a word.
at_a_sentence : flat 12 (codes "One more. Two more.") ≡ codes "One more."
unfolding flat trim
at_a_sentence = refl

in_a_word : flat 12 (codes "One. Two more.") ≡ codes "One. Two mo" ++ 8230 ∷ []
unfolding flat trim
in_a_word = refl

abbrev outage : AgentAlert
outage = record {
  category = codes "NETWORK";
  severity = critical;
  title = codes "Down";
  message = codes "No internet.";
  dedupe_key = none;
  cooldown_minutes = none;
}

abbrev nothing_sent : Sender
nothing_sent = record { fallback_sent_at = []; posted = []; taken = [] }

-- Two phones are told, and not again within half an hour; the API is not told.
abbrev after : ℕ → Sender
after minutes =
    let first = raise_alert hub false 9000000 outage nothing_sent in
    raise_alert hub false (9000000 + minutes * 60000) outage first

within_the_cooldown : length (after 29).posted ≡ 2
unfolding raise_alert send_direct trim
within_the_cooldown = refl

past_the_cooldown : length (after 30).posted ≡ 4
unfolding raise_alert send_direct trim
past_the_cooldown = refl

only_the_critical :
    send_direct hub 9000000 (record outage { severity = warning }) nothing_sent ≡ nothing_sent
unfolding send_direct trim
only_the_critical = refl
