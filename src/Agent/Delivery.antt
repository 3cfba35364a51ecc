-- ===== src/Agent/Delivery.antt =====
-- apps/network-agent/src/alerts.ts: an alert of the gateway goes through the API, and straight to
-- the phones when the API cannot be reached. A text is the list of its UTF-16 units; whether the API
-- takes an alert comes from outside, and so do the settings of the environment.
use mathlib.Core.List.{reverse}
use netcam.Agent.Networks.{split}
use netcam.Alerts.{Severity, info, warning, critical}
use netcam.Prelude.Strings.{trim, starts_with, is_digit}
use netcam.Prelude.{
  ℕ, zero, suc, ◌+◌, ◌-◌, ◌*◌, ◌≤◌, min, ◌≡◌, inl, inr, Bool, true, false, ◌&&◌, ◌||◌, not, Option,
  none, some, List, [], ◌∷◌, ◌++◌, map, arith, Text, codes, length, take, same, is_empty, all, find,
  select, ltb, leb, ◌==◌, if◌then◌else◌, upsert, or_default, Bool-cases, leb→le, max, refl,
}

pub record AgentAlert : Type 0 where
  pub category : Text
  pub severity : Severity
  pub title : Text
  pub message : Text
  pub dedupe_key : Option Text
  pub cooldown_minutes : Option ℕ

-- A message that was sent straight to a phone.
pub record Direct : Type 0 where
  pub phone_number : Text
  pub template_name : Text
  pub body : List Text

pub record SentAt : Type 0 where
  pub key : Text
  pub at : ℕ

pub record Hub : Type 0 where
  pub url : Text
  pub api_key : Text
  pub template : Text
  pub phones : List Text

-- What has been sent so far, and the alerts that the API took.
pub record Sender : Type 0 where
  pub fallback_sent_at : List SentAt
  pub posted : List Direct
  pub taken : List AgentAlert

-- /^256\d{9}$/
abbrev pub is_fallback_phone : Text → Bool
is_fallback_phone p = starts_with (codes "256") p && all is_digit p && length p == 12

abbrev pub drop_slashes : Text → Text
drop_slashes [] = []
drop_slashes (c ∷ s) = let rest = drop_slashes s in if c == b'/' then rest else c ∷ s

-- The settings, from the environment.
abbrev pub hub_from : Option Text → Option Text → Option Text → Option Text → Hub
hub_from url key template phones = record {
  url = reverse (drop_slashes (reverse (or_default url [])));
  api_key = or_default key [];
  template = or_default template (codes "general_app_update");
  phones = select is_fallback_phone (map trim (split b',' (or_default phones [])));
}

-- `replace(/[\r\n\t]+/g, " · ")`; the test says whether the text before ends in such a run.
abbrev pub is_break : ℕ → Bool
is_break c = c == 13 || c == 10 || c == 9

abbrev pub join_lines : Bool → Text → Text
join_lines inside [] = []
join_lines inside (c ∷ s) =
    let rest = join_lines (is_break c) s in
    if is_break c then (if inside then rest else b' ' ∷ 183 ∷ b' ' ∷ rest) else c ∷ rest

-- `replace(/ {4,}/g, "   ")`; the number is that of the spaces just before.
abbrev pub blanks : ℕ → Text
blanks zero = []
blanks (suc n) = b' ' ∷ blanks n

abbrev pub squeeze : ℕ → Text → Text
squeeze n [] = blanks (min n 3)
squeeze n (c ∷ s) =
    let rest = squeeze (if c == b' ' then n + 1 else 0) s in
    if c == b' ' then rest else blanks (min n 3) ++ c ∷ rest

-- `lastIndexOf(". ")`
abbrev pub last_stop : Text → Option ℕ
last_stop [] = none
last_stop (c ∷ s) = elim (last_stop s) [
  | some i ↦ some (suc i)
  | none ↦ if starts_with (codes ". ") (c ∷ s) then some 0 else none
]

-- `end > max * 0.6 ? cut.slice(0, end + 1) : cut + "…"`
abbrev pub shorten : ℕ → Text → Option ℕ → Text
shorten max cut none = cut ++ 8230 ∷ []
shorten max cut (some end) =
    if ltb (6 * max) (10 * end) then take (end + 1) cut else cut ++ 8230 ∷ []

unfoldable pub flat : ℕ → Text → Text
flat max value =
    let v = trim (squeeze 0 (join_lines false value)) in
    if leb (length v) max then v else let cut = take (max - 1) v in shorten max cut (last_stop cut)

abbrev is_critical : Severity → Bool
is_critical info = false
is_critical warning = false
is_critical critical = true

module _ (hub : Hub) where
  abbrev pub direct_message : AgentAlert → Text → Direct
  direct_message a phone = record {
    phone_number = phone;
    template_name = hub.template;
    body =
        codes "Admin"
        ∷ codes "NetCam WiFi"
        ∷ flat 60 (codes "URGENT: " ++ a.title)
        ∷ flat 200 a.message
        ∷ [];
  }

  -- `fallbackSentAt.get(key) ?? 0`
  abbrev pub last_sent : Text → List SentAt → ℕ
  last_sent key sent = elim (find (λ e. same e.key key) sent) [ none ↦ 0 | some e ↦ e.at ]

  unfoldable pub send_direct : ℕ → AgentAlert → Sender → Sender
  send_direct now a b =
      let key = or_default a.dedupe_key a.title in
      let last = last_sent key b.fallback_sent_at in
      if is_empty hub.url
        || is_empty hub.api_key
        || length hub.phones == 0
        || not (is_critical a.severity)
      then b
      else if ltb now (last + or_default a.cooldown_minutes 30 * 60000)
      then b
      else record b {
        fallback_sent_at =
            upsert (λ e. same e.key key) (record { key = key; at = now })
              (λ e. record e { at = now }) b.fallback_sent_at;
        posted = b.posted ++ map (direct_message a) hub.phones;
      }

  unfoldable pub raise_alert : Bool → ℕ → AgentAlert → Sender → Sender
  unfolding send_direct
  raise_alert api_takes_it now a b =
      if api_takes_it then record b { taken = b.taken ++ a ∷ [] } else send_direct now a b

length-take : (n : ℕ) (s : Text) → length (take n s) ≤ n
length-take zero s = omega arith
length-take (suc n) [] = omega arith
length-take (suc n) (c ∷ s) = omega (arith, length-take n s)

take-shorter : (n : ℕ) (s : Text) → length (take n s) ≤ length s
take-shorter zero s = omega arith
take-shorter (suc n) [] = omega arith
take-shorter (suc n) (c ∷ s) = omega (arith, take-shorter n s)

length-snoc : (s : Text) (c : ℕ) → length (s ++ c ∷ []) ≡ length s + 1
length-snoc [] c = refl
length-snoc (d ∷ s) c = omega (arith, length-snoc s c)

length-shorten :
    (max : ℕ) (cut : Text) (end : Option ℕ) → length (shorten max cut end) ≤ length cut + 1
length-shorten max cut none = omega (arith, length-snoc cut 8230)
length-shorten max cut (some end) = elim (Bool-cases (ltb (6 * max) (10 * end))) [
  | inl late ↦ rw late (omega (arith, take-shorter (end + 1) cut))
  | inr early ↦ rw early (omega (arith, length-snoc cut 8230))
]

-- A text that is made flat fits in what the template allows.
pub length-flat : (max : ℕ) (value : Text) → 1 ≤ max → length (flat max value) ≤ max
unfolding flat
length-flat max value positive =
    let v = trim (squeeze 0 (join_lines false value)) in
    let cut = take (max - 1) v in
    elim (Bool-cases (leb (length v) max)) [
      | inl fits ↦ rw (flat, fits) (leb→le (length v) max fits)
      | inr long ↦
          rw (flat, long)
            (omega (arith, length-take (max - 1) v, length-shorten max cut (last_stop cut)))
    ]
