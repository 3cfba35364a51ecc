-- ===== src/Alerts/Cooldown.antt =====
-- An alert that is raised again and again is recorded once for each cooldown.
use netcam.Database.{Client, IsPrisma, list_client, client-eq}
use netcam.Prelude.{
  ℕ, ◌+◌, ◌-◌, ◌≤◌, ◌<◌, ◌≡◌, inl, inr, Bool, true, none, some, List, [], ◌∷◌, ◌++◌, arith, Text,
  find, patch, All, All-append, Bool-cases, refl, false, Option, same, is_empty, select, ◌==◌,
  Option-cases,
}
use netcam.Alerts.{
  AlertInput, Delivered, Event, Desk, Outside, key_of, cooldown_ms, has_key, is_recent, notify,
  Recipient, matches, notify_recipients, new_event, recent, deliver, record_alert,
}
use netcam.Prelude.Strings.{same_eq}

-- No two of the events with this key lie within `gap` milliseconds.
abbrev pub AreSpaced : ℕ → Text → List Event → Type 0
AreSpaced gap k [] = Unit
AreSpaced gap k (e ∷ es) =
    (has_key k e ≡ true → All (λ l. has_key k l ≡ true → e.created_at + gap < l.created_at) es)
    × AreSpaced gap k es

-- Every alert that is raised under this key has at least this cooldown.
abbrev pub KeepsCooldown : ℕ → Text → AlertInput → Type 0
KeepsCooldown gap k input = key_of input.dedupe_key ≡ some k → gap ≤ cooldown_ms input

module _ (db : Client) where
  unfoldable pub notify_all : List (Outside × AlertInput) → Desk → Desk
  unfolding notify
  notify_all [] b = b
  notify_all ((out, input) ∷ calls) b = notify_all calls (notify db out input b)

later_delivered :
    (gap at : ℕ) (k : Text) (p : Event → Bool) (ds : List Delivered) (es : List Event)
    → All (λ l. has_key k l ≡ true → at + gap < l.created_at) es
    → All
        (λ l. has_key k l ≡ true → at + gap < l.created_at)
        (patch p (λ e. record e { deliveries = ds }) es)
later_delivered gap at k p ds [] h = tt
later_delivered gap at k p ds (e ∷ es) (h, hs) = (
  elim (Bool-cases (p e)) [ inl c ↦ rw c h | inr c ↦ rw c h ],
  later_delivered gap at k p ds es hs,
)

spaced_delivered :
    (gap : ℕ) (k : Text) (p : Event → Bool) (ds : List Delivered) (es : List Event)
    → AreSpaced gap k es
    → AreSpaced gap k (patch p (λ e. record e { deliveries = ds }) es)
spaced_delivered gap k p ds [] h = tt
spaced_delivered gap k p ds (e ∷ es) (h, hs) = elim (Bool-cases (p e)) [
  | inl c ↦ rw c (
    λ (q : has_key k e ≡ true). later_delivered gap e.created_at k p ds es (h q),
    spaced_delivered gap k p ds es hs,
  )
  | inr c ↦ rw c (
    λ (q : has_key k e ≡ true). later_delivered gap e.created_at k p ds es (h q),
    spaced_delivered gap k p ds es hs,
  )
]

-- An event may be added when those of its key are all old.
later_snoc :
    (gap at : ℕ) (k : Text) (es : List Event) (n : Event)
    → All (λ l. has_key k l ≡ true → at + gap < l.created_at) es
    → (has_key k n ≡ true → at + gap < n.created_at)
    → All (λ l. has_key k l ≡ true → at + gap < l.created_at) (es ++ n ∷ [])
later_snoc gap at k es n h new =
    All-append (λ l. has_key k l ≡ true → at + gap < l.created_at) es (n ∷ []) h (new, tt)

spaced_snoc :
    (gap : ℕ) (k : Text) (es : List Event) (n : Event)
    → AreSpaced gap k es
    → (has_key k n ≡ true → All (λ e. has_key k e ≡ true → e.created_at + gap < n.created_at) es)
    → AreSpaced gap k (es ++ n ∷ [])
spaced_snoc gap k [] n h old = (λ q. tt, tt)
spaced_snoc gap k (e ∷ es) n (h, hs) old = (
  λ (q : has_key k e ≡ true). later_snoc gap e.created_at k es n (h q) (λ r. (old r).0 q),
  spaced_snoc gap k es n hs (λ r. (old r).1),
)

none_recent :
    (gap c now : ℕ) (k : Text) (es : List Event)
    → gap ≤ c
    → find (is_recent k (now - c)) es ≡ none
    → All (λ e. has_key k e ≡ true → e.created_at + gap < now) es
none_recent gap c now k [] g h = tt
none_recent gap c now k (e ∷ es) g h = (
  λ (q : has_key k e ≡ true). ground (arith, h, q, g),
  none_recent gap c now k es g (ground (arith, h)),
)

has_key_lem :
    (k : Text) (o : Option Text)
    → is_empty k ≡ false
    → elim o as (λ x. Bool) [ none ↦ false | some l ↦ same l k ] ≡ true
    → key_of o ≡ some k
has_key_lem k none h q = ground (arith, q)
has_key_lem k (some l) h q = rw (same_eq l k q, h) refl

deliver_lem :
    (gap : ℕ) (k : Text) (out : Outside) (input : AlertInput) (rs : List Recipient)
    (es : List Event)
    → AreSpaced gap k es
    → AreSpaced gap k (deliver list_client out input rs es)
deliver_lem gap k out input [] es h = h
deliver_lem gap k out input (r ∷ rs) es h =
    spaced_delivered gap k (λ e. e.id == out.new_id) (notify_recipients out (r ∷ rs) input) es h

old_enough :
    (gap : ℕ) (k : Text) (out : Outside) (input : AlertInput) (b : Desk)
    → is_empty k ≡ false
    → KeepsCooldown gap k input
    → recent list_client out input b ≡ none
    → has_key k (new_event out input) ≡ true
    → All (λ e. has_key k e ≡ true → e.created_at + gap < out.now) b.events
unfolding recent
old_enough gap k out input b named keeps alone q =
    let is_k = has_key_lem k input.dedupe_key named q in
    none_recent gap (cooldown_ms input) out.now k b.events (keeps is_k) (rw (recent, is_k) at alone)

notify_lem :
    (gap : ℕ) (k : Text) (out : Outside) (input : AlertInput) (b : Desk)
    → is_empty k ≡ false
    → KeepsCooldown gap k input
    → AreSpaced gap k b.events
    → AreSpaced gap k (notify list_client out input b).events
unfolding notify record_alert
notify_lem gap k out input b named keeps h = elim (Option-cases (recent list_client out input b)) [
  | inr (e, there) ↦ rw (notify, there) h
  | inl alone ↦
      rw (notify, alone)
        (deliver_lem gap k out input (select (matches input) (select (λ r. r.enabled) b.recipients))
          (b.events ++ new_event out input ∷ [])
          (spaced_snoc gap k b.events (new_event out input) h
            (old_enough gap k out input b named keeps alone)))
]

notify_all_lem :
    (gap : ℕ) (k : Text) (calls : List (Outside × AlertInput)) (b : Desk)
    → is_empty k ≡ false
    → All (λ c. KeepsCooldown gap k c.1) calls
    → AreSpaced gap k b.events
    → AreSpaced gap k (notify_all list_client calls b).events
unfolding notify_all
notify_all_lem gap k [] b named keeps h = h
notify_all_lem gap k ((out, input) ∷ calls) b named (keep, keeps) h =
    notify_all_lem gap k calls (notify list_client out input b) named keeps
      (notify_lem gap k out input b named keep h)

-- Where the alerts with one key, not empty, are always raised with a cooldown of at least `gap`, and
-- the events of that key are each more than `gap` after those before, this stays so, whatever alerts
-- are raised and whenever.
pub notify_all-AreSpaced :
    (db : Client)
    → IsPrisma db
    → (gap : ℕ) (k : Text) (calls : List (Outside × AlertInput)) (b : Desk) → is_empty k ≡ false
    → All (λ c. KeepsCooldown gap k c.1) calls
    → AreSpaced gap k b.events
    → AreSpaced gap k (notify_all db calls b).events
notify_all-AreSpaced db lawful gap k calls b named keeps h =
    rw (client-eq db lawful) (notify_all_lem gap k calls b named keeps h)
