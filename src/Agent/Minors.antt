-- ===== src/Agent/Minors.antt =====
-- The class numbers of the traffic shaping: no two MACs share one, so a MAC's filter is its own.
use netcam.Prelude.{
  ℕ, ◌+◌, ◌≤◌, ◌<◌, ◌≡◌, refl, inl, inr, Bool, List, [], ◌∷◌, ◌++◌, arith, Text, count_if, find,
  ◌==◌, if◌then◌else◌, Option-cases,
}
use netcam.Agent.Shaping.{
  first_minor, last_minor, Command, Step, Entry, Shaper, has_mac, allocate_minor, perform, must,
  may, next_free,
}

abbrev pub at : ℕ → Entry → Bool
at m e = e.minor == m

abbrev pub holders : ℕ → Shaper → ℕ
holders m b = count_if (at m) b.minor_by_mac

-- How often a number is held or free.
abbrev pub uses : ℕ → Shaper → ℕ
uses m b = holders m b + count_if (λ n. n == m) b.free_minors

pub record IsAllocated (b : Shaper) : Type 0 where
  pub once : (m : ℕ) → uses m b ≤ 1
  pub not_yet : (m : ℕ) → b.next_minor ≤ m → uses m b ≡ 0
  pub not_low : (m : ℕ) → m < first_minor → uses m b ≡ 0
  pub not_held_high : (m : ℕ) → last_minor < m → holders m b ≡ 0
  pub started : first_minor ≤ b.next_minor

abbrev pub SameTables : Shaper → Shaper → Type 0
SameTables b c =
    (c.minor_by_mac ≡ b.minor_by_mac)
    × (c.free_minors ≡ b.free_minors)
    × (c.next_minor ≡ b.next_minor)

pub SameTables-IsAllocated : (b c : Shaper) → SameTables b c → IsAllocated b → IsAllocated c
SameTables-IsAllocated b c (es, fs, n) h = record {
  once = λ m. rw (es, fs) (h.once m);
  not_yet = λ m. rw (es, fs, n) (h.not_yet m);
  not_low = λ m. rw (es, fs) (h.not_low m);
  not_held_high = λ m. rw es (h.not_held_high m);
  started = rw n h.started;
}

pub perform-SameTables :
    (fails : Command → Bool) (steps : List Step) (b : Shaper)
    → SameTables b (perform fails steps b).1
unfolding perform
perform-SameTables fails [] b = (refl, refl, refl)
perform-SameTables fails (must c ∷ steps) b =
    ground (arith, perform-SameTables fails steps (record b { ran = b.ran ++ c ∷ [] }))
perform-SameTables fails (may c ∷ steps) b = ground (
  arith,
  perform-SameTables fails steps b,
  perform-SameTables fails steps (record b { ran = b.ran ++ c ∷ [] }),
)

pub perform-IsAllocated :
    (fails : Command → Bool) (steps : List Step) (b : Shaper)
    → IsAllocated b
    → IsAllocated (perform fails steps b).1
perform-IsAllocated fails steps b h =
    SameTables-IsAllocated b (perform fails steps b).1 (perform-SameTables fails steps b) h

count_if-snoc :
    (p : Entry → Bool) (es : List Entry) (e : Entry)
    → count_if p (es ++ e ∷ []) ≡ count_if p es + (if p e then 1 else 0)
count_if-snoc p [] e = ground arith
count_if-snoc p (x ∷ es) e = ground (arith, count_if-snoc p es e)

pub allocate_minor-IsAllocated :
    (mac : Text) (b : Shaper) → IsAllocated b → IsAllocated (allocate_minor mac b).1
unfolding allocate_minor
allocate_minor-IsAllocated mac b h = elim (Option-cases (find (has_mac mac) b.minor_by_mac)) [
  | inr (e, found) ↦ rw (allocate_minor, found) h
  | inl missing ↦
      let snoc = λ (m : ℕ).
        count_if-snoc (at m) b.minor_by_mac (record { mac = mac; minor = (next_free b).0 }) in
      record {
        once = λ m. ground (arith, missing, h.once m, h.not_yet m, snoc m);
        not_yet = λ m. ground (arith, missing, h.not_yet m, h.not_yet, snoc m);
        not_low = λ m. ground (arith, missing, h.not_low m, h.started, snoc m);
        not_held_high = λ m. ground (arith, missing, h.not_held_high m, snoc m);
        started = ground (arith, missing, h.started);
      }
]
