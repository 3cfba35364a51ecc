-- ===== src/Agent/Shares.antt =====
-- The split of what a device is billed, as long as its arithmetic is exact.
use netcam.Agent.Usage.{
  AppBytes, Doubles, add_bytes, add_shares, add_up, attributed, split_across_apps, unattributed,
}
use netcam.Prelude.{
  ℕ, ◌+◌, ◌-◌, ◌≤◌, ◌<◌, min, ◌≡◌, refl, ap, ◌∙◌, inl, inr, false, List, [], ◌∷◌, map, arith, Text,
  same, sum_of, ltb, Bool-cases,
}

-- Whole numbers below 2 ^ 53 are exact, and so is what is computed of them if it is such a number.
pub record IsExact {F : Type 0} (d : Doubles F) : Type 0 where
  pub plus : (a b : ℕ) → a + b < 9007199254740992 → d.plus (d.whole a) (d.whole b) ≡ d.whole (a + b)
  pub minus :
      (a b : ℕ) → b ≤ a → a < 9007199254740992 → d.minus (d.whole a) (d.whole b) ≡ d.whole (a - b)
  pub times_one : (a : ℕ) → a < 9007199254740992 → d.times (d.whole a) (d.whole 1) ≡ d.whole a
  pub least :
      (a b : ℕ)
      → a < 9007199254740992
      → b < 9007199254740992
      → d.least (d.whole a) (d.whole b) ≡ d.whole (min a b)
  pub is_less :
      (a b : ℕ)
      → a < 9007199254740992
      → b < 9007199254740992
      → d.is_less (d.whole a) (d.whole b) ≡ ltb a b

abbrev pub bytes_of : List (AppBytes ℕ) → ℕ
bytes_of = sum_of (λ c. c.bytes)

abbrev pub in_doubles : {F : Type 0} → Doubles F → List (AppBytes ℕ) → List (AppBytes F)
in_doubles d = map (λ c. record { app = c.app; bytes = d.whole c.bytes })

module _ {F : Type 0} (d : Doubles F) (exact : IsExact d) where
  -- Whole numbers that add up to `s`.
  abbrev Holds : ℕ → List (AppBytes F) → Type 0
  Holds s es = (ns : List (AppBytes ℕ)) × (es ≡ in_doubles d ns) × (bytes_of ns ≡ s)

  add_bytes_lem :
      (app : Text) (n : ℕ) (ns : List (AppBytes ℕ))
      → bytes_of ns + n < 9007199254740992
      → Holds (bytes_of ns + n) (add_bytes d app (d.whole n) (in_doubles d ns))
  add_bytes_lem app n [] h = (
    record { app = app; bytes = 0 + n } ∷ [],
    ap (λ b. record { app = app; bytes = b } ∷ []) (exact.plus 0 n h),
    omega arith,
  )
  add_bytes_lem app n (c ∷ ns) h = elim (Bool-cases (same c.app app)) [
    | inl here ↦ rw here (
      record { app = c.app; bytes = c.bytes + n } ∷ ns,
      ap (λ b. record { app = c.app; bytes = b } ∷ in_doubles d ns)
          (exact.plus c.bytes n (omega (arith, h))),
      omega arith,
    )
    | inr past ↦
        let (ms, e, s) = add_bytes_lem app n ns (omega (arith, h)) in
        rw past (
          c ∷ ms,
          ap (λ es. record { app = c.app; bytes = d.whole c.bytes } ∷ es) e,
          omega (arith, s),
        )
  ]

  add_shares_lem :
      (seen ns : List (AppBytes ℕ))
      → bytes_of ns + bytes_of seen < 9007199254740992
      → Holds
          (bytes_of ns + bytes_of seen)
          (add_shares d (d.whole 1) (in_doubles d seen) (in_doubles d ns))
  add_shares_lem [] ns h = (ns, refl, omega arith)
  add_shares_lem (c ∷ seen) ns h =
      let v = exact.times_one c.bytes (omega (arith, h)) in
      let less = exact.is_less 0 c.bytes (omega arith) (omega (arith, h)) in
      elim (Bool-cases (ltb 0 c.bytes)) [
        | inl some_bytes ↦
            let (ms, e, s) = add_bytes_lem c.app c.bytes ns (omega (arith, h)) in
            let (rs, f, t) = add_shares_lem seen ms (omega (arith, h, s)) in
            rw (add_shares, v, less, some_bytes, e) (rs, f, omega (arith, s, t))
        | inr no_bytes ↦
            let (rs, f, t) = add_shares_lem seen ns (omega (arith, h)) in
            rw (add_shares, v, less, no_bytes) (rs, f, ground (arith, t, no_bytes))
      ]

  add_up_lem :
      (s : ℕ) (ns : List (AppBytes ℕ))
      → s + bytes_of ns < 9007199254740992
      → add_up d (d.whole s) (in_doubles d ns) ≡ d.whole (s + bytes_of ns)
  add_up_lem s [] h = ap d.whole (omega arith)
  add_up_lem s (c ∷ ns) h =
      rw (add_up, exact.plus s c.bytes (omega (arith, h)))
        (add_up_lem (s + c.bytes) ns (omega (arith, h)) ∙ ap d.whole (omega arith))

  Holds-attributed :
      (s : ℕ) (es : List (AppBytes F))
      → s < 9007199254740992
      → Holds s es
      → attributed d es ≡ d.whole s
  Holds-attributed s es h (ns, e, t) =
      rw e (add_up_lem 0 ns (omega (arith, h, t)) ∙ ap d.whole (omega (arith, t)))

  shares_lem :
      (billed : ℕ) (seen : List (AppBytes ℕ))
      → bytes_of seen ≤ billed
      → billed < 9007199254740992
      → Holds billed (split_across_apps d (d.whole billed) (in_doubles d seen))
  unfolding split_across_apps
  shares_lem billed seen fits h =
      let total = bytes_of seen in
      let all : attributed d (in_doubles d seen) ≡ d.whole total =
        add_up_lem 0 seen (omega (arith, h, fits)) ∙ ap d.whole (omega arith) in
      let more : ltb billed total ≡ false = ground (arith, fits) in
      let less = exact.is_less billed total h (omega (arith, h, fits)) ∙ more in
      let smaller : min total billed ≡ total = omega (arith, fits) in
      let least = exact.least total billed (omega (arith, h, fits)) h ∙ ap d.whole smaller in
      let rest = exact.minus billed total fits h in
      let left = exact.is_less 0 (billed - total) (omega arith) (omega (arith, h)) in
      let (ms, e, s) = add_shares_lem seen [] (omega (arith, h, fits)) in
      elim (Bool-cases (ltb 0 (billed - total))) [
        | inl some_left ↦
            let (rs, f, t) =
              add_bytes_lem unattributed (billed - total) ms (omega (arith, h, s, fits)) in
            rw (split_across_apps, all, less, least, rest, left, some_left, e)
              (rs, f, omega (arith, s, t, fits))
        | inr none_left ↦
            rw (split_across_apps, all, less, least, rest, left, none_left)
              (ms, e, ground (arith, s, fits, none_left))
      ]

-- Where the numbers below 2 ^ 53 are computed with exactly, and the connections of a device showed
-- no more bytes than it is billed: in each direction the shares of the apps, with that of Other, add
-- up to what is billed. (Where they showed more, the shares are scaled down, and rounded.)
pub split_across_apps-sum :
    {F : Type 0} (d : Doubles F)
    → IsExact d
    → (billed : ℕ) (seen : List (AppBytes ℕ)) → bytes_of seen ≤ billed
    → billed < 9007199254740992
    → attributed d (split_across_apps d (d.whole billed) (in_doubles d seen)) ≡ d.whole billed
split_across_apps-sum d exact billed seen fits h =
    Holds-attributed d exact billed (split_across_apps d (d.whole billed) (in_doubles d seen)) h
      (shares_lem d exact billed seen fits h)
