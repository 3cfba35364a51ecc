-- ===== src/Earnings/Totals.antt =====
-- The figures of the earnings summary agree with one another.
use netcam.Prelude.{
  ◌+◌, ◌≤◌, ◌≡◌, sum_of, ℕ, zero, suc, ◌-◌, ◌*◌, ◌<◌, refl, inl, inr, Bool, true, false, Option,
  none, some, List, [], ◌∷◌, arith, Text, same, length, any, ltb, ◌==◌, if◌then◌else◌, Bool-cases,
  upsert, sum_of-upsert, sum_of-sort_by,
}
use netcam.Earnings.{
  Tally, Sale, Sold, Outside, day_ms, sales, Day, has_date, empty_day, same_source, add_to_day,
  new_package, add_to_package, new_source, add_to_source, day_keys, last_key, drop, last_week,
  empty_days, tally_start, tally_sale, tally_sales, from_voucher,
}
use netcam.Earnings.Summary.{clamp_days, tally, summary}
use netcam.Prelude.Int.{ℤ}
use netcam.Database.{Client}

-- The same sum of money, four times.
pub record AddsUp (t : Tally) : Type 0 where
  pub days : sum_of (λ d. d.revenue_ugx) t.daily ≡ t.range_ugx
  pub channels :
      sum_of (λ d. d.mobile_money_ugx) t.daily + sum_of (λ d. d.voucher_ugx) t.daily ≡ t.range_ugx
  pub packages : sum_of (λ p. p.revenue_ugx) t.by_package ≡ t.range_ugx
  pub sources : sum_of (λ r. r.revenue_ugx) t.by_source ≡ t.range_ugx
  pub counts : sum_of (λ p. p.payments) t.by_package ≡ t.range_count
  pub week : t.today_ugx ≤ t.week_ugx
  pub range : t.week_ugx ≤ t.range_ugx

-- Today is among the last seven days.
abbrev TodayInWeek : List Text → Type 0
TodayInWeek keys = (k : Text) → same k (last_key keys) ≡ true → any (same k) (last_week keys) ≡ true

any-last_key :
    (k : Text) (n : ℕ) (x : Text) (ks : List Text)
    → n < length (x ∷ ks)
    → same k (last_key (x ∷ ks)) ≡ true
    → any (same k) (drop n (x ∷ ks)) ≡ true
any-last_key k zero x [] h e = ground (arith, e)
any-last_key k zero x (y ∷ ks) h e = ground (arith, e, any-last_key k zero y ks (omega arith) e)
any-last_key k (suc n) x [] h e = ground (arith, h)
any-last_key k (suc n) x (y ∷ ks) h e = any-last_key k n y ks (omega (arith, h)) e

length-day_keys : (out : Outside) (n : ℕ) → length (day_keys out n) ≡ n
length-day_keys out zero = refl
length-day_keys out (suc n) = omega (arith, length-day_keys out n)

today_in_week : (out : Outside) (n : ℕ) → 7 ≤ n → TodayInWeek (day_keys out n)
today_in_week out zero h k e = ground (arith, h)
today_in_week out (suc n) h k e =
    any-last_key k (length (day_keys out (suc n)) - 7) (out.day_of (out.now - n * day_ms))
      (day_keys out n) (omega (arith, length-day_keys out n)) e

week_lem :
    (keys : List Text) (k : Text) (n : ℕ)
    → TodayInWeek keys
    → (if same k (last_key keys) then n else 0) ≤ (if any (same k) (last_week keys) then n else 0)
week_lem keys k n h = elim (Bool-cases (same k (last_key keys))) [
  | inl today ↦ rw (today, h k today) (omega arith)
  | inr other ↦ rw other (omega arith)
]

if_le : (c : Bool) (n : ℕ) → (if c then n else 0) ≤ n
if_le true n = omega arith
if_le false n = omega arith

revenue_added : (s : Sale) (d : Day) → (add_to_day s d).revenue_ugx ≡ d.revenue_ugx + s.amount_ugx
revenue_added s d = ground arith

-- What a sale adds to a day's mobile money and to its vouchers.
abbrev mobile_part : Sale → ℕ
mobile_part s = if same_source s.source from_voucher then 0 else s.amount_ugx

abbrev voucher_part : Sale → ℕ
voucher_part s = if same_source s.source from_voucher then s.amount_ugx else 0

mobile_added :
    (s : Sale) (d : Day) → (add_to_day s d).mobile_money_ugx ≡ d.mobile_money_ugx + mobile_part s
mobile_added s d = ground arith

voucher_added : (s : Sale) (d : Day) → (add_to_day s d).voucher_ugx ≡ d.voucher_ugx + voucher_part s
voucher_added s d = ground arith

tally_sale_lem :
    (out : Outside) (keys : List Text) (s : Sale) (t : Tally)
    → TodayInWeek keys
    → AddsUp t
    → AddsUp (tally_sale out keys s t)
unfolding tally_sale
tally_sale_lem out keys s t h a =
    let key = out.day_of s.at in
    let n = s.amount_ugx in
    let found = has_date key in
    elim (Bool-cases (any found t.daily)) [
      | inr outside ↦ rw (tally_sale, outside) a
      | inl inside ↦
          rw (tally_sale, inside)
            (record {
              days = omega (
                arith,
                a.days,
                sum_of-upsert (λ d. d.revenue_ugx) found (empty_day key) (add_to_day s) n
                    (revenue_added s) refl t.daily,
              );
              channels = ground (
                arith,
                a.channels,
                sum_of-upsert (λ d. d.mobile_money_ugx) found (empty_day key) (add_to_day s)
                    (mobile_part s) (mobile_added s) refl t.daily,
                sum_of-upsert (λ d. d.voucher_ugx) found (empty_day key) (add_to_day s)
                    (voucher_part s) (voucher_added s) refl t.daily,
              );
              packages = omega (
                arith,
                a.packages,
                sum_of-upsert (λ p. p.revenue_ugx) (λ p. p.package_id == s.package_id)
                    (new_package s) (add_to_package s) n (λ p. refl) refl t.by_package,
              );
              sources = omega (
                arith,
                a.sources,
                sum_of-upsert (λ r. r.revenue_ugx) (λ r. same_source r.source s.source)
                    (new_source s) (add_to_source s) n (λ r. refl) refl t.by_source,
              );
              counts = omega (
                arith,
                a.counts,
                sum_of-upsert (λ p. p.payments) (λ p. p.package_id == s.package_id) (new_package s)
                    (add_to_package s) 1 (λ p. refl) refl t.by_package,
              );
              week = omega (arith, a.week, week_lem keys key n h);
              range = omega (arith, a.range, if_le (any (same key) (last_week keys)) n);
            })
    ]

tally_sales_lem :
    (out : Outside) (keys : List Text) (ss : List Sale) (t : Tally)
    → TodayInWeek keys
    → AddsUp t
    → AddsUp (tally_sales out keys ss t)
tally_sales_lem out keys [] t h a = a
tally_sales_lem out keys (s ∷ ss) t h a =
    tally_sales_lem out keys ss (tally_sale out keys s t) h (tally_sale_lem out keys s t h a)

sum_reset :
    (g : Day → ℕ) (p : Day → Bool) (d : Day)
    → g d ≡ 0
    → (ds : List Day) → sum_of g ds ≡ 0
    → sum_of g (upsert p d (λ _. d) ds) ≡ 0
sum_reset g p d z [] h = omega (arith, z)
sum_reset g p d z (x ∷ xs) h = ground (arith, z, h, sum_reset g p d z xs)

-- Days without sales.
no_sales :
    (g : Day → ℕ)
    → ((k : Text) → g (empty_day k) ≡ 0)
    → (ks : List Text) (ds : List Day) → sum_of g ds ≡ 0
    → sum_of g (empty_days ks ds) ≡ 0
no_sales g e [] ds h = h
no_sales g e (k ∷ ks) ds h =
    no_sales g e ks (upsert (has_date k) (empty_day k) (λ _. empty_day k) ds)
      (sum_reset g (has_date k) (empty_day k) (e k) ds h)

tally_start_lem : (keys : List Text) → AddsUp (tally_start keys)
tally_start_lem keys = record {
  days = no_sales (λ d. d.revenue_ugx) (λ k. refl) keys [] refl;
  channels = omega (
    arith,
    no_sales (λ d. d.mobile_money_ugx) (λ k. refl) keys [] refl,
    no_sales (λ d. d.voucher_ugx) (λ k. refl) keys [] refl,
  );
  packages = refl;
  sources = refl;
  counts = refl;
  week = omega arith;
  range = omega arith;
}

at_least_a_week : (n : Option ℤ) → 7 ≤ clamp_days n
at_least_a_week none = omega arith
at_least_a_week (some n) = ground arith

-- In the summary, of any number of days and any sales, the revenue of the days, the mobile money and
-- the voucher sales of the days together, the revenue of the packages and the revenue of the sources
-- each add up to the revenue of the range; today's is at most the week's, which is at most the range's.
pub summary-sums :
    (db : Client) (out : Outside) (range_days : Option ℤ) (b : Sold)
    → let r = summary db out range_days b in
      let range = r.totals.range_ugx in
      (sum_of (λ d. d.revenue_ugx) r.daily ≡ range)
      × (sum_of (λ d. d.mobile_money_ugx) r.daily + sum_of (λ d. d.voucher_ugx) r.daily ≡ range)
      × (sum_of (λ p. p.revenue_ugx) r.by_package ≡ range)
      × (sum_of (λ s. s.revenue_ugx) r.by_source ≡ range)
      × (r.totals.today_ugx ≤ r.totals.last_7_days_ugx)
      × (r.totals.last_7_days_ugx ≤ range)
unfolding summary tally
summary-sums db out range_days b =
    let days = clamp_days range_days in
    let keys = day_keys out days in
    let sold = sales db (out.now - (days + 1) * day_ms) b in
    let a =
      tally_sales_lem out keys sold (tally_start keys)
        (today_in_week out days (at_least_a_week range_days)) (tally_start_lem keys) in
    let t = tally_sales out keys sold (tally_start keys) in
    (
      a.days,
      a.channels,
      omega (
        arith,
        a.packages,
        sum_of-sort_by (λ p. p.revenue_ugx) (λ a b. ltb b.revenue_ugx a.revenue_ugx) t.by_package,
      ),
      omega (
        arith,
        a.sources,
        sum_of-sort_by (λ p. p.revenue_ugx) (λ a b. ltb b.revenue_ugx a.revenue_ugx) t.by_source,
      ),
      a.week,
      a.range,
    )
