-- ===== src/Earnings/Tests.antt =====
-- Tests and examples on concrete sales.
use netcam.Database.{list_client}
use netcam.Payments.{success, pending}
use netcam.Prelude.Int.{pos}
use netcam.Earnings.Summary.{summary, Summary, tally}
use netcam.Earnings.Totals.{summary-sums}
use netcam.Prelude.{
  ℕ, ◌+◌, ◌/◌, ◌≤◌, ◌≡◌, refl, false, none, some, [], ◌∷◌, map, Text, codes, sum_of,
}
use netcam.Earnings.{Package, Sold, Outside, sales, tally_sale, ssentezo, manual}

abbrev daily_pass : Package
daily_pass = record { id = 1; name = codes "Day"; price_ugx = 1000 }

-- Days are numbered from the first.
abbrev day_number : ℕ → Text
day_number t = t / 86400000 ∷ []

abbrev outside : Outside
outside = record { now = 864000000; day_of = day_number; status_counts = λ p rows. [] }

abbrev sold : Sold
sold = record {
  payments =
      record {
        amount_ugx = 1000;
        status = success;
        provider = ssentezo;
        created_at = 863000000;
        completed_at = some 863999999;
        pkg = daily_pass;
      }
      ∷ record {
        amount_ugx = 700;
        status = success;
        provider = manual;
        created_at = 864000000;
        completed_at = none;
        pkg = daily_pass;
      }
      ∷ record {
        amount_ugx = 900;
        status = pending;
        provider = ssentezo;
        created_at = 864000000;
        completed_at = none;
        pkg = daily_pass;
      }
      ∷ [];
  vouchers =
      record { activated_at = some 100000000; has_payment = false; pkg = daily_pass }
      ∷ record { activated_at = some 500000000; has_payment = false; pkg = daily_pass }
      ∷ [];
}

abbrev week : Summary
week = summary list_client outside (some (pos 7)) sold

-- The payments count once each, and the voucher of day 1 is too old.
payments_and_vouchers_count :
    map (λ d. d.revenue_ugx) week.daily ≡ 0 ∷ 1000 ∷ 0 ∷ 0 ∷ 0 ∷ 1000 ∷ 700 ∷ []
unfolding summary tally sales tally_sale
payments_and_vouchers_count = refl

summary-sums_example :
    let r = summary list_client outside (some (pos 7)) sold in
    let range = r.totals.range_ugx in
    (sum_of (λ d. d.revenue_ugx) r.daily ≡ range)
    × (sum_of (λ d. d.mobile_money_ugx) r.daily + sum_of (λ d. d.voucher_ugx) r.daily ≡ range)
    × (sum_of (λ p. p.revenue_ugx) r.by_package ≡ range)
    × (sum_of (λ s. s.revenue_ugx) r.by_source ≡ range)
    × (r.totals.today_ugx ≤ r.totals.last_7_days_ugx)
    × (r.totals.last_7_days_ugx ≤ range)
summary-sums_example = summary-sums list_client outside (some (pos 7)) sold
