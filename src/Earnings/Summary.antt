-- ===== src/Earnings/Summary.antt =====
-- The `summary` of apps/api/src/payments/earnings.service.ts. A number of days that is not a number
-- is `none`, and a mean is rounded as `Math.round` does.
use netcam.Database.{Client}
use netcam.Payments.{PaymentStatus, success, failed, pending, cancelled}
use netcam.Prelude.{
  ℕ, ◌+◌, ◌-◌, ◌*◌, ◌/◌, min, max, Bool, true, false, ◌&&◌, not, Option, none, some, List, length,
  sum_of, find, ltb, leb, ◌==◌, if◌then◌else◌, is_some, sort_by,
}
use netcam.Earnings.{
  Payment, Voucher, StatusCount, Sold, Outside, day_ms, is_paid, sales, Day, PackageSales,
  SourceSales, Tally, same_source, day_keys, tally_start, tally_sale, tally_sales, from_voucher,
}
use netcam.Prelude.Int.{ℤ, pos_part, neg_part}

pub record Totals : Type 0 where
  pub today_ugx : ℕ
  pub last_7_days_ugx : ℕ
  pub range_ugx : ℕ
  pub all_time_ugx : ℕ
  pub average_per_day_ugx : ℕ
  pub average_payment_ugx : ℕ

pub record Counts : Type 0 where
  pub success : ℕ
  pub pending : ℕ
  pub failed : ℕ
  pub cancelled : ℕ
  pub all_time_success : ℕ
  pub vouchers_sold : ℕ
  -- the numerator and the denominator
  pub success_rate : Option (ℕ × ℕ)

pub record Summary : Type 0 where
  pub range_days : ℕ
  pub totals : Totals
  pub counts : Counts
  pub daily : List Day
  pub by_package : List PackageSales
  pub by_source : List SourceSales

-- `Math.min(Math.max(Math.floor(rangeDays) || 30, 7), 365)`
abbrev pub clamp_days : Option ℤ → ℕ
clamp_days none = 30
clamp_days (some n) =
    let days = if pos_part n == 0 && neg_part n == 0 then 30 else pos_part n in min (max days 7) 365

-- `Math.round(a / b)`, for b above 0
abbrev pub round_div : ℕ → ℕ → ℕ
round_div a b = (2 * a + b) / (2 * b)

abbrev same_status : PaymentStatus → PaymentStatus → Bool
same_status success success = true
same_status pending pending = true
same_status failed failed = true
same_status cancelled cancelled = true
same_status _ _ = false

-- `counts[status] ?? 0`; a later entry would win, but `groupBy` has one for each status.
abbrev pub count_of : PaymentStatus → List StatusCount → ℕ
count_of s counts = elim (find (λ c. same_status c.status s) counts) [ none ↦ 0 | some c ↦ c.count ]

abbrev pub voucher_count : List SourceSales → ℕ
voucher_count rows = elim (find (λ r. same_source r.source from_voucher) rows) [
  | none ↦ 0
  | some r ↦ r.sales
]

abbrev pub is_never_paid : Voucher → Bool
is_never_paid v = is_some v.activated_at && not v.has_payment

abbrev pub counts_of : List StatusCount → ℕ → List SourceSales → Counts
counts_of counts paid rows =
    let attempted = count_of success counts + count_of failed counts + count_of cancelled counts in
    record {
      success = count_of success counts;
      pending = count_of pending counts;
      failed = count_of failed counts;
      cancelled = count_of cancelled counts;
      all_time_success = paid;
      vouchers_sold = voucher_count rows;
      success_rate = if attempted == 0 then none else some (count_of success counts, attempted);
    }

module _ (db : Client) where
  unfoldable pub all_time_ugx : Sold → ℕ
  all_time_ugx b =
      db.sum Payment is_paid (λ p. p.amount_ugx) b.payments
      + sum_of (λ v. v.pkg.price_ugx) (db.find_many Voucher is_never_paid b.vouchers)

  unfoldable pub tally : Outside → ℕ → Sold → Tally
  unfolding tally_sale sales
  tally out days b =
      let keys = day_keys out days in
      tally_sales out keys (sales db (out.now - (days + 1) * day_ms) b) (tally_start keys)

  unfoldable pub summary : Outside → Option ℤ → Sold → Summary
  unfolding tally all_time_ugx
  summary out range_days b =
      let days = clamp_days range_days in
      let since = out.now - (days + 1) * day_ms in
      let t = tally out days b in
      let counts = out.status_counts (λ p. leb since p.created_at) b.payments in
      let paid = length (db.find_many Payment is_paid b.payments) in
      record {
        range_days = days;
        totals = record {
          today_ugx = t.today_ugx;
          last_7_days_ugx = t.week_ugx;
          range_ugx = t.range_ugx;
          all_time_ugx = all_time_ugx b;
          average_per_day_ugx = round_div t.range_ugx days;
          average_payment_ugx =
              if t.range_count == 0 then 0 else round_div t.range_ugx t.range_count;
        };
        counts = counts_of counts paid t.by_source;
        daily = t.daily;
        by_package = sort_by (λ a b. ltb b.revenue_ugx a.revenue_ugx) t.by_package;
        by_source = sort_by (λ a b. ltb b.revenue_ugx a.revenue_ugx) t.by_source;
      }
