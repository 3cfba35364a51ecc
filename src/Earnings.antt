-- ===== src/Earnings.antt =====
-- apps/api/src/payments/earnings.service.ts: what was sold, and the summary of it. The rows are the
-- columns that the queries select, with the package of the relation. `dayKey.format`, the calendar
-- day of a time, comes from outside, like the clock and the client's `groupBy`.
pub mod Summary
pub mod Totals
mod Tests
use netcam.Database.{Client}
use netcam.Payments.{PaymentStatus, success, failed, pending, cancelled}
use netcam.Prelude.{
  ℕ, zero, suc, ◌+◌, ◌-◌, ◌*◌, Bool, true, false, ◌&&◌, ◌||◌, not, Option, none, some, List, [],
  ◌∷◌, ◌++◌, map, Text, same, length, sum_of, any, select, leb, ◌==◌, if◌then◌else◌, or_default,
  is_some, upsert,
}

pub data Provider : Type 0 where
  ssentezo manual : Provider

pub data SaleSource : Type 0 where
  from_ssentezo from_manual from_voucher : SaleSource

pub record Package : Type 0 where
  pub id : ℕ
  pub name : Text
  pub price_ugx : ℕ

pub record Payment : Type 0 where
  pub amount_ugx : ℕ
  pub status : PaymentStatus
  pub provider : Provider
  pub created_at : ℕ
  pub completed_at : Option ℕ
  pub pkg : Package

pub record Voucher : Type 0 where
  pub activated_at : Option ℕ
  pub has_payment : Bool
  pub pkg : Package

pub record Sale : Type 0 where
  pub amount_ugx : ℕ
  pub at : ℕ
  pub source : SaleSource
  pub package_id : ℕ
  pub package_name : Text

pub record StatusCount : Type 0 where
  pub status : PaymentStatus
  pub count : ℕ

pub record Sold : Type 0 where
  pub payments : List Payment
  pub vouchers : List Voucher

pub record Outside : Type 0 where
  pub now : ℕ
  pub day_of : ℕ → Text
  -- `groupBy` the status, with the counts
  pub status_counts : (Payment → Bool) → List Payment → List StatusCount

abbrev pub day_ms : ℕ
day_ms = 24 * 60 * 60 * 1000

abbrev pub is_paid : Payment → Bool
is_paid p = elim p.status [ success ↦ true | _ ↦ false ]

-- The `where` on payments.
abbrev pub is_sale : ℕ → Payment → Bool
is_sale since p =
    is_paid p
    && (elim p.completed_at [ some t ↦ leb since t | none ↦ false ]
        || not (is_some p.completed_at) && leb since p.created_at)

-- The `where` on vouchers.
abbrev pub is_cash_sale : ℕ → Voucher → Bool
is_cash_sale since v = elim v.activated_at [
  | some t ↦ leb since t && not v.has_payment
  | none ↦ false
]

abbrev pub source_of : Provider → SaleSource
source_of ssentezo = from_ssentezo
source_of manual = from_manual

abbrev pub payment_sale : Payment → Sale
payment_sale p = record {
  amount_ugx = p.amount_ugx;
  at = or_default p.completed_at p.created_at;
  source = source_of p.provider;
  package_id = p.pkg.id;
  package_name = p.pkg.name;
}

-- The `where` leaves out vouchers without a time of activation.
abbrev pub voucher_sale : Voucher → Sale
voucher_sale v = record {
  amount_ugx = v.pkg.price_ugx;
  at = or_default v.activated_at 0;
  source = from_voucher;
  package_id = v.pkg.id;
  package_name = v.pkg.name;
}

module _ (db : Client) where
  unfoldable pub sales : ℕ → Sold → List Sale
  sales since b =
      map payment_sale (db.find_many Payment (is_sale since) b.payments)
      ++ map voucher_sale (db.find_many Voucher (is_cash_sale since) b.vouchers)

  unfoldable pub today_ugx : Outside → Sold → ℕ
  today_ugx out b =
      let today = out.day_of out.now in
      let sold = sales (out.now - 2 * day_ms) b in
      sum_of (λ s. s.amount_ugx) (select (λ s. same (out.day_of s.at) today) sold)

pub record Day : Type 0 where
  pub date : Text
  pub revenue_ugx : ℕ
  pub mobile_money_ugx : ℕ
  pub voucher_ugx : ℕ
  pub payments : ℕ

pub record PackageSales : Type 0 where
  pub package_id : ℕ
  pub name : Text
  pub revenue_ugx : ℕ
  pub payments : ℕ

pub record SourceSales : Type 0 where
  pub source : SaleSource
  pub revenue_ugx : ℕ
  pub sales : ℕ

-- The variables of the loop over the sales.
pub record Tally : Type 0 where
  pub daily : List Day
  pub by_package : List PackageSales
  pub by_source : List SourceSales
  pub today_ugx : ℕ
  pub week_ugx : ℕ
  pub range_ugx : ℕ
  pub range_count : ℕ

abbrev pub has_date : Text → Day → Bool
has_date key d = same d.date key

abbrev pub empty_day : Text → Day
empty_day key = record {
  date = key;
  revenue_ugx = 0;
  mobile_money_ugx = 0;
  voucher_ugx = 0;
  payments = 0;
}

abbrev pub same_source : SaleSource → SaleSource → Bool
same_source from_ssentezo from_ssentezo = true
same_source from_manual from_manual = true
same_source from_voucher from_voucher = true
same_source _ _ = false

abbrev pub add_to_day : Sale → Day → Day
add_to_day s d = elim s.source [
  | from_voucher ↦ record d {
    revenue_ugx = d.revenue_ugx + s.amount_ugx;
    voucher_ugx = d.voucher_ugx + s.amount_ugx;
    payments = d.payments + 1;
  }
  | _ ↦ record d {
    revenue_ugx = d.revenue_ugx + s.amount_ugx;
    mobile_money_ugx = d.mobile_money_ugx + s.amount_ugx;
    payments = d.payments + 1;
  }
]

abbrev pub new_package : Sale → PackageSales
new_package s = record {
  package_id = s.package_id;
  name = s.package_name;
  revenue_ugx = 0;
  payments = 0;
}

abbrev pub add_to_package : Sale → PackageSales → PackageSales
add_to_package s p = record p {
  revenue_ugx = p.revenue_ugx + s.amount_ugx;
  payments = p.payments + 1;
}

abbrev pub new_source : Sale → SourceSales
new_source s = record { source = s.source; revenue_ugx = 0; sales = 0 }

abbrev pub add_to_source : Sale → SourceSales → SourceSales
add_to_source s r = record r { revenue_ugx = r.revenue_ugx + s.amount_ugx; sales = r.sales + 1 }

-- The keys of the last `n` days, the oldest first.
abbrev pub day_keys : Outside → ℕ → List Text
day_keys out zero = []
day_keys out (suc i) = out.day_of (out.now - i * day_ms) ∷ day_keys out i

abbrev pub last_key : List Text → Text
last_key [] = []
last_key (k ∷ []) = k
last_key (_ ∷ k ∷ ks) = last_key (k ∷ ks)

abbrev pub drop {ℓ} : {A : Type ℓ} → ℕ → List A → List A
drop zero xs = xs
drop (suc n) [] = []
drop (suc n) (x ∷ xs) = drop n xs

-- `keys.slice(-7)`
abbrev pub last_week : List Text → List Text
last_week keys = drop (length keys - 7) keys

-- `new Map(keys.map(...))`
abbrev pub empty_days : List Text → List Day → List Day
empty_days [] days = days
empty_days (k ∷ ks) days = empty_days ks (upsert (has_date k) (empty_day k) (λ _. empty_day k) days)

abbrev pub tally_start : List Text → Tally
tally_start keys = record {
  daily = empty_days keys [];
  by_package = [];
  by_source = [];
  today_ugx = 0;
  week_ugx = 0;
  range_ugx = 0;
  range_count = 0;
}

-- One round of the loop over the sales.
unfoldable pub tally_sale : Outside → List Text → Sale → Tally → Tally
tally_sale out keys s t =
    let key = out.day_of s.at in
    if not (any (has_date key) t.daily) then t else record {
      daily = upsert (has_date key) (empty_day key) (add_to_day s) t.daily;
      by_package =
          upsert (λ p. p.package_id == s.package_id) (new_package s) (add_to_package s)
            t.by_package;
      by_source =
          upsert (λ r. same_source r.source s.source) (new_source s) (add_to_source s) t.by_source;
      today_ugx = t.today_ugx + (if same key (last_key keys) then s.amount_ugx else 0);
      week_ugx = t.week_ugx + (if any (same key) (last_week keys) then s.amount_ugx else 0);
      range_ugx = t.range_ugx + s.amount_ugx;
      range_count = t.range_count + 1;
    }

abbrev pub tally_sales : Outside → List Text → List Sale → Tally → Tally
tally_sales out keys [] t = t
tally_sales out keys (s ∷ ss) t = tally_sales out keys ss (tally_sale out keys s t)
