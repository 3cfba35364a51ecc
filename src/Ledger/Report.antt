-- ===== src/Ledger/Report.antt =====
-- The `summary` of apps/api/src/finance/ledger.service.ts: profit and loss for a range of days.
use netcam.Database.{Client}
use netcam.Prelude.Int.{pos, ℤ, ◌-ℤ◌}
use netcam.Earnings.{
  Sale, SaleSource, from_ssentezo, from_manual, from_voucher, Sold, sales, day_ms,
}
use netcam.Withdrawals.{Withdrawal, same_status, Status}
use netcam.Prelude.{
  ℕ, ◌+◌, ◌-◌, Bool, true, false, ◌&&◌, not, Option, none, some, List, [], ◌∷◌, map, Text, same,
  sum_of, take, Result, ok, err, ltb, leb, if◌then◌else◌, or_default, upsert, sort_by, text_ltb,
}
use netcam.Ledger.{
  EntryType, Entry, Books, Outside, Error, mobile_money_sales, printed_voucher_sales,
  manual_payments, withdrawal_fees, Range, range, is_within, income, expense,
}

pub record CategoryRow : Type 0 where
  pub category : Text
  pub amount_ugx : ℕ
  pub count : ℕ
  pub automatic : Bool

pub record MonthRow : Type 0 where
  pub month : Text
  pub income_ugx : ℕ
  pub expense_ugx : ℕ

-- The maps that the loops fill, and `withdrawnUgx`.
pub record Accounts : Type 0 where
  pub income : List CategoryRow
  pub expense : List CategoryRow
  pub monthly : List MonthRow
  pub withdrawn_ugx : ℕ

abbrev pub no_accounts : Accounts
no_accounts = record { income = []; expense = []; monthly = []; withdrawn_ugx = 0 }

abbrev pub month_of : Text → Text
month_of = take 7

abbrev pub new_category : Text → Bool → CategoryRow
new_category c automatic = record { category = c; amount_ugx = 0; count = 0; automatic = automatic }

abbrev pub add_amount : ℕ → CategoryRow → CategoryRow
add_amount n r = record r { amount_ugx = r.amount_ugx + n; count = r.count + 1 }

abbrev pub new_month : Text → MonthRow
new_month m = record { month = m; income_ugx = 0; expense_ugx = 0 }

abbrev pub add_to_month : EntryType → ℕ → MonthRow → MonthRow
add_to_month income n m = record m { income_ugx = m.income_ugx + n }
add_to_month expense n m = record m { expense_ugx = m.expense_ugx + n }

abbrev pub put_category : Text → ℕ → Bool → List CategoryRow → List CategoryRow
put_category c n automatic =
    upsert (λ r. same r.category c) (new_category c automatic) (add_amount n)

abbrev pub put_month : EntryType → ℕ → Text → List MonthRow → List MonthRow
put_month side n key =
    upsert (λ m. same m.month (month_of key)) (new_month (month_of key)) (add_to_month side n)

-- `add`: the bucket and the side go together.
unfoldable pub add : EntryType → Text → ℕ → Bool → Text → Accounts → Accounts
add income c n automatic key a = record a {
  income = put_category c n automatic a.income;
  monthly = put_month income n key a.monthly;
}
add expense c n automatic key a = record a {
  expense = put_category c n automatic a.expense;
  monthly = put_month expense n key a.monthly;
}

abbrev pub in_range : Range → Text → Bool
in_range d key = not (text_ltb key d.from) && not (text_ltb d.to key)

abbrev pub category_of_sale : SaleSource → Text
category_of_sale from_voucher = printed_voucher_sales
category_of_sale from_manual = manual_payments
category_of_sale from_ssentezo = mobile_money_sales

unfoldable pub add_sales : Outside → Range → List Sale → Accounts → Accounts
unfolding add
add_sales out d [] a = a
add_sales out d (s ∷ ss) a =
    let key = out.day_of s.at in
    let added = add income (category_of_sale s.source) s.amount_ugx true key a in
    add_sales out d ss (if in_range d key then added else a)

unfoldable pub add_entries : Outside → List Entry → Accounts → Accounts
unfolding add
add_entries out [] a = a
add_entries out (e ∷ es) a =
    add_entries out es (add e.type e.category e.amount_ugx false (out.iso_day e.occurred_on) a)

abbrev pub withdrawn : ℕ → Accounts → Accounts
withdrawn n a = record a { withdrawn_ugx = a.withdrawn_ugx + n }

-- The query asks for rows that have a time of completion.
abbrev pub completed_day : Outside → Withdrawal → Text
completed_day out w = out.day_of (or_default w.completed_at 0)

unfoldable pub add_withdrawals : Outside → Range → List Withdrawal → Accounts → Accounts
unfolding add
add_withdrawals out d [] a = a
add_withdrawals out d (w ∷ ws) a =
    let key = completed_day out w in
    let added = add expense withdrawal_fees w.fee_ugx true key (withdrawn w.amount_ugx a) in
    add_withdrawals out d ws (if in_range d key then added else a)

pub record Month : Type 0 where
  pub month : Text
  pub income_ugx : ℕ
  pub expense_ugx : ℕ
  pub profit_ugx : ℤ

pub record Summary : Type 0 where
  pub from : Text
  pub to : Text
  pub income_ugx : ℕ
  pub expense_ugx : ℕ
  pub profit_ugx : ℤ
  pub withdrawn_ugx : ℕ
  pub income : List CategoryRow
  pub expenses : List CategoryRow
  pub monthly : List Month

abbrev pub with_profit : MonthRow → Month
with_profit m = record {
  month = m.month;
  income_ugx = m.income_ugx;
  expense_ugx = m.expense_ugx;
  profit_ugx = pos m.income_ugx -ℤ pos m.expense_ugx;
}

abbrev pub by_amount : List CategoryRow → List CategoryRow
by_amount = sort_by (λ a b. ltb b.amount_ugx a.amount_ugx)

abbrev pub total_of : List CategoryRow → ℕ
total_of = sum_of (λ r. r.amount_ugx)

abbrev pub report_of : Range → Accounts → Summary
report_of d a = record {
  from = d.from;
  to = d.to;
  income_ugx = total_of a.income;
  expense_ugx = total_of a.expense;
  profit_ugx = pos (total_of a.income) -ℤ pos (total_of a.expense);
  withdrawn_ugx = a.withdrawn_ugx;
  income = by_amount a.income;
  expenses = by_amount a.expense;
  monthly = map with_profit (sort_by (λ a b. text_ltb a.month b.month) a.monthly);
}

abbrev pub is_paid_since : ℕ → Withdrawal → Bool
is_paid_since since w =
    same_status w.status Status.success
    && elim w.completed_at [ none ↦ false | some t ↦ leb since t ]

module _ (db : Client) where
  unfoldable pub accounts : Outside → Range → Sold → List Withdrawal → Books → Accounts
  unfolding add_sales add_entries add_withdrawals
  accounts out d sold withdrawals b =
      let since = d.from_date - day_ms in
      let paid = db.find_many Withdrawal (is_paid_since since) withdrawals in
      let rows = db.find_many Entry (is_within d) b.entries in
      add_withdrawals out d paid
        (add_entries out rows (add_sales out d (sales db since sold) no_accounts))

  unfoldable pub summary :
      Outside → Option Text → Option Text → Sold → List Withdrawal → Books → Result Error Summary
  unfolding accounts range
  summary out from to sold withdrawals b = elim (range out from to) [
    | err e ↦ err e
    | ok d ↦ ok (report_of d (accounts out d sold withdrawals b))
  ]
