-- ===== src/Ledger/Figures.antt =====
-- The summary against the rows of the tables, whichever the queries select.
use netcam.Database.{Client, IsPrisma}
use netcam.Earnings.{
  Payment, Voucher, Sold, sales, day_ms, is_sale, is_cash_sale, payment_sale, voucher_sale,
}
use netcam.Payments.{success}
use netcam.Withdrawals.{Withdrawal, Status}
use netcam.Prelude.Int.{pos, ◌-ℤ◌}
use netcam.Prelude.{
  ℕ, ◌+◌, ◌-◌, ◌≡◌, refl, ◌∙◌, Bool, false, ◌&&◌, not, Option, none, some, List, [], ◌∷◌, map,
  arith, Text, sum_of, sum_of-append, if◌then◌else◌, select, ok, leb, or_default, text_ltb,
}
use netcam.Ledger.{Entry, Outside, Range, income, expense, Books, range, is_within}
use netcam.Ledger.Report.{
  Summary, report_of, is_paid_since, accounts, summary, add_withdrawals, add_entries, add_sales,
  no_accounts,
}
use netcam.Ledger.Profits.{IsMade, accounts_lem, sale_ugx, entry_ugx, fee_in, withdrawn_in}

-- A time on one of these days, and at most a day before the first of them begins.
abbrev pub is_on : Outside → Range → ℕ → Bool
is_on out d t =
    leb d.from_date (t + 86400000)
    && (if text_ltb (out.day_of t) d.from then false else not (text_ltb d.to (out.day_of t)))

-- What a payment that succeeded brings, on the day that it was completed, or else created.
abbrev pub paid_ugx : Outside → Range → Payment → ℕ
paid_ugx out d p = elim p.status [
  | success ↦ if is_on out d (or_default p.completed_at p.created_at) then p.amount_ugx else 0
  | _ ↦ 0
]

-- What a voucher that no payment bought brings, on the day that it is activated.
abbrev pub cash_ugx : Outside → Range → Voucher → ℕ
cash_ugx out d v = elim v.activated_at [
  | none ↦ 0
  | some t ↦ if v.has_payment then 0 else if is_on out d t then v.pkg.price_ugx else 0
]

-- The amount of an entry that was not deleted, dated from the first day to the last.
abbrev dated_ugx : Range → Entry → ℕ
dated_ugx d e = elim e.deleted_at [
  | some _ ↦ 0
  | none ↦
      if leb d.from_date e.occurred_on
      then (if leb e.occurred_on d.to_date then e.amount_ugx else 0)
      else 0
]

abbrev pub earned_ugx : Range → Entry → ℕ
earned_ugx d e = elim e.type [ income ↦ dated_ugx d e | expense ↦ 0 ]

abbrev pub spent_ugx : Range → Entry → ℕ
spent_ugx d e = elim e.type [ income ↦ 0 | expense ↦ dated_ugx d e ]

-- What a withdrawal that was paid counts, on the day that it was completed.
abbrev pub when_paid : Outside → Range → Withdrawal → ℕ → ℕ
when_paid out d w n = elim w.status [
  | Status.success ↦ elim w.completed_at [ none ↦ 0 | some t ↦ if is_on out d t then n else 0 ]
  | _ ↦ 0
]

sum_of-select :
    {A : Type 0} (p : A → Bool) (f h : A → ℕ)
    → ((a : A) → (if p a then f a else 0) ≡ h a)
    → (xs : List A) → sum_of f (select p xs) ≡ sum_of h xs
sum_of-select p f h e [] = refl
sum_of-select p f h e (a ∷ rest) = ground (arith, e a, sum_of-select p f h e rest)

sum_of-map :
    {A B : Type 0} (f : B → ℕ) (g : A → B) (xs : List A)
    → sum_of f (map g xs) ≡ sum_of (λ a. f (g a)) xs
sum_of-map f g [] = refl
sum_of-map f g (a ∷ rest) = omega (arith, sum_of-map f g rest)

payments_lem :
    (out : Outside) (d : Range) (p : Payment)
    → (if is_sale (d.from_date - day_ms) p then sale_ugx out d (payment_sale p) else 0)
      ≡ paid_ugx out d p
payments_lem out d p = ground arith

vouchers_lem :
    (out : Outside) (d : Range) (v : Voucher)
    → (if is_cash_sale (d.from_date - day_ms) v then sale_ugx out d (voucher_sale v) else 0)
      ≡ cash_ugx out d v
vouchers_lem out d v = ground arith

earned_lem :
    (d : Range) (e : Entry) → (if is_within d e then entry_ugx income e else 0) ≡ earned_ugx d e
earned_lem d e = ground arith

spent_lem :
    (d : Range) (e : Entry) → (if is_within d e then entry_ugx expense e else 0) ≡ spent_ugx d e
spent_lem d e = ground arith

fees_lem :
    (out : Outside) (d : Range) (w : Withdrawal)
    → (if is_paid_since (d.from_date - day_ms) w then fee_in out d w else 0)
      ≡ when_paid out d w w.fee_ugx
fees_lem out d w = ground arith

withdrawn_lem :
    (out : Outside) (d : Range) (w : Withdrawal)
    → (if is_paid_since (d.from_date - day_ms) w then withdrawn_in out d w else 0)
      ≡ when_paid out d w w.amount_ugx
withdrawn_lem out d w = ground arith

sales_lem :
    (db : Client)
    → IsPrisma db
    → (out : Outside) (d : Range) (b : Sold)
    → sum_of (sale_ugx out d) (sales db (d.from_date - day_ms) b)
      ≡ sum_of (paid_ugx out d) b.payments + sum_of (cash_ugx out d) b.vouchers
unfolding sales
sales_lem db lawful out d b =
    let since = d.from_date - day_ms in
    let ps = select (is_sale since) b.payments in
    let vs = select (is_cash_sale since) b.vouchers in
    let f = sale_ugx out d in
    rw
      (
        sales,
        lawful.selects Payment (is_sale since) b.payments,
        lawful.selects Voucher (is_cash_sale since) b.vouchers,
        sum_of-append f (map payment_sale ps) (map voucher_sale vs),
        sum_of-map f payment_sale ps,
        sum_of-map f voucher_sale vs,
        sum_of-select (is_sale since) (λ p. f (payment_sale p)) (paid_ugx out d)
            (payments_lem out d) b.payments,
        sum_of-select (is_cash_sale since) (λ v. f (voucher_sale v)) (cash_ugx out d)
            (vouchers_lem out d) b.vouchers,
      )
      refl

-- A report of all that is in these tables.
pub record IsReport (out : Outside) (d : Range) (sold : Sold) (es : List Entry)
    (ws : List Withdrawal) (r : Summary) : Type 0 where
  pub income :
      r.income_ugx
      ≡ sum_of (paid_ugx out d) sold.payments
        + sum_of (cash_ugx out d) sold.vouchers
        + sum_of (earned_ugx d) es
  pub expense :
      r.expense_ugx ≡ sum_of (spent_ugx d) es + sum_of (λ w. when_paid out d w w.fee_ugx) ws
  pub withdrawn : r.withdrawn_ugx ≡ sum_of (λ w. when_paid out d w w.amount_ugx) ws
  pub income_categories : sum_of (λ c. c.amount_ugx) r.income ≡ r.income_ugx
  pub expense_categories : sum_of (λ c. c.amount_ugx) r.expenses ≡ r.expense_ugx
  pub income_months : sum_of (λ m. m.income_ugx) r.monthly ≡ r.income_ugx
  pub expense_months : sum_of (λ m. m.expense_ugx) r.monthly ≡ r.expense_ugx
  pub profit : r.profit_ugx ≡ pos r.income_ugx -ℤ pos r.expense_ugx

made-IsReport :
    (db : Client)
    → IsPrisma db
    → (out : Outside) (d : Range) (sold : Sold) (es : List Entry) (ws : List Withdrawal)
      (r : Summary)
    → IsMade out d
        (sales db (d.from_date - day_ms) sold)
        (select (is_within d) es)
        (select (is_paid_since (d.from_date - day_ms)) ws)
        r
    → IsReport out d sold es ws r
made-IsReport db lawful out d sold es ws r made =
    let paid = is_paid_since (d.from_date - day_ms) in
    let all_sales = sales_lem db lawful out d sold in
    let all_earned =
      sum_of-select (is_within d) (entry_ugx income) (earned_ugx d) (earned_lem d) es in
    let all_spent =
      sum_of-select (is_within d) (entry_ugx expense) (spent_ugx d) (spent_lem d) es in
    let all_fees = sum_of-select paid (fee_in out d) _ (fees_lem out d) ws in
    let all_withdrawn = sum_of-select paid (withdrawn_in out d) _ (withdrawn_lem out d) ws in
    record {
      income = omega (arith, made.income, all_sales, all_earned);
      expense = omega (arith, made.expense, all_spent, all_fees);
      withdrawn = made.withdrawn ∙ all_withdrawn;
      income_categories = made.income_categories;
      expense_categories = made.expense_categories;
      income_months = made.income_months;
      expense_months = made.expense_months;
      profit = made.profit;
    }

-- For a range of days that is valid there is a summary. An entry counts if it is dated in the range
-- and was not deleted, a payment, voucher or withdrawal if its day is in the range and its time at
-- most a day before the range begins. The income is that of the payments that succeeded, on the day
-- of their completion, or else of their creation, of the vouchers that no payment bought, on the day
-- of their activation, and of the income entries; the expense that of the expense entries and of the
-- fees of the withdrawals that succeeded, on the day of their completion. What was withdrawn is no
-- expense, and income and expense are each the sum of their categories and the sum of the months.
-- The profit is the difference.
pub summary-IsReport :
    (db : Client)
    → IsPrisma db
    → (out : Outside) (from to : Option Text) (sold : Sold) (ws : List Withdrawal) (b : Books)
      (d : Range)
    → range out from to ≡ ok d
    → (r : Summary) × (summary db out from to sold ws b ≡ ok r) × IsReport out d sold b.entries ws r
unfolding summary accounts
summary-IsReport db lawful out from to sold ws b d valid =
    let since = d.from_date - day_ms in
    let es = select (is_within d) b.entries in
    let paid = select (is_paid_since since) ws in
    let ss = sales db since sold in
    let r =
      report_of d
        (add_withdrawals out d paid (add_entries out es (add_sales out d ss no_accounts))) in
    (
      r,
      rw
          (
            summary,
            accounts,
            valid,
            lawful.selects Entry (is_within d) b.entries,
            lawful.selects Withdrawal (is_paid_since since) ws,
          )
          refl,
      made-IsReport db lawful out d sold b.entries ws r (accounts_lem out d ss es paid),
    )
