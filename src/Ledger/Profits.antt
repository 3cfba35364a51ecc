-- ===== src/Ledger/Profits.antt =====
-- The totals of the report are those of the rows, by category and by month.
use netcam.Earnings.{Sale}
use netcam.Withdrawals.{Withdrawal}
use netcam.Prelude.Int.{pos, ◌-ℤ◌}
use netcam.Prelude.{
  ℕ, ◌+◌, ◌≡◌, refl, inl, inr, Bool, true, false, List, [], ◌∷◌, arith, Text, same, sum_of,
  if◌then◌else◌, Bool-cases, sum_of-upsert, ◌∙◌, map, ltb, sort_by, sum_of-sort_by, text_ltb,
}
use netcam.Ledger.{EntryType, Entry, Outside, Range, same_type, income, expense, withdrawal_fees}
use netcam.Ledger.Report.{
  CategoryRow, MonthRow, Accounts, month_of, new_category, add_amount, new_month, add_to_month,
  put_category, put_month, add, in_range, category_of_sale, add_sales, completed_day, total_of,
  no_accounts, add_entries, withdrawn, add_withdrawals, Month, Summary, with_profit, by_amount,
  report_of,
}

abbrev income_by_month : Accounts → ℕ
income_by_month a = sum_of (λ m. m.income_ugx) a.monthly

abbrev expense_by_month : Accounts → ℕ
expense_by_month a = sum_of (λ m. m.expense_ugx) a.monthly

-- `b` has these amounts more than `a`, in its categories and in its months.
record IsMore (i e w : ℕ) (a b : Accounts) : Type 0 where
  income_total : total_of b.income ≡ total_of a.income + i
  expense_total : total_of b.expense ≡ total_of a.expense + e
  income_months : income_by_month b ≡ income_by_month a + i
  expense_months : expense_by_month b ≡ expense_by_month a + e
  withdrawn_total : b.withdrawn_ugx ≡ a.withdrawn_ugx + w

put_category_lem :
    (c : Text) (n : ℕ) (auto : Bool) (rs : List CategoryRow)
    → total_of (put_category c n auto rs) ≡ total_of rs + n
put_category_lem c n auto rs =
    sum_of-upsert (λ r. r.amount_ugx) (λ r. same r.category c) (new_category c auto) (add_amount n)
      n (λ r. refl) refl rs

put_month_lem :
    (g : MonthRow → ℕ) (side : EntryType) (n k : ℕ) (key : Text)
    → ((m : MonthRow) → g (add_to_month side n m) ≡ g m + k)
    → g (new_month (month_of key)) ≡ 0
    → (ms : List MonthRow) → sum_of g (put_month side n key ms) ≡ sum_of g ms + k
put_month_lem g side n k key =
    sum_of-upsert g (λ m. same m.month (month_of key)) (new_month (month_of key))
      (add_to_month side n) k

add_income :
    (c key : Text) (n : ℕ) (auto : Bool) (a : Accounts) → IsMore n 0 0 a (add income c n auto key a)
unfolding add
add_income c key n auto a = record {
  income_total = put_category_lem c n auto a.income;
  expense_total = omega arith;
  income_months = put_month_lem (λ m. m.income_ugx) income n n key (λ m. refl) refl a.monthly;
  expense_months =
      put_month_lem (λ m. m.expense_ugx) income n 0 key (λ m. omega arith) refl a.monthly;
  withdrawn_total = omega arith;
}

add_expense :
    (c key : Text) (n : ℕ) (auto : Bool) (a : Accounts)
    → IsMore 0 n 0 a (add expense c n auto key a)
unfolding add
add_expense c key n auto a = record {
  income_total = omega arith;
  expense_total = put_category_lem c n auto a.expense;
  income_months =
      put_month_lem (λ m. m.income_ugx) expense n 0 key (λ m. omega arith) refl a.monthly;
  expense_months = put_month_lem (λ m. m.expense_ugx) expense n n key (λ m. refl) refl a.monthly;
  withdrawn_total = omega arith;
}

same_accounts : (a : Accounts) → IsMore 0 0 0 a a
same_accounts a = record {
  income_total = omega arith;
  expense_total = omega arith;
  income_months = omega arith;
  expense_months = omega arith;
  withdrawn_total = omega arith;
}

added_twice :
    (i e w j f v : ℕ) (a b c : Accounts)
    → IsMore i e w a b
    → IsMore j f v b c
    → IsMore (i + j) (e + f) (w + v) a c
added_twice i e w j f v a b c h k = record {
  income_total = omega (arith, h.income_total, k.income_total);
  expense_total = omega (arith, h.expense_total, k.expense_total);
  income_months = omega (arith, h.income_months, k.income_months);
  expense_months = omega (arith, h.expense_months, k.expense_months);
  withdrawn_total = omega (arith, h.withdrawn_total, k.withdrawn_total);
}

-- What a sale, an entry and a withdrawal stand for.
abbrev pub sale_ugx : Outside → Range → Sale → ℕ
sale_ugx out d s = if in_range d (out.day_of s.at) then s.amount_ugx else 0

abbrev pub entry_ugx : EntryType → Entry → ℕ
entry_ugx t e = if same_type e.type t then e.amount_ugx else 0

abbrev pub fee_in : Outside → Range → Withdrawal → ℕ
fee_in out d w = if in_range d (completed_day out w) then w.fee_ugx else 0

abbrev pub withdrawn_in : Outside → Range → Withdrawal → ℕ
withdrawn_in out d w = if in_range d (completed_day out w) then w.amount_ugx else 0

add_sales_lem :
    (out : Outside) (d : Range) (ss : List Sale) (a : Accounts)
    → IsMore (sum_of (sale_ugx out d) ss) 0 0 a (add_sales out d ss a)
unfolding add_sales
add_sales_lem out d [] a = same_accounts a
add_sales_lem out d (s ∷ ss) a =
    let key = out.day_of s.at in
    let added = add income (category_of_sale s.source) s.amount_ugx true key a in
    elim (Bool-cases (in_range d key)) [
      | inl inside ↦
          rw (add_sales, inside)
            (added_twice s.amount_ugx 0 0 (sum_of (sale_ugx out d) ss) 0 0 a added
              (add_sales out d ss added)
              (add_income (category_of_sale s.source) key s.amount_ugx true a)
              (add_sales_lem out d ss added))
      | inr outside ↦
          rw (add_sales, outside)
            (added_twice 0 0 0 (sum_of (sale_ugx out d) ss) 0 0 a a (add_sales out d ss a)
              (same_accounts a) (add_sales_lem out d ss a))
    ]

add_typed :
    (t : EntryType) (c key : Text) (n : ℕ) (a : Accounts)
    → IsMore
        (if same_type t income then n else 0)
        (if same_type t expense then n else 0)
        0
        a
        (add t c n false key a)
add_typed income c key n a = add_income c key n false a
add_typed expense c key n a = add_expense c key n false a

add_entries_lem :
    (out : Outside) (es : List Entry) (a : Accounts)
    → IsMore
        (sum_of (entry_ugx income) es)
        (sum_of (entry_ugx expense) es)
        0
        a
        (add_entries out es a)
unfolding add_entries
add_entries_lem out [] a = same_accounts a
add_entries_lem out (e ∷ es) a =
    let key = out.iso_day e.occurred_on in
    let added = add e.type e.category e.amount_ugx false key a in
    added_twice (entry_ugx income e) (entry_ugx expense e) 0 (sum_of (entry_ugx income) es)
      (sum_of (entry_ugx expense) es) 0 a added (add_entries out es added)
      (add_typed e.type e.category key e.amount_ugx a) (add_entries_lem out es added)

add_fee :
    (c key : Text) (n v : ℕ) (a : Accounts)
    → IsMore 0 n v a (add expense c n true key (withdrawn v a))
unfolding add
add_fee c key n v a = record {
  income_total = omega arith;
  expense_total = put_category_lem c n true a.expense;
  income_months =
      put_month_lem (λ m. m.income_ugx) expense n 0 key (λ m. omega arith) refl a.monthly;
  expense_months = put_month_lem (λ m. m.expense_ugx) expense n n key (λ m. refl) refl a.monthly;
  withdrawn_total = refl;
}

add_withdrawals_lem :
    (out : Outside) (d : Range) (ws : List Withdrawal) (a : Accounts)
    → IsMore 0
        (sum_of (fee_in out d) ws)
        (sum_of (withdrawn_in out d) ws)
        a
        (add_withdrawals out d ws a)
unfolding add_withdrawals
add_withdrawals_lem out d [] a = same_accounts a
add_withdrawals_lem out d (w ∷ ws) a =
    let key = completed_day out w in
    let added = add expense withdrawal_fees w.fee_ugx true key (withdrawn w.amount_ugx a) in
    elim (Bool-cases (in_range d key)) [
      | inl inside ↦
          rw (add_withdrawals, inside)
            (added_twice 0 w.fee_ugx w.amount_ugx 0 (sum_of (fee_in out d) ws)
              (sum_of (withdrawn_in out d) ws) a added (add_withdrawals out d ws added)
              (add_fee withdrawal_fees key w.fee_ugx w.amount_ugx a)
              (add_withdrawals_lem out d ws added))
      | inr outside ↦
          rw (add_withdrawals, outside)
            (added_twice 0 0 0 0 (sum_of (fee_in out d) ws) (sum_of (withdrawn_in out d) ws) a a
              (add_withdrawals out d ws a) (same_accounts a) (add_withdrawals_lem out d ws a))
    ]

months_sum :
    (g : MonthRow → ℕ) (h : Month → ℕ)
    → ((m : MonthRow) → h (with_profit m) ≡ g m)
    → (ms : List MonthRow) → sum_of h (map with_profit ms) ≡ sum_of g ms
months_sum g h e [] = refl
months_sum g h e (m ∷ ms) = omega (arith, e m, months_sum g h e ms)

report_months :
    (g : MonthRow → ℕ) (h : Month → ℕ)
    → ((m : MonthRow) → h (with_profit m) ≡ g m)
    → (d : Range) (a : Accounts) → sum_of h (report_of d a).monthly ≡ sum_of g a.monthly
report_months g h e d a =
    let before = λ (x y : MonthRow). text_ltb x.month y.month in
    months_sum g h e (sort_by before a.monthly) ∙ sum_of-sort_by g before a.monthly

by_amount_sum : (rs : List CategoryRow) → total_of (by_amount rs) ≡ total_of rs
by_amount_sum = sum_of-sort_by (λ r. r.amount_ugx) (λ a b. ltb b.amount_ugx a.amount_ugx)

-- A report that is made of these sales, entries and withdrawals, in these days.
pub record IsMade (out : Outside) (d : Range) (ss : List Sale) (es : List Entry)
    (ws : List Withdrawal) (r : Summary) : Type 0 where
  pub income : r.income_ugx ≡ sum_of (sale_ugx out d) ss + sum_of (entry_ugx income) es
  pub expense : r.expense_ugx ≡ sum_of (entry_ugx expense) es + sum_of (fee_in out d) ws
  pub withdrawn : r.withdrawn_ugx ≡ sum_of (withdrawn_in out d) ws
  pub income_categories : sum_of (λ c. c.amount_ugx) r.income ≡ r.income_ugx
  pub expense_categories : sum_of (λ c. c.amount_ugx) r.expenses ≡ r.expense_ugx
  pub income_months : sum_of (λ m. m.income_ugx) r.monthly ≡ r.income_ugx
  pub expense_months : sum_of (λ m. m.expense_ugx) r.monthly ≡ r.expense_ugx
  pub profit : r.profit_ugx ≡ pos r.income_ugx -ℤ pos r.expense_ugx

pub accounts_lem :
    (out : Outside) (d : Range) (ss : List Sale) (es : List Entry) (ws : List Withdrawal)
    → IsMade out d ss es ws (
        report_of d
          (add_withdrawals out d ws (add_entries out es (add_sales out d ss no_accounts))))
accounts_lem out d ss es ws =
    let a = add_sales out d ss no_accounts in
    let b = add_entries out es a in
    let c = add_withdrawals out d ws b in
    let h = add_sales_lem out d ss no_accounts in
    let k = add_entries_lem out es a in
    let l = add_withdrawals_lem out d ws b in
    record {
      income = omega (arith, h.income_total, k.income_total, l.income_total);
      expense = omega (arith, h.expense_total, k.expense_total, l.expense_total);
      withdrawn = omega (arith, h.withdrawn_total, k.withdrawn_total, l.withdrawn_total);
      income_categories = by_amount_sum c.income;
      expense_categories = by_amount_sum c.expense;
      income_months = omega (
        arith,
        report_months (λ m. m.income_ugx) (λ m. m.income_ugx) (λ m. refl) d c,
        h.income_total,
        k.income_total,
        l.income_total,
        h.income_months,
        k.income_months,
        l.income_months,
      );
      expense_months = omega (
        arith,
        report_months (λ m. m.expense_ugx) (λ m. m.expense_ugx) (λ m. refl) d c,
        h.expense_total,
        k.expense_total,
        l.expense_total,
        h.expense_months,
        k.expense_months,
        l.expense_months,
      );
      profit = refl;
    }
