-- ===== src/Ledger/Tests.antt =====
-- Tests and examples on concrete books.
use netcam.Database.{list_client, list_client-IsPrisma}
use netcam.Earnings.{Sold, ssentezo, sales}
use netcam.Payments.{success}
use netcam.Withdrawals.{Withdrawal, Status}
use netcam.Fees.{whole}
use netcam.Prelude.Int.{pos, negsuc, ℤ, ◌-ℤ◌}
use netcam.Prelude.Strings.{trim}
use netcam.Ledger.Report.{Summary, summary, add, add_sales, add_entries, add_withdrawals, accounts}
use netcam.Ledger.Figures.{IsReport, summary-IsReport}
use netcam.Ledger.Entries.{run, run-IsSound, IsSound, creates, updates, removes, Call, step}
-- Two days are known, the second is today.
use netcam.Prelude.{
  ℕ, ◌≡◌, refl, Option, none, some, List, [], ◌∷◌, Text, codes, same, All, Result, ok, err, ltb,
  if◌then◌else◌,
}
use netcam.Ledger.{
  EntryInput, Books, Outside, Error, validate, Range, range, create, find_live, update, remove,
  expense, automatic_category, bad_amount, not_found,
}

abbrev first_day : Text
first_day = codes "2025-03-01"

abbrev today : Text
today = codes "2025-03-02"

abbrev day_of : ℕ → Text
day_of t = if ltb t 86400000 then first_day else today

abbrev midnight : Text → Option ℕ
midnight s = if same s first_day then some 0 else if same s today then some 86400000 else none

abbrev outside : Outside
outside = record {
  now = 100000000;
  new_id = 7;
  day_of = day_of;
  midnight = midnight;
  iso_day = day_of;
}

abbrev rent : EntryInput
rent = record {
  type = some expense;
  category = some (codes " Rent ");
  amount_ugx = whole (pos 300);
  occurred_on = some first_day;
  description = none;
  payment_method = none;
}

abbrev faked : EntryInput
faked = record rent { category = some (codes "Withdrawal fees ") }

abbrev empty_books : Books
empty_books = record { entries = []; audits = [] }

abbrev rent_books : Books
rent_books = (create list_client outside 1 rent empty_books).1

abbrev calls : List (Outside × Call)
calls = (outside, creates 1 rent) ∷ (outside, updates 1 7 faked) ∷ (outside, removes 1 7) ∷ []

automatic_category_is_refused : (validate outside faked) ≡ err automatic_category
unfolding validate trim
automatic_category_is_refused = refl

negative_amount_is_refused :
    validate outside (record rent { amount_ugx = whole (negsuc 4) }) ≡ err bad_amount
unfolding validate trim
negative_amount_is_refused = refl

removed_entry_is_not_found :
    (remove list_client outside 1 7 (run list_client calls empty_books)).0 ≡ err not_found
unfolding run step create update find_live remove validate trim
removed_entry_is_not_found = refl

run-IsSound_example : All IsSound (run list_client calls empty_books).entries
run-IsSound_example = run-IsSound list_client list_client-IsPrisma calls empty_books tt

abbrev sold : Sold
sold = record {
  payments =
      record {
        amount_ugx = 1000;
        status = success;
        provider = ssentezo;
        created_at = 5;
        completed_at = some 6;
        pkg = record { id = 1; name = codes "Day"; price_ugx = 1000 };
      }
      ∷ [];
  vouchers = [];
}

abbrev paid_out : Withdrawal
paid_out = record {
  id = 1;
  amount_ugx = 600;
  fee_ugx = 250;
  phone_number = codes "+256770000000";
  recipient_name = none;
  note = none;
  status = Status.success;
  requested_by_id = 1;
  reviewed_by_id = none;
  reviewed_at = none;
  review_note = none;
  provider_ref = none;
  financial_transaction_id = none;
  failure_reason = none;
  sent_at = none;
  completed_at = some 90000000;
}

abbrev both_days : Range
both_days = record { from = first_day; to = today; from_date = 0; to_date = 86400000 }

abbrev profit_of : Result Error Summary → Option ℤ
profit_of (ok r) = some r.profit_ugx
profit_of (err e) = none

-- 1000 of a sale, less the rent of 300 and the fee of 250; the 600 are no expense.
profit_of_two_days :
    profit_of (summary list_client outside none none sold (paid_out ∷ []) rent_books)
    ≡ some (pos 450)
unfolding summary accounts add_sales add_entries add_withdrawals add range sales create validate
    trim ◌-ℤ◌
profit_of_two_days = refl

summary-IsReport_example :
    (r : Summary) × (summary list_client outside none none sold (paid_out ∷ []) rent_books ≡ ok r)
    × IsReport outside both_days sold rent_books.entries (paid_out ∷ []) r
unfolding range
summary-IsReport_example =
    summary-IsReport list_client list_client-IsPrisma outside none none sold (paid_out ∷ [])
      rent_books both_days refl
