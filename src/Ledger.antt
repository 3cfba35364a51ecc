-- ===== src/Ledger.antt =====
-- apps/api/src/finance/ledger.service.ts: money that is recorded by hand. Here are the entries and
-- the calls that write them; Report is the profit and loss. Dates are the text of the day, with the
-- time of its midnight as `new Date` reads it, which comes from outside like the clock.
pub mod Entries
pub mod Report
pub mod Profits
pub mod Figures
mod Tests
use netcam.Database.{Client}
use netcam.Fees.{Num, whole}
use netcam.Prelude.Int.{pos}
use netcam.Prelude.Strings.{trimmed, is_digit}
use netcam.Prelude.{
  ℕ, suc, Bool, true, false, ◌&&◌, ◌||◌, not, Option, none, some, List, [], ◌∷◌, ◌++◌, Text, codes,
  same, take, any, all, Result, ok, err, Action, pure, gets, or_throw, ◌>>=◌, ◌>>◌, throw_if,
  modify, ltb, leb, ◌==◌, if◌then◌else◌, or_default, is_some, sort_by, text_ltb, ◌/◌,
}

pub data EntryType : Type 0 where
  income expense : EntryType

pub data PaymentMethod : Type 0 where
  cash mobile_money bank other_method : PaymentMethod

pub record Entry : Type 0 where
  pub id : ℕ
  pub type : EntryType
  pub category : Text
  pub amount_ugx : ℕ
  -- midnight, UTC
  pub occurred_on : ℕ
  pub description : Option Text
  pub payment_method : PaymentMethod
  pub created_by_id : ℕ
  pub created_at : ℕ
  pub deleted_at : Option ℕ

-- A type that is neither is `none`.
pub record EntryInput : Type 0 where
  pub type : Option EntryType
  pub category : Option Text
  pub amount_ugx : Num
  pub occurred_on : Option Text
  pub description : Option Text
  pub payment_method : Option PaymentMethod

-- What `validate` returns.
pub record EntryData : Type 0 where
  pub type : EntryType
  pub category : Text
  pub amount_ugx : ℕ
  pub occurred_on : ℕ
  pub description : Option Text
  pub payment_method : PaymentMethod

pub data AuditAction : Type 0 where
  ledger_entry_created ledger_entry_updated ledger_entry_deleted : AuditAction

pub record Audit : Type 0 where
  pub admin_user_id : ℕ
  pub action : AuditAction
  pub entity_id : ℕ

pub record Books : Type 0 where
  pub entries : List Entry
  pub audits : List Audit

pub record Outside : Type 0 where
  pub now : ℕ
  pub new_id : ℕ
  pub day_of : ℕ → Text
  -- `new Date(day + "T00:00:00Z")`, none when it is no date
  pub midnight : Text → Option ℕ
  -- `toISOString().slice(0, 10)`
  pub iso_day : ℕ → Text

pub data Error : Type 0 where
  no_type no_category automatic_category bad_amount too_large no_date invalid_date : Error
  in_future start_after_end not_found : Error

abbrev pub expense_categories : List Text
expense_categories =
    codes "Internet / data bundles"
    ∷ codes "Electricity"
    ∷ codes "Rent"
    ∷ codes "Equipment & routers"
    ∷ codes "Repairs & maintenance"
    ∷ codes "Salaries & wages"
    ∷ codes "Transport"
    ∷ codes "Airtime & SMS"
    ∷ codes "Printing vouchers"
    ∷ codes "Other expense"
    ∷ []

abbrev pub income_categories : List Text
income_categories = codes "Cash sales" ∷ codes "Device charging" ∷ codes "Other income" ∷ []

-- The categories that the system fills in, `AUTO`.
abbrev pub mobile_money_sales : Text
mobile_money_sales = codes "Mobile money sales"

abbrev pub printed_voucher_sales : Text
printed_voucher_sales = codes "Printed voucher sales"

abbrev pub manual_payments : Text
manual_payments = codes "Manual payments"

abbrev pub withdrawal_fees : Text
withdrawal_fees = codes "Withdrawal fees"

abbrev pub auto_categories : List Text
auto_categories =
    mobile_money_sales ∷ printed_voucher_sales ∷ manual_payments ∷ withdrawal_fees ∷ []

pub record Categories : Type 0 where
  pub income : List Text
  pub expense : List Text
  pub automatic : List Text

unfoldable pub categories : Categories
categories = record {
  income = income_categories;
  expense = expense_categories;
  automatic = auto_categories;
}

abbrev pub is_automatic : Text → Bool
is_automatic c = any (same c) auto_categories

-- `DATE_RE`
abbrev pub is_date : Text → Bool
is_date (a ∷ b ∷ c ∷ d ∷ e ∷ f ∷ g ∷ h ∷ i ∷ j ∷ []) =
    all is_digit (a ∷ b ∷ c ∷ d ∷ f ∷ g ∷ i ∷ j ∷ []) && e == b'-' && h == b'-'
is_date _ = false

-- The amount when it is a whole number above 0.
abbrev pub positive : Num → Option ℕ
positive (whole (pos (suc n))) = some (suc n)
positive _ = none

-- A text that is present and not blank.
abbrev pub category_of : Option Text → Option Text
category_of = trimmed

unfoldable pub validate : Outside → EntryInput → Result Error EntryData
validate out input = elim input.type [
  | none ↦ err no_type
  | some type ↦ elim (category_of input.category) [
    | none ↦ err no_category
    | some category ↦
        if is_automatic category then err automatic_category else elim (positive input.amount_ugx) [
          | none ↦ err bad_amount
          | some amount ↦
              let date = or_default input.occurred_on [] in
              if ltb 1000000000 amount
              then err too_large
              else if not (is_date date)
              then err no_date
              else elim (out.midnight date) [
                | none ↦ err invalid_date
                | some midnight ↦
                    if text_ltb (out.day_of out.now) date
                    then err in_future
                    else ok (record {
                      type = type;
                      category = category;
                      amount_ugx = amount;
                      occurred_on = midnight;
                      description = trimmed input.description;
                      payment_method = or_default input.payment_method cash;
                    })
              ]
        ]
  ]
]

pub record Range : Type 0 where
  pub from : Text
  pub to : Text
  pub from_date : ℕ
  pub to_date : ℕ

abbrev pub given : Option Text → Text → Text
given day fallback = let d = or_default day [] in if is_date d then d else fallback

-- The client refuses a date that is none, when the rows are read.
unfoldable pub range : Outside → Option Text → Option Text → Result Error Range
range out from to =
    let today = out.day_of out.now in
    let f = given from (take 7 today ++ codes "-01") in
    let t = given to today in
    if text_ltb t f then err start_after_end else elim (out.midnight f) [
      | none ↦ err invalid_date
      | some from_date ↦ elim (out.midnight t) [
        | none ↦ err invalid_date
        | some to_date ↦ ok (record { from = f; to = t; from_date = from_date; to_date = to_date })
      ]
    ]

abbrev pub is_live : Entry → Bool
is_live e = not (is_some e.deleted_at)

abbrev pub has_live_id : ℕ → Entry → Bool
has_live_id id e = e.id == id && is_live e

abbrev pub same_type : EntryType → EntryType → Bool
same_type income income = true
same_type expense expense = true
same_type _ _ = false

-- `...(type ? { type } : {})`
abbrev pub is_wanted : Option EntryType → Entry → Bool
is_wanted none e = true
is_wanted (some t) e = same_type e.type t

abbrev pub is_within : Range → Entry → Bool
is_within d e = is_live e && leb d.from_date e.occurred_on && leb e.occurred_on d.to_date

-- The later day first, and of a day the later entry.
abbrev pub comes_before : Entry → Entry → Bool
comes_before a b =
    ltb b.occurred_on a.occurred_on
    || a.occurred_on == b.occurred_on && ltb b.created_at a.created_at

abbrev pub new_entry : Outside → ℕ → EntryData → Entry
new_entry out admin d = record {
  id = out.new_id;
  type = d.type;
  category = d.category;
  amount_ugx = d.amount_ugx;
  occurred_on = d.occurred_on;
  description = d.description;
  payment_method = d.payment_method;
  created_by_id = admin;
  created_at = out.now;
  deleted_at = none;
}

abbrev pub with_data : EntryData → Entry → Entry
with_data d e = record e {
  type = d.type;
  category = d.category;
  amount_ugx = d.amount_ugx;
  occurred_on = d.occurred_on;
  description = d.description;
  payment_method = d.payment_method;
}

abbrev pub log : ℕ → AuditAction → ℕ → Books → Books
log admin action id b = record b {
  audits = b.audits ++ record { admin_user_id = admin; action = action; entity_id = id } ∷ [];
}

abbrev lift : {A : Type 0} → Result Error A → Action Books Error A
lift r b = (r, b)

module _ (db : Client) where
  unfoldable pub list :
      Outside → Option Text → Option Text → Option EntryType → Action Books Error (List Entry)
  unfolding range
  list out from to type = do
    d ← lift (range out from to)
    gets (λ b.
        sort_by comes_before
          (db.find_many Entry (λ e. is_within d e && is_wanted type e) b.entries))

  unfoldable pub create : Outside → ℕ → EntryInput → Action Books Error Entry
  unfolding validate
  create out admin input = do
    d ← lift (validate out input)
    modify (λ b. record b { entries = db.create Entry (new_entry out admin d) b.entries })
    modify (log admin ledger_entry_created out.new_id)
    pure (new_entry out admin d)

  unfoldable pub find_live : ℕ → Action Books Error Entry
  find_live id b = or_throw (db.find_first Entry (has_live_id id) b.entries) not_found b

  unfoldable pub update : Outside → ℕ → ℕ → EntryInput → Action Books Error Entry
  unfolding validate find_live
  update out admin id input = do
    existing ← find_live id
    d ← lift (validate out input)
    modify (λ b. record b {
      entries = (db.update_many Entry (λ e. e.id == id) (with_data d) b.entries).0;
    })
    modify (log admin ledger_entry_updated id)
    pure (with_data d existing)

  abbrev delete_row : Outside → ℕ → Books → List Entry × ℕ
  delete_row out id b =
      db.update_many Entry (has_live_id id) (λ e. record e { deleted_at = some out.now }) b.entries

  unfoldable pub remove : Outside → ℕ → ℕ → Action Books Error (Unit {0})
  remove out admin id = do
    count ← gets (λ b. (delete_row out id b).1)
    modify (λ b. record b { entries = (delete_row out id b).0 })
    throw_if (count == 0) not_found
    modify (log admin ledger_entry_deleted id)
