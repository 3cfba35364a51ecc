-- ===== src/Ledger/Entries.antt =====
-- What is recorded by hand: whatever is called, each entry has a positive amount and a category of
-- its own, and only the entries that were there can change.
use netcam.Database.{Client, IsPrisma, list_client, client-eq}
use netcam.Fees.{Num}
use netcam.Prelude.Strings.{trimmed}
use netcam.Ledger.{
  positive as positive_part, Entry, EntryInput, EntryData, Books, Outside, is_automatic, create,
  update, remove, validate, given, with_data, has_live_id, new_entry, find_live,
}
use netcam.Prelude.{
  ℕ, ◌≤◌, ◌≡◌, false, Option, none, some, List, [], ◌∷◌, arith, Text, is_empty, inl, inr, Bool,
  patch, All, ok, Bool-cases, Option-cases, count_if, All-append, ◌>>=◌, ◌>>◌, ◌==◌, Result-cases,
}

pub record IsSound (e : Entry) : Type 0 where
  pub positive : 1 ≤ e.amount_ugx
  pub limited : e.amount_ugx ≤ 1000000000
  pub named : is_empty e.category ≡ false
  pub manual : is_automatic e.category ≡ false

pub data Call : Type 0 where
  creates : (admin : ℕ) → EntryInput → Call
  updates : (admin id : ℕ) → EntryInput → Call
  removes : (admin id : ℕ) → Call

module _ (db : Client) where
  unfoldable pub step : Outside → Call → Books → Books
  step out (creates admin input) b = (create db out admin input b).1
  step out (updates admin id input) b = (update db out admin id input b).1
  step out (removes admin id) b = (remove db out admin id b).1

  unfoldable pub run : List (Outside × Call) → Books → Books
  unfolding step
  run [] b = b
  run ((out, call) ∷ calls) b = run calls (step out call b)

record IsValid (d : EntryData) : Type 0 where
  positive : 1 ≤ d.amount_ugx
  limited : d.amount_ugx ≤ 1000000000
  named : is_empty d.category ≡ false
  manual : is_automatic d.category ≡ false

positive_lem : (n : Num) (k : ℕ) → positive_part n ≡ some k → 1 ≤ k
positive_lem n k h = ground (arith, h)

trimmed_lem : (s : Option Text) (t : Text) → trimmed s ≡ some t → is_empty t ≡ false
trimmed_lem none t h = ground (arith, h)
trimmed_lem (some s) t h = ground (arith, h)

validate_lem :
    (out : Outside) (input : EntryInput) (d : EntryData) → validate out input ≡ ok d → IsValid d
unfolding validate
validate_lem out input d h = elim (Option-cases (trimmed input.category)) [
  | inl blank ↦ ground (arith, h, blank)
  | inr (c, named) ↦ elim (Option-cases (positive_part input.amount_ugx)) [
    | inl none_given ↦ ground (arith, h, named, none_given)
    | inr (n, given) ↦ record {
      positive = ground (arith, h, named, given, positive_lem input.amount_ugx n given);
      limited = ground (arith, h, named, given);
      named = ground (arith, h, named, given, trimmed_lem input.category c named);
      manual = ground (arith, h, named, given);
    }
  ]
]

All-patch :
    {A : Type 0} (P : A → Type 0) (p : A → Bool) (f : A → A)
    → ((a : A) → P a → P (f a))
    → (xs : List A) → All P xs
    → All P (patch p f xs)
All-patch P p f k [] h = tt
All-patch P p f k (x ∷ xs) (h, hs) =
    (elim (Bool-cases (p x)) [ inl e ↦ rw e (k x h) | inr e ↦ rw e h ], All-patch P p f k xs hs)

with_data_lem : (d : EntryData) → IsValid d → (e : Entry) → IsSound e → IsSound (with_data d e)
with_data_lem d h e _ = record {
  positive = h.positive;
  limited = h.limited;
  named = h.named;
  manual = h.manual;
}

create_lem :
    (out : Outside) (admin : ℕ) (input : EntryInput) (b : Books)
    → All IsSound b.entries
    → All IsSound (create list_client out admin input b).1.entries
unfolding create
create_lem out admin input b h = elim (Result-cases (validate out input)) [
  | inr (e, bad) ↦ rw (create, ◌>>◌, ◌>>=◌, bad) h
  | inl (d, good) ↦
      let v = validate_lem out input d good in
      rw (create, ◌>>◌, ◌>>=◌, good)
        (All-append IsSound b.entries (new_entry out admin d ∷ []) h (
          record { positive = v.positive; limited = v.limited; named = v.named; manual = v.manual },
          tt,
        ))
]

update_lem :
    (out : Outside) (admin id : ℕ) (input : EntryInput) (b : Books)
    → All IsSound b.entries
    → All IsSound (update list_client out admin id input b).1.entries
unfolding update
update_lem out admin id input b h = elim (Result-cases (find_live list_client id b).0) [
  | inr (e, missing) ↦ rw (update, ◌>>◌, ◌>>=◌, missing) h
  | inl (old, found) ↦ elim (Result-cases (validate out input)) [
    | inr (e, bad) ↦ rw (update, ◌>>◌, ◌>>=◌, found, bad) h
    | inl (d, good) ↦
        rw (update, ◌>>◌, ◌>>=◌, found, good)
          (All-patch IsSound (λ e. e.id == id) (with_data d)
            (with_data_lem d (validate_lem out input d good)) b.entries h)
  ]
]

remove_lem :
    (out : Outside) (admin id : ℕ) (b : Books)
    → All IsSound b.entries
    → All IsSound (remove list_client out admin id b).1.entries
unfolding remove
remove_lem out admin id b h =
    let kept =
      All-patch IsSound (has_live_id id) (λ e. record e { deleted_at = some out.now })
        (λ e k. record {
          positive = k.positive;
          limited = k.limited;
          named = k.named;
          manual = k.manual;
        })
        b.entries h in
    elim (Bool-cases (count_if (has_live_id id) b.entries == 0)) [
      | inl missing ↦ rw (remove, ◌>>◌, ◌>>=◌, missing) kept
      | inr found ↦ rw (remove, ◌>>◌, ◌>>=◌, found) kept
    ]

step_lem :
    (out : Outside) (call : Call) (b : Books)
    → All IsSound b.entries
    → All IsSound (step list_client out call b).entries
unfolding step
step_lem out (creates admin input) b h = create_lem out admin input b h
step_lem out (updates admin id input) b h = update_lem out admin id input b h
step_lem out (removes admin id) b h = remove_lem out admin id b h

run_lem :
    (calls : List (Outside × Call)) (b : Books)
    → All IsSound b.entries
    → All IsSound (run list_client calls b).entries
unfolding run
run_lem [] b h = h
run_lem ((out, call) ∷ calls) b h =
    run_lem calls (step list_client out call b) (step_lem out call b h)

-- Where the entries start out sound, each with an amount from 1 to 1,000,000,000 and a category that
-- is not blank and is none of those the system fills in, they stay so, whatever is created, updated
-- and removed, and with whatever input.
pub run-IsSound :
    (db : Client)
    → IsPrisma db
    → (calls : List (Outside × Call)) (b : Books) → All IsSound b.entries
    → All IsSound (run db calls b).entries
run-IsSound db lawful calls b h = rw (client-eq db lawful) (run_lem calls b h)
