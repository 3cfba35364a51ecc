-- ===== src/Database.antt =====
-- The database client (`@prisma/client`), which the services take as a parameter. A table is the
-- list of its rows in the order of insertion; the client's calls read and rewrite it.
use mathlib.Core.Path.{◌≡◌, refl}
use netcam.Prelude.{
  ℕ, Bool, Option, List, [], ◌∷◌, ◌++◌, sum_of, select, count_if, find, patch, not,
}

-- The calls that the services make. A `where` is a test on rows, `data` an update of a row.
pub record Client : Type 1 where
  -- `findUnique`, `findFirst`
  pub find_first : (A : Type 0) → (A → Bool) → List A → Option A
  pub find_many : (A : Type 0) → (A → Bool) → List A → List A
  -- `update`, `updateMany`: the table and the number of rows that were changed
  pub update_many : (A : Type 0) → (A → Bool) → (A → A) → List A → List A × ℕ
  pub create : (A : Type 0) → A → List A → List A
  -- `delete`, `deleteMany`
  pub delete_many : (A : Type 0) → (A → Bool) → List A → List A
  pub count : (A : Type 0) → (A → Bool) → List A → ℕ
  -- `aggregate` with a `_sum`, which is null, read as 0, on no rows
  pub sum : (A : Type 0) → (A → Bool) → (A → ℕ) → List A → ℕ

-- The documented behaviour of those calls.
pub record IsPrisma (db : Client) : Type 1 where
  pub finds : (A : Type 0) (p : A → Bool) (rows : List A) → db.find_first A p rows ≡ find p rows
  pub selects : (A : Type 0) (p : A → Bool) (rows : List A) → db.find_many A p rows ≡ select p rows
  pub updates :
      (A : Type 0) (p : A → Bool) (f : A → A) (rows : List A)
      → db.update_many A p f rows ≡ (patch p f rows, count_if p rows)
  pub creates : (A : Type 0) (a : A) (rows : List A) → db.create A a rows ≡ rows ++ a ∷ []
  pub deletes :
      (A : Type 0) (p : A → Bool) (rows : List A)
      → db.delete_many A p rows ≡ select (λ a. not (p a)) rows
  pub counts : (A : Type 0) (p : A → Bool) (rows : List A) → db.count A p rows ≡ count_if p rows
  pub sums :
      (A : Type 0) (p : A → Bool) (f : A → ℕ) (rows : List A)
      → db.sum A p f rows ≡ sum_of f (select p rows)

-- A client that behaves as documented, for the tests.
abbrev pub list_client : Client
list_client = record {
  find_first = λ A. find;
  find_many = λ A. select;
  update_many = λ A p f rows. (patch p f rows, count_if p rows);
  create = λ A a rows. rows ++ a ∷ [];
  delete_many = λ A p rows. select (λ a. not (p a)) rows;
  count = λ A. count_if;
  sum = λ A p f rows. sum_of f (select p rows);
}

pub list_client-IsPrisma : IsPrisma list_client
list_client-IsPrisma = record {
  finds = λ A p rows. refl;
  selects = λ A p rows. refl;
  updates = λ A p f rows. refl;
  creates = λ A a rows. refl;
  deletes = λ A p rows. refl;
  counts = λ A p rows. refl;
  sums = λ A p f rows. refl;
}

-- The documented behaviour determines the client, so a proof may compute with lists.
pub client-eq : (db : Client) → IsPrisma db → db ≡ list_client
client-eq db h = λ i. record {
  find_first = λ A p rows. h.finds A p rows i;
  find_many = λ A p rows. h.selects A p rows i;
  update_many = λ A p f rows. h.updates A p f rows i;
  create = λ A a rows. h.creates A a rows i;
  delete_many = λ A p rows. h.deletes A p rows i;
  count = λ A p rows. h.counts A p rows i;
  sum = λ A p f rows. h.sums A p f rows i;
}
