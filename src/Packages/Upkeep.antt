-- ===== src/Packages/Upkeep.antt =====
-- Whatever the admins do, a package's limits are those of its type, and one that was sold stays.
use mathlib.Core.Path.{subst}
use netcam.Database.{Client, IsPrisma, list_client, client-eq}
use netcam.Packages.Rows.{
  fits, is_consistent, is_sold, count-patch, still_sold, consistent-patch, sold-snoc, count-snoc,
  same_count, deleted_limits, deleted_ids, others_sold, inactive_limits,
}
use netcam.Prelude.{
  ℕ, ◌≤◌, ◌≡◌, refl, inl, inr, true, false, ◌&&◌, Option, some, List, [], ◌∷◌, arith, count_if,
  find, All, All-append, ok, ◌>>=◌, ◌>>◌, ◌==◌, Bool-cases, Result-cases, or_default, or_else,
}
use netcam.Packages.{
  LimitType, Package, CreatePackage, UpdatePackage, Store, Limits, uses_duration, uses_data,
  normalize_limits, has_id, new_package, with_changes, merged_limits, uses, find_one, create,
  update, removed, remove, duration, data_cap, duration_and_data_cap,
}

pub record IsKept (b : Store) : Type 0 where
  pub limits : All (λ p. is_consistent p ≡ true) b.packages
  pub ids : (id : ℕ) → count_if (has_id id) b.packages ≤ 1
  pub vouchers : All (λ id. is_sold b.packages id ≡ true) b.vouchers
  pub payments : All (λ id. is_sold b.packages id ≡ true) b.payments

pub data Call : Type 0 where
  creates : (new_id : ℕ) → CreatePackage → Call
  updates : (id : ℕ) → UpdatePackage → Call
  removes : (id : ℕ) → Call

module _ (db : Client) where
  unfoldable pub step : Call → Store → Store
  step (creates new_id dto) b = (create db new_id dto b).1
  step (updates id dto) b = (update db id dto b).1
  step (removes id) b = (remove db id b).1

  unfoldable pub run : List Call → Store → Store
  unfolding step
  run [] b = b
  run (call ∷ calls) b = run calls (step call b)

  abbrev IsFresh : Call → Store → Type 0
  IsFresh (creates new_id dto) b = count_if (has_id new_id) b.packages ≡ 0
  IsFresh _ b = Unit

  -- A package that is created gets an id that no package has, as a new UUID is.
  abbrev pub AreFresh : List Call → Store → Type 0
  AreFresh [] b = Unit
  AreFresh (call ∷ calls) b = IsFresh call b × AreFresh calls (step call b)

normalize_limits_lem :
    (t : LimitType) (minutes megabytes : Option ℕ) (l : Limits)
    → normalize_limits t minutes megabytes ≡ ok l
    → (fits (uses_duration t) l.duration_minutes && fits (uses_data t) l.data_cap_mb) ≡ true
unfolding normalize_limits
normalize_limits_lem duration minutes megabytes l h = ground (arith, h)
normalize_limits_lem data_cap minutes megabytes l h = ground (arith, h)
normalize_limits_lem duration_and_data_cap minutes megabytes l h = ground (arith, h)

find_one_lem :
    (id : ℕ) (b : Store) (e : Package)
    → (find_one list_client id b).0 ≡ ok e
    → find (has_id id) b.packages ≡ some e
unfolding find_one
find_one_lem id b e h = ground (arith, h)

create_lem :
    (new_id : ℕ) (dto : CreatePackage) (b : Store)
    → count_if (has_id new_id) b.packages ≡ 0
    → IsKept b
    → IsKept (create list_client new_id dto b).1
unfolding create
create_lem new_id dto b fresh h =
    elim (Result-cases (normalize_limits dto.limit_type dto.duration_minutes dto.data_cap_mb)) [
      | inr (e, bad) ↦ rw (create, ◌>>◌, ◌>>=◌, bad) h
      | inl (l, good) ↦
          let p = new_package new_id dto l in
          let fit =
            normalize_limits_lem dto.limit_type dto.duration_minutes dto.data_cap_mb l good in
          rw (create, ◌>>◌, ◌>>=◌, good)
            (record {
              limits =
                  All-append (λ q. is_consistent q ≡ true) b.packages (p ∷ []) h.limits (fit, tt);
              ids = λ (k : ℕ).
                  ground
                    (arith, fresh, h.ids k, count-snoc b.packages p k, same_count b.packages p k);
              vouchers = sold-snoc b.packages p b.vouchers h.vouchers;
              payments = sold-snoc b.packages p b.payments h.payments;
            })
    ]

update_lem :
    (id : ℕ) (dto : UpdatePackage) (b : Store) → IsKept b → IsKept (update list_client id dto b).1
unfolding update
update_lem id dto b h = elim (Result-cases (find_one list_client id b).0) [
  | inr (e, missing) ↦ rw (update, ◌>>◌, ◌>>=◌, missing) h
  | inl (old, found) ↦ elim (Result-cases (merged_limits old dto)) [
    | inr (e, bad) ↦ rw (update, ◌>>◌, ◌>>=◌, found, bad) h
    | inl (l, good) ↦
        let f = with_changes dto l in
        let fit =
          normalize_limits_lem (or_default dto.limit_type old.limit_type)
            (or_else dto.duration_minutes old.duration_minutes)
            (or_else dto.data_cap_mb old.data_cap_mb) l good in
        rw (update, ◌>>◌, ◌>>=◌, found, good)
          (record {
            limits =
                consistent-patch f id (λ p. refl) b.packages old h.limits (h.ids id)
                  (find_one_lem id b old found) fit;
            ids = λ (k : ℕ). rw (count-patch f id (λ p. refl) k b.packages) (h.ids k);
            vouchers = still_sold f id (λ p. refl) b.packages b.vouchers h.vouchers;
            payments = still_sold f id (λ p. refl) b.packages b.payments h.payments;
          })
  ]
]

removed_lem : (id : ℕ) (b : Store) → IsKept b → IsKept (removed list_client id b)
removed_lem id b h = elim (Bool-cases (uses list_client b id == 0)) [
  | inl unused ↦ rw unused (record {
    limits = deleted_limits id b.packages h.limits;
    ids = λ (k : ℕ). omega (arith, h.ids k, deleted_ids id k b.packages);
    vouchers = others_sold id b.packages b.vouchers (ground (arith, unused)) h.vouchers;
    payments = others_sold id b.packages b.payments (ground (arith, unused)) h.payments;
  })
  | inr used ↦
      let f = λ (p : Package). record p { is_active = false } in
      rw used (record {
        limits = inactive_limits (has_id id) b.packages h.limits;
        ids = λ (k : ℕ). rw (count-patch f id (λ p. refl) k b.packages) (h.ids k);
        vouchers = still_sold f id (λ p. refl) b.packages b.vouchers h.vouchers;
        payments = still_sold f id (λ p. refl) b.packages b.payments h.payments;
      })
]

remove_lem : (id : ℕ) (b : Store) → IsKept b → IsKept (remove list_client id b).1
unfolding remove
remove_lem id b h = elim (Result-cases (find_one list_client id b).0) [
  | inr (e, missing) ↦ rw (remove, ◌>>◌, ◌>>=◌, missing) h
  | inl (old, found) ↦ rw (remove, ◌>>◌, ◌>>=◌, found) (removed_lem id b h)
]

step_lem :
    (call : Call) (b : Store)
    → IsFresh list_client call b
    → IsKept b
    → IsKept (step list_client call b)
unfolding step
step_lem (creates new_id dto) b fresh h = create_lem new_id dto b fresh h
step_lem (updates id dto) b fresh h = update_lem id dto b h
step_lem (removes id) b fresh h = remove_lem id b h

run_lem :
    (calls : List Call) (b : Store)
    → AreFresh list_client calls b
    → IsKept b
    → IsKept (run list_client calls b)
unfolding run
run_lem [] b fresh h = h
run_lem (call ∷ calls) b fresh h =
    run_lem calls (step list_client call b) fresh.1 (step_lem call b fresh.0 h)

-- In a store where each package has the limits of its type and no others, and every voucher and every
-- payment names a package that is there, this stays so, whatever packages are created, with ids that
-- no package has, updated and removed.
pub run-IsKept :
    (db : Client)
    → IsPrisma db
    → (calls : List Call) (b : Store) → AreFresh db calls b
    → IsKept b
    → IsKept (run db calls b)
run-IsKept db lawful calls b fresh h =
    rw (client-eq db lawful)
      (run_lem calls b (subst (λ d. AreFresh d calls b) (client-eq db lawful) fresh) h)
