-- ===== src/Packages/Tests.antt =====
-- Tests and examples on concrete packages.
use netcam.Database.{list_client, list_client-IsPrisma}
use netcam.Prelude.Strings.{trim}
use netcam.Packages.Upkeep.{IsKept, run, run-IsKept, creates, updates, removes, Call, step}
use netcam.Prelude.{ℕ, ◌≡◌, refl, false, Option, none, some, List, [], ◌∷◌, map, arith, codes, err}
use netcam.Packages.{
  Package, CreatePackage, UpdatePackage, Store, normalize_limits, find_one, create, update, remove,
  duration, data_cap, no_data_cap,
}

abbrev day_form : CreatePackage
day_form = record {
  name = codes " Day ";
  description = none;
  price_ugx = 1000;
  limit_type = duration;
  duration_minutes = some 1440;
  data_cap_mb = some 500;
  down_kbps = 2000;
  up_kbps = 1000;
  device_limit = none;
  is_active = none;
}

abbrev no_change : UpdatePackage
no_change = record {
  name = none;
  description = none;
  price_ugx = none;
  limit_type = none;
  duration_minutes = none;
  data_cap_mb = none;
  down_kbps = none;
  up_kbps = none;
  device_limit = none;
  is_active = none;
}

abbrev to_data_cap : UpdatePackage
to_data_cap = record no_change { limit_type = some data_cap; data_cap_mb = some 300 }

abbrev empty_store : Store
empty_store = record { packages = []; vouchers = []; payments = [] }

abbrev calls : List Call
calls = creates 1 day_form ∷ updates 1 to_data_cap ∷ removes 2 ∷ []

abbrev limits_of : Package → Option ℕ × Option ℕ
limits_of p = (p.duration_minutes, p.data_cap_mb)

leftover_limits_are_cleared :
    map limits_of (run list_client calls empty_store).packages ≡ (none, some 300) ∷ []
unfolding run step create update remove find_one normalize_limits trim
leftover_limits_are_cleared = refl

limit_is_required :
    (update list_client 1
      (record no_change { limit_type = some data_cap })
      (create list_client 1 (record day_form { data_cap_mb = none }) empty_store).1).0
    ≡ err no_data_cap
unfolding create update find_one normalize_limits trim
limit_is_required = refl

abbrev sold_store : Store
sold_store = record (create list_client 1 day_form empty_store).1 { vouchers = 1 ∷ [] }

sold_package_is_hidden :
    map (λ p. p.is_active) (remove list_client 1 sold_store).1.packages ≡ false ∷ []
unfolding remove find_one create normalize_limits trim
sold_package_is_hidden = refl

run-IsKept_example : IsKept (run list_client calls empty_store)
unfolding create update normalize_limits find_one
run-IsKept_example =
    run-IsKept list_client list_client-IsPrisma calls empty_store (refl, (tt, (tt, tt)))
      (record { limits = tt; ids = λ k. omega arith; vouchers = tt; payments = tt })
