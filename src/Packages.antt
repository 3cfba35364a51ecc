-- ===== src/Packages.antt =====
-- apps/api/src/packages/packages.service.ts: the packages that are sold. A voucher and a payment come
-- here as the id of their package. A field that the form leaves out is `none`.
pub mod Rows
pub mod Upkeep
mod Tests
use netcam.Database.{Client}
use netcam.Prelude.Strings.{trim}
use netcam.Prelude.{
  ℕ, ◌+◌, Bool, true, false, ◌&&◌, ◌||◌, not, Option, none, some, List, map, Text, Result, ok, err,
  Action, pure, gets, or_throw, ◌>>=◌, ◌>>◌, modify, ltb, ◌==◌, if◌then◌else◌, or_default, or_else,
  sort_by,
}

pub data LimitType : Type 0 where
  duration data_cap duration_and_data_cap : LimitType

pub record Package : Type 0 where
  pub id : ℕ
  pub name : Text
  pub description : Option Text
  pub price_ugx : ℕ
  pub limit_type : LimitType
  pub duration_minutes : Option ℕ
  pub data_cap_mb : Option ℕ
  pub down_kbps : ℕ
  pub up_kbps : ℕ
  pub device_limit : ℕ
  pub is_active : Bool

pub record CreatePackage : Type 0 where
  pub name : Text
  pub description : Option Text
  pub price_ugx : ℕ
  pub limit_type : LimitType
  pub duration_minutes : Option ℕ
  pub data_cap_mb : Option ℕ
  pub down_kbps : ℕ
  pub up_kbps : ℕ
  pub device_limit : Option ℕ
  pub is_active : Option Bool

pub record UpdatePackage : Type 0 where
  pub name : Option Text
  pub description : Option Text
  pub price_ugx : Option ℕ
  pub limit_type : Option LimitType
  pub duration_minutes : Option ℕ
  pub data_cap_mb : Option ℕ
  pub down_kbps : Option ℕ
  pub up_kbps : Option ℕ
  pub device_limit : Option ℕ
  pub is_active : Option Bool

pub record Store : Type 0 where
  pub packages : List Package
  pub vouchers : List ℕ
  pub payments : List ℕ

pub data Error : Type 0 where
  not_found no_duration no_data_cap : Error

pub record Removed : Type 0 where
  pub deleted : Bool
  pub deactivated : Bool

pub record Limits : Type 0 where
  pub duration_minutes : Option ℕ
  pub data_cap_mb : Option ℕ

abbrev pub uses_duration : LimitType → Bool
uses_duration data_cap = false
uses_duration _ = true

abbrev pub uses_data : LimitType → Bool
uses_data duration = false
uses_data _ = true

-- `!n`
abbrev pub is_missing : Option ℕ → Bool
is_missing none = true
is_missing (some n) = n == 0

unfoldable pub normalize_limits : LimitType → Option ℕ → Option ℕ → Result Error Limits
normalize_limits type minutes megabytes =
    if uses_duration type && is_missing minutes
    then err no_duration
    else if uses_data type && is_missing megabytes
    then err no_data_cap
    else ok (record {
      duration_minutes = if uses_duration type then minutes else none;
      data_cap_mb = if uses_data type then megabytes else none;
    })

abbrev pub has_id : ℕ → Package → Bool
has_id id p = p.id == id

-- `isActive: "desc"`, then `priceUgx: "asc"`
abbrev pub comes_before : Package → Package → Bool
comes_before a b =
    a.is_active && not b.is_active
    || not (b.is_active && not a.is_active) && ltb a.price_ugx b.price_ugx

abbrev pub new_package : ℕ → CreatePackage → Limits → Package
new_package id dto limits = record {
  id = id;
  name = trim dto.name;
  description = dto.description;
  price_ugx = dto.price_ugx;
  limit_type = dto.limit_type;
  duration_minutes = limits.duration_minutes;
  data_cap_mb = limits.data_cap_mb;
  down_kbps = dto.down_kbps;
  up_kbps = dto.up_kbps;
  device_limit = or_default dto.device_limit 1;
  is_active = or_default dto.is_active true;
}

abbrev pub changed_name : Option Text → Text → Text
changed_name none old = old
changed_name (some name) old = trim name

abbrev pub with_changes : UpdatePackage → Limits → Package → Package
with_changes dto limits p = record {
  id = p.id;
  name = changed_name dto.name p.name;
  description = or_else dto.description p.description;
  price_ugx = or_default dto.price_ugx p.price_ugx;
  limit_type = or_default dto.limit_type p.limit_type;
  duration_minutes = limits.duration_minutes;
  data_cap_mb = limits.data_cap_mb;
  down_kbps = or_default dto.down_kbps p.down_kbps;
  up_kbps = or_default dto.up_kbps p.up_kbps;
  device_limit = or_default dto.device_limit p.device_limit;
  is_active = or_default dto.is_active p.is_active;
}

-- `normalizeLimits({ ...existing, ...dto })`
abbrev pub merged_limits : Package → UpdatePackage → Result Error Limits
merged_limits p dto =
    normalize_limits (or_default dto.limit_type p.limit_type)
      (or_else dto.duration_minutes p.duration_minutes) (or_else dto.data_cap_mb p.data_cap_mb)

abbrev lift : {A : Type 0} → Result Error A → Action Store Error A
lift r b = (r, b)

module _ (db : Client) where
  -- The packages with whether each is in use, or the active ones.
  unfoldable pub find_active : Store → List Package
  find_active b =
      sort_by (λ x y. ltb x.price_ugx y.price_ugx)
        (db.find_many Package (λ p. p.is_active) b.packages)

  abbrev pub uses : Store → ℕ → ℕ
  uses b id = db.count ℕ (λ k. k == id) b.vouchers + db.count ℕ (λ k. k == id) b.payments

  unfoldable pub find_all : Store → List (Package × Bool)
  find_all b =
      map (λ (p : Package). (p, not (uses b p.id == 0)))
        (sort_by comes_before (db.find_many Package (λ p. true) b.packages))

  unfoldable pub find_one : ℕ → Action Store Error Package
  find_one id b = or_throw (db.find_first Package (has_id id) b.packages) not_found b

  unfoldable pub create : ℕ → CreatePackage → Action Store Error Package
  unfolding normalize_limits
  create new_id dto = do
    limits ← lift (normalize_limits dto.limit_type dto.duration_minutes dto.data_cap_mb)
    modify
        (λ b. record b { packages = db.create Package (new_package new_id dto limits) b.packages })
    pure (new_package new_id dto limits)

  unfoldable pub update : ℕ → UpdatePackage → Action Store Error Package
  unfolding normalize_limits find_one
  update id dto = do
    existing ← find_one id
    limits ← lift (merged_limits existing dto)
    modify (λ b. record b {
      packages = (db.update_many Package (has_id id) (with_changes dto limits) b.packages).0;
    })
    pure (with_changes dto limits existing)

  abbrev pub removed : ℕ → Store → Store
  removed id b =
      if uses b id == 0
      then record b { packages = db.delete_many Package (has_id id) b.packages }
      else record b {
        packages =
            (db.update_many Package (has_id id) (λ p. record p { is_active = false }) b.packages).0;
      }

  unfoldable pub remove : ℕ → Action Store Error Removed
  unfolding find_one
  remove id = do
    existing ← find_one id
    unused ← gets (λ b. uses b id == 0)
    modify (removed id)
    pure (record { deleted = unused; deactivated = not unused })
