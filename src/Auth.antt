-- ===== src/Auth.antt =====
-- apps/api/src/auth/auth.service.ts, the guard of auth/guards/roles.guard.ts, and the accounts of
-- admin-users/admin-users.service.ts. `bcrypt`, the signing of tokens and the text of a number come
-- from outside; the alerts that are raised are recorded.
mod Tests
use netcam.Database.{Client}
use netcam.Alerts.{AlertInput, security, warning, info, recent}
use netcam.Prelude.{
  ℕ, ◌-◌, ◌*◌, Bool, true, false, ◌&&◌, ◌||◌, not, Option, none, some, List, [], ◌∷◌, ◌++◌, Text,
  codes, same, length, take, any, select, find, Result, ok, err, Action, pure, throw, gets,
  or_throw, ◌>>=◌, ◌>>◌, throw_if, modify, ltb, leb, ◌==◌, if◌then◌else◌, is_some,
}

pub data Role : Type 0 where
  super_admin operator : Role

pub record AdminUser : Type 0 where
  pub id : ℕ
  pub email : Text
  pub password_hash : Text
  pub role : Role
  pub full_name : Option Text
  pub is_active : Bool

-- The times of the failed logins of an address, in the map's order.
pub record FailedLogins : Type 0 where
  pub email : Text
  pub times : List ℕ

pub data AuditAction : Type 0 where
  admin_user_created admin_user_reactivated admin_user_deactivated : AuditAction

pub record Audit : Type 0 where
  pub admin_user_id : ℕ
  pub action : AuditAction
  pub entity_id : ℕ

pub record Accounts : Type 0 where
  pub admins : List AdminUser
  pub failed_logins : List FailedLogins
  pub alerts : List AlertInput
  pub audits : List Audit

pub record Payload : Type 0 where
  pub sub : ℕ
  pub email : Text
  pub role : Role

pub record Outside : Type 0 where
  pub now : ℕ
  pub new_id : ℕ
  pub compare : (password hash : Text) → Bool
  pub hash : Text → Text
  pub sign : Payload → Text
  pub show : ℕ → Text

pub data Error : Type 0 where
  invalid_credentials unauthorized wrong_password password_too_short : Error
  email_taken own_account not_found insufficient_role : Error

pub record LoggedIn : Type 0 where
  pub access_token : Text
  pub id : ℕ
  pub email : Text
  pub full_name : Option Text
  pub role : Role

pub record CreateAdminUser : Type 0 where
  pub email : Text
  pub password : Text
  pub full_name : Option Text
  pub role : Role

abbrev pub failed_login_window_ms : ℕ
failed_login_window_ms = 15 * 60000

abbrev pub failed_logins_before_alert : ℕ
failed_logins_before_alert = 5

abbrev pub max_failed_logins : ℕ
max_failed_logins = 1000

abbrev pub is_of_email : Text → FailedLogins → Bool
is_of_email email f = same f.email email

abbrev pub forget : Text → List FailedLogins → List FailedLogins
forget email = select (λ f. not (is_of_email email f))

-- The failures within the window, and this one.
abbrev pub recent_failures : ℕ → Text → List FailedLogins → List ℕ
recent_failures now email fs =
    select (λ t. ltb (now - t) failed_login_window_ms)
      (elim (find (is_of_email email) fs) [ none ↦ [] | some f ↦ f.times ])
    ++ now ∷ []

-- The oldest entry goes when there are too many.
abbrev pub bounded : List FailedLogins → List FailedLogins
bounded [] = []
bounded (f ∷ fs) = if ltb max_failed_logins (length (f ∷ fs)) then fs else f ∷ fs

abbrev pub repeated_failures : Outside → Text → ℕ → AlertInput
repeated_failures out email count = record {
  category = security;
  severity = warning;
  title = codes "Repeated failed logins";
  message =
      out.show count
      ++ codes " wrong passwords for \""
      ++ take 60 email
      ++ codes
          "\" on the dashboard in 15 minutes. If this wasn't you, someone may be guessing passwords.";
  dedupe_key = some (codes "failed-login:" ++ take 60 email);
  cooldown_minutes = some 60;
}

abbrev pub dashboard_login : Outside → AdminUser → AlertInput
dashboard_login out a = record {
  category = security;
  severity = info;
  title = codes "Dashboard login";
  message = a.email ++ codes " signed in to the NetCam dashboard.";
  dedupe_key = some (codes "login:" ++ out.show a.id);
  cooldown_minutes = some (6 * 60);
}

unfoldable pub record_failed_login : Outside → Text → Accounts → Accounts
record_failed_login out email b =
    let recent = recent_failures out.now email b.failed_logins in
    record b {
      failed_logins =
          bounded (forget email b.failed_logins ++ record { email = email; times = recent } ∷ []);
      alerts =
          if leb failed_logins_before_alert (length recent)
          then b.alerts ++ repeated_failures out email (length recent) ∷ []
          else b.alerts;
    }

abbrev pub payload_of : AdminUser → Payload
payload_of a = record { sub = a.id; email = a.email; role = a.role }

abbrev pub logged_in : Outside → AdminUser → LoggedIn
logged_in out a = record {
  access_token = out.sign (payload_of a);
  id = a.id;
  email = a.email;
  full_name = a.full_name;
  role = a.role;
}

abbrev pub same_role : Role → Role → Bool
same_role super_admin super_admin = true
same_role operator operator = true
same_role _ _ = false

-- The guard: the roles that a handler asks for, and the role of the user, if there is one.
unfoldable pub can_activate : List Role → Option Role → Result Error Bool
can_activate [] user = ok true
can_activate (r ∷ rs) none = err insufficient_role
can_activate (r ∷ rs) (some role) =
    if any (same_role role) (r ∷ rs) then ok true else err insufficient_role

abbrev pub new_admin : Outside → CreateAdminUser → AdminUser
new_admin out dto = record {
  id = out.new_id;
  email = dto.email;
  password_hash = out.hash dto.password;
  role = dto.role;
  full_name = dto.full_name;
  is_active = true;
}

abbrev pub log : ℕ → AuditAction → ℕ → Accounts → Accounts
log admin action id b = record b {
  audits = b.audits ++ record { admin_user_id = admin; action = action; entity_id = id } ∷ [];
}

module _ (db : Client) where
  abbrev pub find_admin : ℕ → Accounts → Option AdminUser
  find_admin id b = db.find_first AdminUser (λ a. a.id == id) b.admins

  abbrev pub welcomed : Outside → AdminUser → Accounts → Accounts
  welcomed out a b = record b {
    failed_logins = forget a.email b.failed_logins;
    alerts = b.alerts ++ dashboard_login out a ∷ [];
  }

  unfoldable pub login : Outside → Text → Text → Action Accounts Error LoggedIn
  unfolding record_failed_login
  login out email password b = elim (db.find_first AdminUser (λ a. same a.email email) b.admins) [
    | none ↦ (err invalid_credentials, record_failed_login out email b)
    | some a ↦
        if not a.is_active || not (out.compare password a.password_hash)
        then (err invalid_credentials, record_failed_login out email b)
        else (ok (logged_in out a), welcomed out a b)
  ]

  unfoldable pub verify_password : Outside → ℕ → Text → Accounts → Bool
  verify_password out id password b = elim (find_admin id b) [
    | none ↦ false
    | some a ↦ a.is_active && out.compare password a.password_hash
  ]

  unfoldable pub change_password : Outside → ℕ → Text → Text → Action Accounts Error (Unit {0})
  change_password out id current new b = elim (find_admin id b) [
    | none ↦ throw unauthorized b
    | some a ↦
        if not (out.compare current a.password_hash)
        then throw wrong_password b
        else if ltb (length new) 8
        then throw password_too_short b
        else pure tt (record b {
          admins =
              (db.update_many AdminUser (λ u. u.id == id)
                (λ u. record u { password_hash = out.hash new }) b.admins).0;
        })
  ]

  -- `AdminUsersService.create`
  unfoldable pub create_admin : Outside → CreateAdminUser → ℕ → Action Accounts Error AdminUser
  create_admin out dto created_by = do
    existing ← gets (λ b. db.find_first AdminUser (λ a. same a.email dto.email) b.admins)
    throw_if (is_some existing) email_taken
    modify (λ b. record b { admins = db.create AdminUser (new_admin out dto) b.admins })
    modify (log created_by admin_user_created out.new_id)
    pure (new_admin out dto)

  unfoldable pub set_active : ℕ → Bool → ℕ → Action Accounts Error AdminUser
  set_active id is_active acting = do
    throw_if (id == acting && not is_active) own_account
    found ← gets (find_admin id)
    a ← or_throw found not_found
    modify (λ b. record b {
      admins =
          (db.update_many AdminUser (λ u. u.id == id) (λ u. record u { is_active = is_active })
            b.admins).0;
    })
    modify (log acting (if is_active then admin_user_reactivated else admin_user_deactivated) id)
    pure (record a { is_active = is_active })
