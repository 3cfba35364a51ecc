-- ===== src/Auth/Tests.antt =====
-- Tests on a concrete account.
use netcam.Database.{list_client}
use netcam.Prelude.{ℕ, ◌+◌, ◌*◌, ◌≡◌, refl, true, false, none, [], ◌∷◌, codes, same, length, err}
use netcam.Auth.{
  AdminUser, Accounts, Outside, record_failed_login, login, set_active, super_admin,
  invalid_credentials, own_account,
}

abbrev owner : AdminUser
owner = record {
  id = 1;
  email = codes "a@b.c";
  password_hash = codes "secret";
  role = super_admin;
  full_name = none;
  is_active = true;
}

abbrev accounts : Accounts
accounts = record { admins = owner ∷ []; failed_logins = []; alerts = []; audits = [] }

abbrev outside : ℕ → Outside
outside minute = record {
  now = 10000000 + minute * 60000;
  new_id = 2;
  compare = same;
  hash = λ s. s;
  sign = λ p. p.email;
  show = λ n. (b'0' + n) ∷ [];
}

abbrev wrong : ℕ → Accounts → Accounts
wrong minute b = (login list_client (outside minute) owner.email (codes "guess") b).1

-- The fifth failure within 15 minutes is the first that alerts.
abbrev guessed : Accounts
guessed = wrong 4 (wrong 3 (wrong 2 (wrong 1 (wrong 0 accounts))))

fifth_failure_alerts : length guessed.alerts ≡ 1
unfolding login record_failed_login
fifth_failure_alerts = refl

old_failures_are_forgotten :
    length (wrong 30 (wrong 4 (wrong 3 (wrong 2 (wrong 1 accounts))))).alerts ≡ 0
unfolding login record_failed_login
old_failures_are_forgotten = refl

login_forgets_failures :
    (login list_client (outside 5) owner.email (codes "secret") guessed).1.failed_logins ≡ []
unfolding login record_failed_login
login_forgets_failures = refl

own_account_stays_active : (set_active list_client 1 false 1 accounts).0 ≡ err own_account
unfolding set_active
own_account_stays_active = refl

deactivated_admin_is_refused :
    (login list_client
      (outside 0)
      owner.email
      (codes "secret")
      (set_active list_client 1 false 2 accounts).1).0
    ≡ err invalid_credentials
unfolding login record_failed_login set_active
deactivated_admin_is_refused = refl
