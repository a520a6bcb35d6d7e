-- ===== src/Users/Steps.antt =====
-- The steps that a call of src/energy_agent/users/service.py can be of the table of accounts: nothing, or
-- one of the changes of `UserRepository` under its guard.
use energy_agent_diagnosis.Common.{
  ℕ, String, Option, none, some, Bool, true, false, ◌&&◌, ◌≡◌, refl, ◌==◌, leb, if◌then◌else◌,
  if-elim,
}
use energy_agent_diagnosis.Common.Table
use energy_agent_diagnosis.Common.Table.{Table}
use energy_agent_diagnosis.Users.Models.{UserStatus, disabled, user_status_eq, AppUser, UserStore}
use energy_agent_diagnosis.Users.Repository.{
  is_active_admin, ProfileUpdate, assign, demotes, update_profile, update_profile_row,
  assign_status, set_status, set_status_row, failed, record_login_failure, logged_in,
  record_login_success, with_password, replace_password, next_version, increment_token_version,
  create, failure_row, success_row, password_row,
}

pub data UsersStep (t : Table AppUser) : Table AppUser → Type 0 where
  same : UsersStep t t
  added : (k : String) (u : AppUser) → UsersStep t (Table.add k u t)
  profile :
      (k : String) (p : ProfileUpdate) (u : AppUser)
      → Table.get k t ≡ some u
      → demotes p.role && is_active_admin u && leb (Table.count_where is_active_admin t) 1 ≡ false
      → UsersStep t (Table.modify k (assign p) t)
  status :
      (k : String) (x : UserStatus) (u : AppUser)
      → Table.get k t ≡ some u
      → x == disabled && is_active_admin u && leb (Table.count_where is_active_admin t) 1 ≡ false
      → UsersStep t (Table.modify k (assign_status x) t)
  failure : (now : ℕ) (k : String) → UsersStep t (Table.modify k (failed now) t)
  success : (now : ℕ) (k : String) → UsersStep t (Table.modify k (logged_in now) t)
  password :
      (now : ℕ) (k h : String) (must : Bool)
      → UsersStep t (Table.modify k (with_password now h must) t)
  version : (k : String) → UsersStep t (Table.modify k next_version t)

-- The store after a call that gives a value.
pub data Steps {A : Type 0} (s : UserStore) (r : A × UserStore) : Type 0 where
  step : UsersStep s.users r.1.users → Steps s r

pub Steps-users :
    {A : Type 0} (s : UserStore) (r : A × UserStore) → Steps s r → UsersStep s.users r.1.users
Steps-users s r (step h) = h

module _ {A : Type 0} where
  pub Steps-if :
      (s : UserStore) (b : Bool) (x y : A × UserStore)
      → (b ≡ true → Steps s x)
      → (b ≡ false → Steps s y)
      → Steps s (if b then x else y)
  Steps-if s b x y p q = if-elim (Steps s) b x y p q

module _ (s : UserStore) where
  pub create-Steps : (k : String) (u : AppUser) → Steps s (create k u s)
  unfolding create
  create-Steps k u = search (Steps-if, step, same, added)

  update_row-Steps :
      (k : String) (p : ProfileUpdate) (o : Option AppUser)
      → Table.get k s.users ≡ o
      → Steps s (update_profile_row k p o s)
  unfolding update_profile_row
  update_row-Steps k p none e = step same
  update_row-Steps k p (some u) e = search (Steps-if, step, same, profile)

  pub update_profile-Steps : (k : String) (p : ProfileUpdate) → Steps s (update_profile k p s)
  unfolding update_profile
  update_profile-Steps k p = update_row-Steps k p (Table.get k s.users) refl

  set_row-Steps :
      (k : String) (x : UserStatus) (o : Option AppUser)
      → Table.get k s.users ≡ o
      → Steps s (set_status_row k x o s)
  unfolding set_status_row
  set_row-Steps k x none e = step same
  set_row-Steps k x (some u) e = search (Steps-if, step, same, status)

  pub set_status-Steps : (k : String) (x : UserStatus) → Steps s (set_status k x s)
  unfolding set_status
  set_status-Steps k x = set_row-Steps k x (Table.get k s.users) refl

  failure_row-Steps : (now : ℕ) (k : String) (o : Option AppUser) → Steps s (failure_row now k o s)
  unfolding failure_row
  failure_row-Steps now k none = step same
  failure_row-Steps now k (some u) = step (failure now k)

  pub record_login_failure-Steps : (now : ℕ) (k : String) → Steps s (record_login_failure now k s)
  unfolding record_login_failure
  record_login_failure-Steps now k = failure_row-Steps now k (Table.get k s.users)

  success_row-Steps : (now : ℕ) (k : String) (o : Option AppUser) → Steps s (success_row now k o s)
  unfolding success_row
  success_row-Steps now k none = step same
  success_row-Steps now k (some u) = step (success now k)

  pub record_login_success-Steps : (now : ℕ) (k : String) → Steps s (record_login_success now k s)
  unfolding record_login_success
  record_login_success-Steps now k = success_row-Steps now k (Table.get k s.users)

  password_row-Steps :
      (now : ℕ) (k h : String) (must : Bool) (o : Option AppUser)
      → Steps s (password_row now k h must o s)
  unfolding password_row
  password_row-Steps now k h must none = step same
  password_row-Steps now k h must (some u) = step (password now k h must)

  pub replace_password-Steps :
      (now : ℕ) (k h : String) (must : Bool) → Steps s (replace_password now k h must s)
  unfolding replace_password
  replace_password-Steps now k h must = password_row-Steps now k h must (Table.get k s.users)

  pub increment_token_version-UsersStep :
      (k : String) → UsersStep s.users (increment_token_version k s).users
  unfolding increment_token_version
  increment_token_version-UsersStep k = version k
