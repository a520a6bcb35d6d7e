-- ===== src/Users/Repository.antt =====
-- src/energy_agent/users/repository.py: `UserRepository`. A method is one transaction: one that raises
-- changes nothing. The list of users, a query only, is left out.
use energy_agent_diagnosis.Common.{
  ℕ, ◌+◌, String, Option, none, some, is_some, Bool, false, not, ◌&&◌, ◌||◌, [], ◌∷◌, ◌==◌,
  string_eq, leb, truthy, if◌then◌else◌,
}
use energy_agent_diagnosis.Common.Errors.{ok, err, Error, Action}
use energy_agent_diagnosis.Common.Table
use energy_agent_diagnosis.Common.Table.{Table}
use energy_agent_diagnosis.Users.Models.{
  ActorRole, admin, UserStatus, active, disabled, role_eq, user_status_eq, AppUser, UserStore,
}

-- `by_normalized_username`: the row with its id.
unfoldable pub by_normalized_username : String → Table AppUser → Option (String × AppUser)
by_normalized_username username [] = none
by_normalized_username username ((k, u) ∷ t) =
    let rest = by_normalized_username username t in
    if u.username_normalized == username then some (k, u) else rest

abbrev pub same_email : Option String → Option String → Bool
same_email none other = false
same_email (some a) none = false
same_email (some a) (some b) = a == b

-- `uq_app_user_email`: another row has the address; no address at all is no conflict.
unfoldable pub email_taken : String → Option String → Table AppUser → Bool
email_taken user_id email [] = false
email_taken user_id email ((k, u) ∷ t) =
    (not (k == user_id) && same_email email u.email) || email_taken user_id email t

-- `create`: the keys of the table refuse a user name or an address that is taken. Which of the two the
-- caller hears of, where both are, is the database's choice; this is the address.
unfoldable pub create : String → AppUser → Action UserStore AppUser
create user_id u s =
    if email_taken user_id u.email s.users
    then (err Error.user_email_exists, s)
    else if is_some (by_normalized_username u.username_normalized s.users)
        || is_some (Table.get user_id s.users)
    then (err Error.user_username_exists, s)
    else (ok u, record s { users = Table.add user_id u s.users })

abbrev pub is_active_admin : AppUser → Bool
is_active_admin u = u.role == admin && u.status == active

-- `active_admin_count`, also `len(active_admin_ids)`
abbrev pub active_admin_count : UserStore → ℕ
active_admin_count s = Table.count_where is_active_admin s.users

-- The arguments of `update_profile`.
pub record ProfileUpdate : Type 0 where
  pub display_name : Option String
  pub email : Option String
  pub email_set : Bool
  pub role : Option ActorRole

-- `email or None`
abbrev pub or_none : Option String → Option String
or_none none = none
or_none (some e) = if truthy e then some e else none

abbrev pub assign_role : Option ActorRole → AppUser → AppUser
assign_role none u = u
assign_role (some r) u = record u {
  role = r;
  token_version = if r == u.role then u.token_version else u.token_version + 1;
}

abbrev pub assign : ProfileUpdate → AppUser → AppUser
assign p u = assign_role p.role (record u {
  display_name = elim p.display_name [ none ↦ u.display_name | some d ↦ d ];
  email = if p.email_set then or_none p.email else u.email;
})

-- The role that a call assigns is not the administrator's.
abbrev pub demotes : Option ActorRole → Bool
demotes none = false
demotes (some r) = not (r == admin)

unfoldable pub update_profile_row :
    String → ProfileUpdate → Option AppUser → Action UserStore (Option (AppUser × ActorRole))
update_profile_row user_id p none s = (ok none, s)
update_profile_row user_id p (some u) s =
    if demotes p.role && is_active_admin u && leb (active_admin_count s) 1
    then (err Error.user_last_admin_protected, s)
    else if email_taken user_id (assign p u).email s.users
    then (err Error.user_email_exists, s)
    else (
      ok (some (assign p u, u.role)),
      record s { users = Table.modify user_id (assign p) s.users },
    )

-- `update_profile`: the row and the role it had before.
unfoldable pub update_profile :
    String → ProfileUpdate → Action UserStore (Option (AppUser × ActorRole))
update_profile user_id p s = update_profile_row user_id p (Table.get user_id s.users) s

-- The assignments of `set_status`; a status that is there already changes nothing.
abbrev pub assign_status : UserStatus → AppUser → AppUser
assign_status status u = if u.status == status then u else elim status [
  | active ↦ record u { status = active; failed_login_count = 0; locked_until = none }
  | disabled ↦ record u { status = disabled; token_version = u.token_version + 1 }
]

unfoldable pub set_status_row :
    String → UserStatus → Option AppUser → Action UserStore (Option AppUser)
set_status_row user_id status none s = (ok none, s)
set_status_row user_id status (some u) s =
    if status == disabled && is_active_admin u && leb (active_admin_count s) 1
    then (err Error.user_last_admin_protected, s)
    else (
      ok (some (assign_status status u)),
      record s { users = Table.modify user_id (assign_status status) s.users },
    )

unfoldable pub set_status : String → UserStatus → Action UserStore (Option AppUser)
set_status user_id status s = set_status_row user_id status (Table.get user_id s.users) s

-- Fifteen minutes, in the seconds of the model's clock.
abbrev pub lock_time : ℕ
lock_time = 900

abbrev pub failed : ℕ → AppUser → AppUser
failed now u = record u {
  failed_login_count = u.failed_login_count + 1;
  locked_until =
      if leb 5 (u.failed_login_count + 1) then some (now + lock_time) else u.locked_until;
}

unfoldable pub failure_row : ℕ → String → Option AppUser → UserStore → Bool × UserStore
failure_row now user_id none s = (false, s)
failure_row now user_id (some u) s = (
  leb 5 (u.failed_login_count + 1),
  record s { users = Table.modify user_id (failed now) s.users },
)

-- `record_login_failure`: whether the account is locked now.
unfoldable pub record_login_failure : ℕ → String → UserStore → Bool × UserStore
record_login_failure now user_id s = failure_row now user_id (Table.get user_id s.users) s

abbrev pub logged_in : ℕ → AppUser → AppUser
logged_in now u = record u { failed_login_count = 0; locked_until = none; last_login_at = some now }

unfoldable pub success_row : ℕ → String → Option AppUser → Action UserStore AppUser
success_row now user_id none s = (err Error.assertion_error, s)
success_row now user_id (some u) s =
    (ok (logged_in now u), record s { users = Table.modify user_id (logged_in now) s.users })

-- `record_login_success`
unfoldable pub record_login_success : ℕ → String → Action UserStore AppUser
record_login_success now user_id s = success_row now user_id (Table.get user_id s.users) s

abbrev pub with_password : ℕ → String → Bool → AppUser → AppUser
with_password now password_hash must_change u = record u {
  password_hash = password_hash;
  must_change_password = must_change;
  last_password_changed_at = some now;
  token_version = u.token_version + 1;
}

unfoldable pub password_row :
    ℕ → String → String → Bool → Option AppUser → UserStore → Option AppUser × UserStore
password_row now user_id password_hash must_change none s = (none, s)
password_row now user_id password_hash must_change (some u) s = (
  some (with_password now password_hash must_change u),
  record s { users = Table.modify user_id (with_password now password_hash must_change) s.users },
)

-- `replace_password`
unfoldable pub replace_password :
    ℕ → String → String → Bool → UserStore → Option AppUser × UserStore
replace_password now user_id password_hash must_change s =
    password_row now user_id password_hash must_change (Table.get user_id s.users) s

abbrev pub next_version : AppUser → AppUser
next_version u = record u { token_version = u.token_version + 1 }

-- `increment_token_version`: an id without a row changes nothing.
unfoldable pub increment_token_version : String → UserStore → UserStore
increment_token_version user_id s = record s { users = Table.modify user_id next_version s.users }
