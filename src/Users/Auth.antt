-- ===== src/Users/Auth.antt =====
-- src/energy_agent/users/service.py: `AuthService`, except for `refresh`. `now` is the clock, the ids
-- are those a call draws, and the answers of the rate limiter are arguments.
use energy_agent_diagnosis.Common.{
  ℕ, ◌+◌, String, Option, none, some, Bool, false, not, ◌||◌, ◌==◌, string_eq, nat_eq, ltb,
  if◌then◌else◌,
}
use energy_agent_diagnosis.Common.Errors.{Outcome, ok, err, Error, Action}
use energy_agent_diagnosis.Common.Table
use energy_agent_diagnosis.Users.Models.{
  active, role_eq, user_status_eq, AppUser, RefreshSession, UserStore, write_audit,
}
use energy_agent_diagnosis.Users.Repository.{
  by_normalized_username, record_login_failure, record_login_success, replace_password,
  increment_token_version,
}
use energy_agent_diagnosis.Users.Sessions
use energy_agent_diagnosis.Users.Sessions.{revoke, revoke_user}
use energy_agent_diagnosis.Users.Tokens.{
  AccessClaims, payload, expired, invalid, Library, Settings, normalize_username, token_digest,
  issue_access, issue_refresh, decode_access, decode_refresh, access_seconds, refresh_seconds,
  validate_password,
}

-- The ids of a new pair of tokens.
pub record NewIds : Type 0 where
  pub access_jti : String
  pub session_id : String
  pub family_id : String
  pub jti : String

-- `UserProfile` is the row here.
pub record TokenResponse : Type 0 where
  pub access_token : String
  pub refresh_token : String
  pub access_expires_in : ℕ
  pub refresh_expires_in : ℕ
  pub user : AppUser

-- The rate limiter's answers to `login`; both are true where it is switched off.
pub record LoginLimits : Type 0 where
  pub username_allowed : Bool
  pub source_allowed : Bool

-- `_audit_service`
abbrev pub audit_service : String → String → UserStore → UserStore
audit_service action resource_id = write_audit "service:auth" action resource_id "failed"

-- `locked_until` is set and later than now.
abbrev pub is_locked : ℕ → AppUser → Bool
is_locked now u = elim u.locked_until [ none ↦ false | some t ↦ ltb now t ]

module _ (lib : Library) (settings : Settings) (now : ℕ) where
  abbrev pub access_of : String → AppUser → String → String
  access_of user_id u jti = issue_access lib settings now (record {
    sub = user_id;
    username = u.username;
    role = u.role;
    token_version = u.token_version;
    jti = jti;
  })

  abbrev pub refresh_of : String → AppUser → NewIds → String
  refresh_of user_id u ids = issue_refresh lib settings now (record {
    sub = user_id;
    session_id = ids.session_id;
    family_id = ids.family_id;
    jti = ids.jti;
    token_version = u.token_version;
  })

  abbrev pub session_of : String → AppUser → NewIds → Option String → RefreshSession
  session_of user_id u ids from = record {
    user_id = user_id;
    token_hash = token_digest lib (refresh_of user_id u ids);
    token_family_id = ids.family_id;
    jti = ids.jti;
    rotated_from_session_id = from;
    last_used_at = none;
    expires_at = now + refresh_seconds lib settings;
    revoked_at = none;
    revoke_reason = none;
  }

  -- The response, with `current_user`, which reads the row again.
  unfoldable pub respond : String → AppUser → NewIds → UserStore → Outcome TokenResponse
  respond user_id u ids s = elim (Table.get user_id s.users) [
    | none ↦ err Error.user_not_found
    | some row ↦ ok (record {
      access_token = access_of user_id u ids.access_jti;
      refresh_token = refresh_of user_id u ids;
      access_expires_in = access_seconds lib settings;
      refresh_expires_in = refresh_seconds lib settings;
      user = row;
    })
  ]

  -- `_issue_pair`
  unfoldable pub issue_pair : String → AppUser → NewIds → Action UserStore TokenResponse
  issue_pair user_id u ids s =
      let s' = Sessions.create ids.session_id (session_of user_id u ids none) s in
      (respond user_id u ids s', s')

  -- `login` with the right password for an active account.
  unfoldable pub login_success : String → NewIds → Action UserStore TokenResponse
  login_success user_id ids s =
      let (row, s1) = record_login_success now user_id s in
      elim row [
        | err e ↦ (err e, s1)
        | ok u ↦
            let (response, s2) = issue_pair user_id u ids s1 in
            elim response [
              | err e ↦ (err e, s2)
              | ok r ↦ (ok r, write_audit user_id "auth.login.succeeded" user_id "succeeded" s2)
            ]
      ]

  -- `login` with a wrong password, which is counted, or for an account that is not active.
  unfoldable pub login_failure : String → String → Bool → Action UserStore TokenResponse
  login_failure subject user_id valid s =
      let (locked, s1) = record_login_failure now user_id s in
      if valid
      then (err Error.auth_invalid_credentials, audit_service "auth.login.failed" subject s)
      else (
        err (if locked then Error.auth_account_locked else Error.auth_invalid_credentials),
        audit_service "auth.login.failed" subject s1,
      )

  -- `login` after the look for the account; `subject` is the hash of the name.
  unfoldable pub login_user :
      String → String → NewIds → Option (String × AppUser) → Action UserStore TokenResponse
  login_user subject password ids none s =
      (err Error.auth_invalid_credentials, audit_service "auth.login.failed" subject s)
  login_user subject password ids (some (user_id, u)) s =
      let valid = lib.verify password u.password_hash in
      if is_locked now u
      then (err Error.auth_account_locked, audit_service "auth.login.locked" subject s)
      else if not valid || not (u.status == active)
      then login_failure subject user_id valid s
      else login_success user_id ids s

  unfoldable pub login : LoginLimits → String → String → NewIds → Action UserStore TokenResponse
  login limits username password ids s =
      let name = normalize_username lib username in
      if not limits.username_allowed || not limits.source_allowed
      then (err Error.rate_limit_exceeded, s)
      else login_user (lib.sha256 name) password ids (by_normalized_username name s.users) s

  -- `authenticate_access` for a token that decodes to `c`.
  unfoldable pub accept_access : AccessClaims → Option AppUser → Outcome (String × AppUser)
  accept_access c none = err Error.auth_token_invalid
  accept_access c (some u) =
      if not (u.status == active)
        || not (u.token_version == c.token_version)
        || not (u.role == c.role)
      then err Error.auth_token_invalid
      else ok (c.sub, u)

  -- The id of the actor and its row, whose role is the actor's.
  unfoldable pub authenticate_access : String → UserStore → Outcome (String × AppUser)
  authenticate_access token s = elim (decode_access lib settings now token) [
    | expired ↦ err Error.auth_token_expired
    | invalid ↦ err Error.auth_token_invalid
    | payload c ↦ accept_access c (Table.get c.sub s.users)
  ]

  unfoldable pub change_row :
      String → String → String → NewIds → Option AppUser → Action UserStore TokenResponse
  change_row user_id current new ids none s = (err Error.auth_current_password_invalid, s)
  change_row user_id current new ids (some u) s =
      let (updated, s1) = replace_password now user_id (lib.hash new) false s in
      let done = elim updated as (λ _. Outcome TokenResponse × UserStore) [
        | none ↦ (err Error.assertion_error, s1)
        | some u' ↦ issue_pair user_id u' ids (
            write_audit user_id "auth.password.changed" user_id "succeeded"
              (revoke_user now user_id "password_changed" s1))
      ] in
      if not (lib.verify current u.password_hash)
      then (err Error.auth_current_password_invalid, s)
      else elim (validate_password lib new u.username) [
        | err e ↦ (err e, s)
        | ok _ ↦
            if lib.verify new u.password_hash
            then (err Error.auth_new_password_invalid, s)
            else done
      ]

  -- `change_password`; `hash_password` validates the password once more, which it has just passed.
  unfoldable pub change_password :
      String → String → String → NewIds → Action UserStore TokenResponse
  change_password actor_id current new ids s =
      change_row actor_id current new ids (Table.get actor_id s.users) s

  -- `logout`: a token that does not decode, or is another's, revokes nothing.
  unfoldable pub logout : String → String → UserStore → UserStore
  logout actor_id refresh_token s =
      let s' = elim (decode_refresh lib settings now refresh_token) as (λ _. UserStore) [
        | payload c ↦ if c.sub == actor_id then revoke now c.session_id "logout" s else s
        | expired ↦ s
        | invalid ↦ s
      ] in
      write_audit actor_id "auth.logout" actor_id "succeeded" s'

  unfoldable pub logout_all : String → UserStore → UserStore
  logout_all actor_id s =
      write_audit actor_id "auth.logout_all" actor_id "succeeded"
        (increment_token_version actor_id (revoke_user now actor_id "logout_all" s))
