-- ===== src/Tests/Users.antt =====
-- The theorems on accounts and tokens, at concrete inputs.
mod Data
use energy_agent_diagnosis.Common.{
  ℕ, ◌≤◌, none, some, is_some, true, false, List, [], ◌∷◌, ◌≡◌, refl, arith, ◌==◌, string_eq,
}
use energy_agent_diagnosis.Common.Errors.{ok, err, Error}
use energy_agent_diagnosis.Common.Table
use mathlib.Core.Option
use energy_agent_diagnosis.Users.Models.{ActorRole, UserStatus, AppUser, RefreshSession, UserStore}
use energy_agent_diagnosis.Users.Repository.{active_admin_count, next_version}
use energy_agent_diagnosis.Users.Repository
use energy_agent_diagnosis.Users.Sessions
use energy_agent_diagnosis.Users.Tokens
use energy_agent_diagnosis.Users.Tokens.{
  AccessClaims, RefreshClaims, Claims, Payload, Decoded, Library, Settings, decode_access,
  decode_refresh,
}
use energy_agent_diagnosis.Users.Auth
use energy_agent_diagnosis.Users.Auth.{NewIds, TokenResponse, authenticate_access, logout_all}
use energy_agent_diagnosis.Users.Refresh
use energy_agent_diagnosis.Users.Refresh.{refresh}
use energy_agent_diagnosis.Users.Admin.{disable, disable_found}
use energy_agent_diagnosis.Users.Calls.{Call, apply_all}
use energy_agent_diagnosis.Users.Invariant.{version_of, apply_all-admins, apply_all-version}
use energy_agent_diagnosis.Users.Revocation.{logout_all_rejects, disable_rejects}
use energy_agent_diagnosis.Users.Lockout.{failure_locks}
use energy_agent_diagnosis.Users.Reuse.{refresh_reuse, refresh_reuse_family}
use energy_agent_diagnosis.Tests.Users.Data.{
  access_claims, refresh_claims, payload_of, library, settings, root, session, store, ids,
}

abbrev disables : List (ℕ × Call)
disables = (10, Call.disable "root" "deputy") ∷ (20, Call.disable "deputy" "root") ∷ []

one_admin : 1 ≤ active_admin_count store
unfolding Table.count_where
one_admin = omega arith

apply_all-admins_example : 1 ≤ active_admin_count (apply_all library settings disables store)
apply_all-admins_example = apply_all-admins library settings disables store one_admin

apply_all-version_example :
    version_of (Table.get "root" store.users)
    ≤ version_of (Table.get "root" (apply_all library settings disables store).users)
apply_all-version_example = apply_all-version library settings "root" disables store

decodes_access : decode_access library settings 60 "access" ≡ Decoded.payload access_claims
unfolding decode_access
decodes_access = refl

logout_all_rejects_example :
    authenticate_access library settings 60 "access"
      (apply_all library settings disables (logout_all library settings 5 "root" store))
    ≡ err Error.auth_token_invalid
unfolding Table.get
logout_all_rejects_example =
    logout_all_rejects library settings 5 60 "access" access_claims root disables store
      decodes_access refl (omega arith)

abbrev disabled_root : AppUser
disabled_root = record root { status = UserStatus.disabled; token_version = 2 }

abbrev after_disable : UserStore
after_disable = (disable library 10 "root" "deputy" store).1

disables_root : disable library 10 "root" "deputy" store ≡ (ok disabled_root, after_disable)
unfolding disable disable_found Repository.set_status Repository.set_status_row Table.get
    Table.count_where
disables_root = refl

abbrev enables : List (ℕ × Call)
enables = (20, Call.enable "root" "deputy") ∷ []

disable_rejects_example :
    authenticate_access library settings 60 "access"
      (apply_all library settings enables after_disable)
    ≡ err Error.auth_token_invalid
unfolding Table.get
disable_rejects_example =
    disable_rejects library settings 10 60 "access" "deputy" access_claims root disabled_root
      enables store after_disable decodes_access refl refl (omega arith) disables_root

abbrev after_refresh : UserStore
after_refresh = (refresh library settings 50 true "refresh" ids store).1

abbrev response : TokenResponse
response = record {
  access_token = "s1";
  refresh_token = "s2";
  access_expires_in = 900;
  refresh_expires_in = 604800;
  user = root;
}

decodes_refresh :
    (now : ℕ) → decode_refresh library settings now "refresh" ≡ Decoded.payload refresh_claims
unfolding decode_refresh
decodes_refresh now = refl

refreshes : refresh library settings 50 true "refresh" ids store ≡ (ok response, after_refresh)
unfolding refresh Refresh.refresh_user Refresh.rotation_result Sessions.rotate Sessions.rotate_row
    Auth.respond Table.get Table.modify decode_refresh Tokens.issue_access Tokens.issue_refresh
refreshes = refl

refresh_reuse_example :
    let (outcome, s'') = refresh library settings 70 true "refresh" ids after_refresh in
    (outcome ≡ err Error.auth_refresh_reused)
    × (r : RefreshSession) × (Table.get "session-1" after_refresh.sessions ≡ some r)
    × (Table.get r.user_id s''.users
        ≡ Option.map next_version (Table.get r.user_id after_refresh.users))
refresh_reuse_example =
    refresh_reuse library settings 50 70 "refresh" refresh_claims ids ids store after_refresh
      response true (decodes_refresh 50) (decodes_refresh 70) refreshes

abbrev rotated_session : RefreshSession
rotated_session = Sessions.used 50 session

-- The session that the first use has opened, after the second.
abbrev closed_session : RefreshSession
closed_session = Sessions.revoked 70 "reuse_detected" (
    Auth.session_of library settings 50 "root" root
      (Refresh.in_family library settings 50 "family-1" ids) (some "session-1"))

first_row : Table.get "session-1" after_refresh.sessions ≡ some rotated_session
unfolding refresh Refresh.refresh_user Refresh.rotation_result Sessions.rotate Sessions.rotate_row
    Table.get Table.modify decode_refresh
first_row = refl

second_row :
    Table.get "session-2" (refresh library settings 70 true "refresh" ids after_refresh).1.sessions
    ≡ some closed_session
unfolding refresh Refresh.refresh_user Refresh.rotation_result Sessions.rotate Sessions.rotate_row
    Sessions.revoke_family Repository.increment_token_version Table.get Table.modify
    Table.update_where decode_refresh Tokens.issue_refresh
second_row = refl

refresh_reuse_family_example : is_some closed_session.revoked_at ≡ true
refresh_reuse_family_example =
    refresh_reuse_family library settings 50 70 "refresh" refresh_claims ids ids store after_refresh
      response true rotated_session "session-2" closed_session (decodes_refresh 50)
      (decodes_refresh 70) refreshes first_row second_row refl

-- An account with four failures.
abbrev failing_root : AppUser
failing_root = record root { failed_login_count = 4 }

abbrev failing_store : UserStore
failing_store = record store { users = ("root", failing_root) ∷ [] }

abbrev limits : Auth.LoginLimits
limits = record { username_allowed = true; source_allowed = true }

root_found :
    Repository.by_normalized_username "root" failing_store.users ≡ some ("root", failing_root)
unfolding Repository.by_normalized_username
root_found = refl

failure_locks_example :
    let (first, s') =
      Auth.login library settings 100 limits "root" "wrong-password" ids failing_store in
    let (second, s'') = Auth.login library settings 999 limits "root" "secret-password" ids s' in
    (first ≡ err Error.auth_account_locked)
    × (second ≡ err Error.auth_account_locked)
    × (s''.users ≡ s'.users)
    × (s''.sessions ≡ s'.sessions)
unfolding Table.get
failure_locks_example =
    failure_locks library settings limits "root" "wrong-password" "secret-password" ids ids 100 999
      failing_store "root" failing_root refl refl root_found refl refl refl (omega arith)
      (omega arith)
