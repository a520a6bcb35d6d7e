-- ===== src/Users/Revocation.antt =====
-- Access tokens whose account has a later token version (src/energy_agent/users/service.py).
use energy_agent_diagnosis.Common.{ℕ, ◌≤◌, ◌<◌, String, Option, none, some, List, ◌≡◌, refl, arith}
use energy_agent_diagnosis.Common.Errors.{ok, err, Error}
use energy_agent_diagnosis.Common.Table
use energy_agent_diagnosis.Common.Table.{get-modify, get-modify_self}
use energy_agent_diagnosis.Users.Models.{AppUser, UserStore, active, disabled, user_status_eq}
use energy_agent_diagnosis.Users.Repository.{
  increment_token_version, next_version, set_status, set_status_row, assign_status,
}
use energy_agent_diagnosis.Users.Sessions.{revoke_user}
use energy_agent_diagnosis.Users.Tokens.{AccessClaims, payload, Library, Settings, decode_access}
use energy_agent_diagnosis.Users.Auth.{logout_all, authenticate_access, accept_access}
use energy_agent_diagnosis.Users.Admin.{disable, disable_found}
use energy_agent_diagnosis.Users.Calls.{Call, apply_all}
use energy_agent_diagnosis.Users.Invariant.{version_of, apply_all-version}

accept-older :
    (lib : Library) (settings : Settings) (now : ℕ) (c : AccessClaims) (o : Option AppUser)
    → c.token_version < version_of o
    → accept_access lib settings now c o ≡ err Error.auth_token_invalid
unfolding accept_access
accept-older lib settings now c none h = refl
accept-older lib settings now c (some u) h = ground arith

-- A token that is older than its account is refused after any calls.
authenticate-older :
    (lib : Library) (settings : Settings) (now : ℕ) (token : String) (c : AccessClaims)
    (cs : List (ℕ × Call)) (s : UserStore)
    → decode_access lib settings now token ≡ payload c
    → c.token_version < version_of (Table.get c.sub s.users)
    → authenticate_access lib settings now token (apply_all lib settings cs s)
      ≡ err Error.auth_token_invalid
unfolding authenticate_access
authenticate-older lib settings now token c cs s decoded older =
    let s' = apply_all lib settings cs s in
    rw (decoded, authenticate_access)
      (accept-older lib settings now c (Table.get c.sub s'.users)
        (omega (arith, apply_all-version lib settings c.sub cs s)))

-- After `logout_all`, every access token of the account that was issued at its token version of then,
-- or at an earlier one, is refused, at any time and after any further calls of the services.
pub logout_all_rejects :
    (lib : Library) (settings : Settings) (now later : ℕ) (token : String) (c : AccessClaims)
    (u : AppUser) (cs : List (ℕ × Call)) (s : UserStore)
    → decode_access lib settings later token ≡ payload c
    → Table.get c.sub s.users ≡ some u
    → c.token_version ≤ u.token_version
    → authenticate_access lib settings later token
        (apply_all lib settings cs (logout_all lib settings now c.sub s))
      ≡ err Error.auth_token_invalid
unfolding logout_all revoke_user increment_token_version
logout_all_rejects lib settings now later token c u cs s decoded row older =
    authenticate-older lib settings later token c cs (logout_all lib settings now c.sub s) decoded
      (ground (arith, row, get-modify_self c.sub next_version s.users u row))

-- After an administrator's `disable` of an active account has returned, every access token of the
-- account that was issued at its token version of before, or at an earlier one, is refused, at any time
-- and after any further calls, also where the account has been enabled again.
pub disable_rejects :
    (lib : Library) (settings : Settings) (now later : ℕ) (token actor_id : String)
    (c : AccessClaims) (u disabled_user : AppUser) (cs : List (ℕ × Call)) (s s' : UserStore)
    → decode_access lib settings later token ≡ payload c
    → Table.get c.sub s.users ≡ some u
    → u.status ≡ active
    → c.token_version ≤ u.token_version
    → disable lib now c.sub actor_id s ≡ (ok disabled_user, s')
    → authenticate_access lib settings later token (apply_all lib settings cs s')
      ≡ err Error.auth_token_invalid
unfolding disable disable_found set_status set_status_row revoke_user
disable_rejects lib settings now later token actor_id c u disabled_user cs s s' decoded row
      is_active older h =
    authenticate-older lib settings later token c cs s' decoded
      (ground (arith, row, get-modify_self c.sub (assign_status disabled) s.users u row))
