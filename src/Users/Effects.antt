-- ===== src/Users/Effects.antt =====
-- The calls of src/energy_agent/users/service.py as steps of the table of accounts.
use energy_agent_diagnosis.Common.{
  ℕ, String, Option, none, some, Bool, true, false, ◌≡◌, arith, ◌⊎◌, inl, inr, Option-cases,
}
use energy_agent_diagnosis.Common.Errors.{Outcome-cases}
use energy_agent_diagnosis.Common.Table
use energy_agent_diagnosis.Common.Table.{Table}
use mathlib.Core.Path.{subst}
use energy_agent_diagnosis.Users.Models.{AppUser, RefreshSession, UserStore, active, disabled}
use energy_agent_diagnosis.Users.Repository.{
  by_normalized_username, record_login_success, record_login_failure, update_profile, set_status,
  replace_password, increment_token_version, ProfileUpdate,
}
use energy_agent_diagnosis.Users.Sessions.{revoke_user, revoke_family, revoke, rotate, rotate_row}
use energy_agent_diagnosis.Users.Tokens.{Library, Settings}
use energy_agent_diagnosis.Users.Auth.{
  NewIds, LoginLimits, login, login_user, login_success, login_failure, issue_pair, change_password,
  change_row, logout, logout_all,
}
use energy_agent_diagnosis.Users.Refresh.{refresh, refresh_user, rotation_result, rotate_claims}
use energy_agent_diagnosis.Users.Admin.{
  patch, patched, stripped, disable, disable_found, enable, reset_password, revoke_sessions,
}
use energy_agent_diagnosis.Users.Steps.{
  UsersStep, Steps, step, same, version, create-Steps, update_profile-Steps, set_status-Steps,
  Steps-users, record_login_failure-Steps, record_login_success-Steps, replace_password-Steps,
  increment_token_version-UsersStep,
}
use energy_agent_diagnosis.Users.Calls.{Call, apply}
use energy_agent_diagnosis.Users.Admin
use energy_agent_diagnosis.Users.Admin.{UserCreateRequest, create, new_user}
use energy_agent_diagnosis.Users.Repository
use energy_agent_diagnosis.Users.Tokens.{
  hash_password, normalize_username, RefreshClaims, decode_refresh, Decoded-cases,
}
use energy_agent_diagnosis.Users.Sessions.{Rotation, refused, reused, rotated}

module _ (lib : Library) (settings : Settings) (now : ℕ) (s : UserStore) where
  -- A table that is the one of a step, or the one before.
  of_step :
      {A : Type 0} (t : Table AppUser) (r : A × UserStore)
      → Steps s r
      → (t ≡ s.users) ⊎ (t ≡ r.1.users)
      → UsersStep s.users t
  of_step t r h (inl e) = rw e same
  of_step t r h (inr e) = rw e (Steps-users s r h)

  login_success-UsersStep :
      (k : String) (ids : NewIds)
      → UsersStep s.users (login_success lib settings now k ids s).1.users
  unfolding login_success issue_pair
  login_success-UsersStep k ids =
      of_step _ (record_login_success now k s) (record_login_success-Steps s now k) (ground arith)

  login_failure-UsersStep :
      (subject k : String) (valid : Bool)
      → UsersStep s.users (login_failure lib settings now subject k valid s).1.users
  unfolding login_failure
  login_failure-UsersStep subject k valid =
      of_step _ (record_login_failure now k s) (record_login_failure-Steps s now k) (ground arith)

  login_user-UsersStep :
      (subject password : String) (ids : NewIds) (o : Option (String × AppUser))
      → UsersStep s.users (login_user lib settings now subject password ids o s).1.users
  unfolding login_user
  login_user-UsersStep subject password ids none = same
  login_user-UsersStep subject password ids (some (k, u)) =
      let valid = lib.verify password u.password_hash in
      let result = login_user lib settings now subject password ids (some (k, u)) s in
      let failure = login_failure lib settings now subject k valid s in
      let success = login_success lib settings now k ids s in
      let one_of : (result.1.users ≡ s.users)
          ⊎ ((result.1.users ≡ failure.1.users) ⊎ (result.1.users ≡ success.1.users)) =
        ground arith in
      elim one_of [
        | inl e ↦ rw e same
        | inr (inl e) ↦ rw e (login_failure-UsersStep subject k valid)
        | inr (inr e) ↦ rw e (login_success-UsersStep k ids)
      ]

  login-UsersStep :
      (l : LoginLimits) (username password : String) (ids : NewIds)
      → UsersStep s.users (login lib settings now l username password ids s).1.users
  unfolding login
  login-UsersStep l username password ids =
      let name = normalize_username lib username in
      let found = by_normalized_username name s.users in
      let subject = lib.sha256 name in
      of_step _ (login_user lib settings now subject password ids found s)
        (step (login_user-UsersStep subject password ids found)) (ground arith)

  change_password-UsersStep :
      (k current new : String) (ids : NewIds)
      → UsersStep s.users (change_password lib settings now k current new ids s).1.users
  unfolding change_password change_row issue_pair revoke_user
  change_password-UsersStep k current new ids =
      of_step _ (replace_password now k (lib.hash new) false s)
        (replace_password-Steps s now k (lib.hash new) false) (ground arith)

  create-UsersStep :
      (p : UserCreateRequest) (k a : String)
      → UsersStep s.users (Admin.create lib now p k a s).1.users
  unfolding Admin.create
  create-UsersStep p k a = elim (Outcome-cases (hash_password lib p.initial_password p.username)) [
    | inl (h, e) ↦
        of_step _ (Repository.create k (new_user lib now p a h) s)
          (create-Steps s k (new_user lib now p a h)) (ground (arith, e))
    | inr (x, e) ↦ of_step _ (tt, s) (step same) (ground (arith, e))
  ]

  patch-UsersStep :
      (k : String) (p : ProfileUpdate) (a : String)
      → UsersStep s.users (patch lib now k p a s).1.users
  unfolding patch patched revoke_user
  patch-UsersStep k p a =
      of_step _ (update_profile k (stripped lib now p) s)
        (update_profile-Steps s k (stripped lib now p)) (ground arith)

  disable-UsersStep : (k a : String) → UsersStep s.users (disable lib now k a s).1.users
  unfolding disable disable_found revoke_user
  disable-UsersStep k a =
      of_step _ (set_status k disabled s) (set_status-Steps s k disabled) (ground arith)

  enable-UsersStep : (k a : String) → UsersStep s.users (enable lib now k a s).1.users
  unfolding enable
  enable-UsersStep k a =
      of_step _ (set_status k active s) (set_status-Steps s k active) (ground arith)

  reset_password-UsersStep :
      (k p a : String) → UsersStep s.users (reset_password lib now k p a s).1.users
  unfolding reset_password revoke_user
  reset_password-UsersStep k p a = elim (Option-cases (Table.get k s.users)) [
    | inl gone ↦ of_step _ (tt, s) (step same) (ground (arith, gone))
    | inr (u, row) ↦ elim (Outcome-cases (hash_password lib p u.username)) [
      | inl (h, e) ↦
          of_step _ (replace_password now k h true s) (replace_password-Steps s now k h true)
            (ground (arith, row, e))
      | inr (x, e) ↦ of_step _ (tt, s) (step same) (ground (arith, row, e))
    ]
  ]

  revoke_sessions-UsersStep :
      (k a : String) → UsersStep s.users (revoke_sessions lib now k a s).1.users
  unfolding revoke_sessions revoke_user increment_token_version
  revoke_sessions-UsersStep k a =
      of_step _ (tt, increment_token_version k s) (step (increment_token_version-UsersStep s k))
        (ground arith)

  rotation_result-UsersStep :
      (c : RefreshClaims) (u : AppUser) (ids : NewIds) (r : Rotation)
      → UsersStep s.users (rotation_result lib settings now c u ids r s).1.users
  unfolding rotation_result revoke_family increment_token_version
  rotation_result-UsersStep c u ids refused = same
  rotation_result-UsersStep c u ids (reused k f) = version k
  rotation_result-UsersStep c u ids rotated = same

  logout_users : (k t : String) → (logout lib settings now k t s).users ≡ s.users
  unfolding logout revoke
  logout_users k t = ground arith

  logout_all-UsersStep : (k : String) → UsersStep s.users (logout_all lib settings now k s).users
  unfolding logout_all revoke_user increment_token_version
  logout_all-UsersStep k = version k

pub rotate_users :
    (now : ℕ) (k h j n : String) (r : RefreshSession) (s : UserStore)
    → (rotate now k h j n r s).1.users ≡ s.users
unfolding rotate rotate_row
rotate_users now k h j n r s = ground arith

module _ (lib : Library) (settings : Settings) (now : ℕ) (s : UserStore) where
  refresh_user-UsersStep :
      (token : String) (c : RefreshClaims) (ids : NewIds) (o : Option AppUser)
      → UsersStep s.users (refresh_user lib settings now token c ids o s).1.users
  unfolding refresh_user
  refresh_user-UsersStep token c ids none = same
  refresh_user-UsersStep token c ids (some u) =
      let (rotation, s1) = rotate_claims lib settings now token c u ids s in
      let kept : s1.users ≡ s.users = rotate_users now _ _ _ _ _ s in
      let after = rotation_result-UsersStep lib settings now s1 c u ids rotation in
      of_step lib settings now s _ (rotation_result lib settings now c u ids rotation s1)
        (step (
          subst (λ t. UsersStep t (rotation_result lib settings now c u ids rotation s1).1.users)
            kept after))
        (ground arith)

  refresh-UsersStep :
      (allowed : Bool) (token : String) (ids : NewIds)
      → UsersStep s.users (refresh lib settings now allowed token ids s).1.users
  unfolding refresh
  refresh-UsersStep allowed token ids =
      elim (Decoded-cases (decode_refresh lib settings now token)) [
        | inl (c, e) ↦
            of_step lib settings now s _
              (refresh_user lib settings now token c ids (Table.get c.sub s.users) s)
              (step (refresh_user-UsersStep token c ids (Table.get c.sub s.users)))
              (ground (arith, e))
        | inr (inl e) ↦ of_step lib settings now s _ (tt, s) (step same) (ground (arith, e))
        | inr (inr e) ↦ of_step lib settings now s _ (tt, s) (step same) (ground (arith, e))
      ]

-- Every call is a step of the accounts.
pub apply-UsersStep :
    (lib : Library) (settings : Settings) (now : ℕ) (c : Call) (s : UserStore)
    → UsersStep s.users (apply lib settings now c s).users
unfolding apply
apply-UsersStep lib settings now (Call.login l u p ids) s =
    login-UsersStep lib settings now s l u p ids
apply-UsersStep lib settings now (Call.refresh a t ids) s =
    refresh-UsersStep lib settings now s a t ids
apply-UsersStep lib settings now (Call.change_password k c p ids) s =
    change_password-UsersStep lib settings now s k c p ids
apply-UsersStep lib settings now (Call.logout k t) s = rw (logout_users lib settings now s k t) same
apply-UsersStep lib settings now (Call.logout_all k) s = logout_all-UsersStep lib settings now s k
apply-UsersStep lib settings now (Call.create p k a) s = create-UsersStep lib settings now s p k a
apply-UsersStep lib settings now (Call.patch k p a) s = patch-UsersStep lib settings now s k p a
apply-UsersStep lib settings now (Call.disable k a) s = disable-UsersStep lib settings now s k a
apply-UsersStep lib settings now (Call.enable k a) s = enable-UsersStep lib settings now s k a
apply-UsersStep lib settings now (Call.revoke_sessions k a) s =
    revoke_sessions-UsersStep lib settings now s k a
apply-UsersStep lib settings now (Call.reset_password k p a) s =
    reset_password-UsersStep lib settings now s k p a
