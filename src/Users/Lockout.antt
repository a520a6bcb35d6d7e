-- ===== src/Users/Lockout.antt =====
-- The lock of an account by failed logins (src/energy_agent/users/service.py and repository.py).
use energy_agent_diagnosis.Common.{
  ℕ, ◌+◌, ◌≤◌, ◌<◌, String, some, true, false, [], ◌∷◌, ◌≡◌, ◌==◌, string_eq, arith, refl, leb, inl,
  inr, Bool-cases, eq_refl,
}
use energy_agent_diagnosis.Common.Errors.{err, Error}
use energy_agent_diagnosis.Common.Table
use energy_agent_diagnosis.Common.Table.{Table}
use energy_agent_diagnosis.Users.Models.{AppUser, UserStore}
use energy_agent_diagnosis.Users.Repository.{
  by_normalized_username, failed, lock_time, record_login_failure, failure_row,
}
use energy_agent_diagnosis.Users.Tokens.{Library, Settings, normalize_username}
use energy_agent_diagnosis.Users.Auth.{
  NewIds, LoginLimits, is_locked, audit_service, login, login_user, login_failure,
}

found-username :
    (name k : String) (u : AppUser) (t : Table AppUser)
    → by_normalized_username name t ≡ some (k, u)
    → u.username_normalized == name ≡ true
unfolding by_normalized_username
found-username name k u [] h = ground (arith, h)
found-username name k u ((j, v) ∷ t) h = elim (Bool-cases (v.username_normalized == name)) [
  | inl same ↦ ground (arith, same, h)
  | inr other ↦ found-username name k u t (rw other at h)
]

-- A failure changes the row that a name finds, and the name still finds it.
found-failed :
    (now : ℕ) (name k : String) (u : AppUser) (t : Table AppUser)
    → by_normalized_username name t ≡ some (k, u)
    → Table.get k t ≡ some u
    → by_normalized_username name (Table.modify k (failed now) t) ≡ some (k, failed now u)
unfolding by_normalized_username Table.get Table.modify
found-failed now name k u [] h g = ground (arith, h)
found-failed now name k u ((j, v) ∷ t) h g = elim (Bool-cases (v.username_normalized == name)) [
  | inl same ↦ ground (arith, same, h, eq_refl k)
  | inr other ↦ elim (Bool-cases (j == k)) [
    | inl here ↦ absurd (ground (arith, here, other, g, found-username name k u t (rw other at h)))
    | inr later ↦
        let rest = found-failed now name k u t (rw other at h) (rw later at g) in
        ground (arith, other, later, rest)
  ]
]

-- A wrong password for an account that is not locked and has four failures or more locks it for fifteen
-- minutes: the login that fails says so, and every login under that name in that time, with whatever
-- password, is refused the same way and changes neither accounts nor sessions.
pub failure_locks :
    (lib : Library) (settings : Settings) (limits : LoginLimits) (username password again : String)
    (ids ids' : NewIds) (now later : ℕ) (s : UserStore) (k : String) (u : AppUser)
    → limits.username_allowed ≡ true
    → limits.source_allowed ≡ true
    → by_normalized_username (normalize_username lib username) s.users ≡ some (k, u)
    → Table.get k s.users ≡ some u
    → is_locked now u ≡ false
    → lib.verify password u.password_hash ≡ false
    → 4 ≤ u.failed_login_count
    → later < now + lock_time
    → let (first, s') = login lib settings now limits username password ids s in
      let (second, s'') = login lib settings later limits username again ids' s' in
      (first ≡ err Error.auth_account_locked)
      × (second ≡ err Error.auth_account_locked)
      × (s''.users ≡ s'.users)
      × (s''.sessions ≡ s'.sessions)
unfolding login login_user login_failure record_login_failure failure_row
failure_locks lib settings limits username password again ids ids' now later s k u a b found row
      free wrong many soon =
    let name = normalize_username lib username in
    let still = found-failed now name k u s.users found row in
    let counted : leb 5 (u.failed_login_count + 1) ≡ true = ground (arith, many) in
    let until : is_locked later (failed now u) ≡ true = ground (arith, counted, soon) in
    let subject = lib.sha256 name in
    let s1 = record s { users = Table.modify k (failed now) s.users } in
    let first : login lib settings now limits username password ids s
        ≡ (err Error.auth_account_locked, audit_service "auth.login.failed" subject s1) =
      ground (arith, a, b, found, row, free, wrong, counted) in
    let second : login lib settings later limits username again ids'
          (audit_service "auth.login.failed" subject s1)
        ≡ (
          err Error.auth_account_locked,
          audit_service "auth.login.locked" subject (audit_service "auth.login.failed" subject s1),
        ) =
      ground (arith, a, b, still, until) in
    rw (first, second) (refl, refl, refl, refl)
