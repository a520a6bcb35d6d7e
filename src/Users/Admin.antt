-- ===== src/Users/Admin.antt =====
-- src/energy_agent/users/service.py: `UserService`, an administrator's changes of accounts.
use energy_agent_diagnosis.Common.{
  ℕ, String, Option, none, some, Bool, true, false, not, ◌&&◌, ◌||◌, ◌==◌, string_eq, truthy,
  if◌then◌else◌,
}
use energy_agent_diagnosis.Common.Errors.{Outcome, ok, err, Error, Action}
use energy_agent_diagnosis.Common.Table
use energy_agent_diagnosis.Users.Models.{
  ActorRole, active, disabled, role_eq, AppUser, UserStore, write_audit,
}
use energy_agent_diagnosis.Users.Repository
use energy_agent_diagnosis.Users.Repository.{
  ProfileUpdate, or_none, demotes, update_profile, set_status, replace_password,
  increment_token_version,
}
use energy_agent_diagnosis.Users.Sessions.{revoke_user}
use energy_agent_diagnosis.Users.Tokens.{Library, normalize_username, hash_password}

-- `UserCreateRequest`
pub record UserCreateRequest : Type 0 where
  pub username : String
  pub display_name : String
  pub email : Option String
  pub role : ActorRole
  pub initial_password : String

module _ (lib : Library) (now : ℕ) where
  -- `get`
  abbrev pub get : String → UserStore → Outcome AppUser
  get user_id s = elim (Table.get user_id s.users) [
    | none ↦ err Error.user_not_found
    | some u ↦ ok u
  ]

  abbrev pub new_user : UserCreateRequest → String → String → AppUser
  new_user p actor_id password_hash = record {
    username = lib.strip p.username;
    username_normalized = normalize_username lib p.username;
    display_name = lib.strip p.display_name;
    email = elim p.email [ none ↦ none | some e ↦ or_none (some (lib.strip e)) ];
    role = p.role;
    status = active;
    password_hash = password_hash;
    must_change_password = true;
    token_version = 1;
    failed_login_count = 0;
    locked_until = none;
    last_login_at = none;
    last_password_changed_at = none;
    created_by = some actor_id;
  }

  unfoldable pub create : UserCreateRequest → String → String → Action UserStore AppUser
  create p user_id actor_id s =
      if not (truthy (normalize_username lib p.username)) || not (truthy (lib.strip p.display_name))
      then (err Error.invalid_request, s)
      else elim (hash_password lib p.initial_password p.username) [
        | err e ↦ (err e, s)
        | ok h ↦
            let (row, s1) = Repository.create user_id (new_user p actor_id h) s in
            elim row [
              | err e ↦ (err e, s1)
              | ok u ↦ (ok u, write_audit actor_id "user.created" user_id "succeeded" s1)
            ]
      ]

  -- The values that `patch` passes to the repository: texts that are given are stripped.
  abbrev pub stripped : ProfileUpdate → ProfileUpdate
  stripped p = record p {
    display_name = elim p.display_name [
      | none ↦ none
      | some d ↦ if truthy d then some (lib.strip d) else none
    ];
    email = elim p.email [ none ↦ none | some e ↦ if truthy e then some (lib.strip e) else some e ];
  }

  abbrev pub blank_name : Option String → Bool
  blank_name none = false
  blank_name (some d) = not (truthy (lib.strip d))

  abbrev pub changes_role : Option ActorRole → ActorRole → Bool
  changes_role none old = false
  changes_role (some r) old = not (r == old)

  -- `patch` after the repository's update: a changed role revokes the sessions.
  unfoldable pub patched :
      String → ProfileUpdate → String → Option (AppUser × ActorRole) → Action UserStore AppUser
  patched user_id p actor_id none s = (err Error.user_not_found, s)
  patched user_id p actor_id (some (u, old)) s = (
    ok u,
    if changes_role p.role old
        then write_audit actor_id "user.role_changed" user_id "succeeded"
            (revoke_user now user_id "role_changed" s)
        else write_audit actor_id "user.profile_updated" user_id "succeeded" s,
  )

  unfoldable pub patch : String → ProfileUpdate → String → Action UserStore AppUser
  patch user_id p actor_id s =
      let (row, s1) = update_profile user_id (stripped p) s in
      let done = elim row as (λ _. Outcome AppUser × UserStore) [
        | err e ↦ (err e, s1)
        | ok o ↦ patched user_id p actor_id o s1
      ] in
      elim (get user_id s) [
        | err e ↦ (err e, s)
        | ok _ ↦
            if blank_name p.display_name
            then (err Error.invalid_request, s)
            else if actor_id == user_id && demotes p.role
            then (err Error.user_self_role_change_forbidden, s)
            else done
      ]

  -- `disable` after the account is found.
  unfoldable pub disable_found : String → String → Action UserStore AppUser
  disable_found user_id actor_id s =
      let (row, s1) = set_status user_id disabled s in
      elim row [
        | err e ↦ (err e, s1)
        | ok none ↦ (err Error.assertion_error, s1)
        | ok (some u) ↦ (
          ok u,
          write_audit actor_id "user.disabled" user_id "succeeded"
              (revoke_user now user_id "disabled" s1),
        )
      ]

  unfoldable pub disable : String → String → Action UserStore AppUser
  disable user_id actor_id s =
      if actor_id == user_id
      then (err Error.user_self_disable_forbidden, s)
      else elim (get user_id s) [ err e ↦ (err e, s) | ok _ ↦ disable_found user_id actor_id s ]

  unfoldable pub enable : String → String → Action UserStore AppUser
  enable user_id actor_id s =
      let (row, s1) = set_status user_id active s in
      elim row [
        | err e ↦ (err e, s1)
        | ok none ↦ (err Error.user_not_found, s1)
        | ok (some u) ↦ (ok u, write_audit actor_id "user.enabled" user_id "succeeded" s1)
      ]

  unfoldable pub reset_password : String → String → String → Action UserStore AppUser
  reset_password user_id password actor_id s = elim (get user_id s) [
    | err e ↦ (err e, s)
    | ok current ↦ elim (hash_password lib password current.username) [
      | err e ↦ (err e, s)
      | ok h ↦
          let (row, s1) = replace_password now user_id h true s in
          let s2 =
            write_audit actor_id "user.password_reset" user_id "succeeded"
              (revoke_user now user_id "password_reset" s1) in
          elim row [ none ↦ (err Error.assertion_error, s1) | some _ ↦ (get user_id s2, s2) ]
    ]
  ]

  unfoldable pub revoke_sessions : String → String → Action UserStore AppUser
  revoke_sessions user_id actor_id s =
      let s2 =
        write_audit actor_id "user.sessions_revoked" user_id "succeeded"
          (increment_token_version user_id (revoke_user now user_id "admin_revoked" s)) in
      elim (get user_id s) [ err e ↦ (err e, s) | ok _ ↦ (get user_id s2, s2) ]
