-- ===== src/Users/Reuse.antt =====
-- The second use of a refresh token (src/energy_agent/users/service.py).
use energy_agent_diagnosis.Common.{
  ℕ, String, some, is_some, Bool, true, ◌≡◌, refl, ap, ◌∙◌, arith, Option-cases, inl, inr, eq_refl,
  eq_iff,
}
use energy_agent_diagnosis.Common.Errors.{ok, err, Error}
use energy_agent_diagnosis.Common.Table
use mathlib.Core.Option
use mathlib.Core.Path.{subst}
use energy_agent_diagnosis.Common.Table.{get-modify, get-modify_self, get-add, get-update_where}
use energy_agent_diagnosis.Users.Models.{AppUser, RefreshSession, UserStore, active, user_status_eq}
use energy_agent_diagnosis.Users.Repository.{increment_token_version, next_version}
use energy_agent_diagnosis.Users.Sessions.{
  Rotation-cases, reused, rotated, rotate, rotate_row, used, revoke_family, open_of_family, revoked,
}
use energy_agent_diagnosis.Users.Tokens.{
  RefreshClaims, payload, Library, Settings, decode_refresh, token_digest,
}
use energy_agent_diagnosis.Users.Auth.{NewIds, TokenResponse, session_of, audit_service}
use energy_agent_diagnosis.Users.Refresh.{
  refresh, refresh_user, rotation_result, rotate_claims, in_family,
}

-- A session after it has been rotated.
IsRotated : String → String → String → UserStore → Type 0
IsRotated k h j s =
    (r : RefreshSession) × (Table.get k s.sessions ≡ some r)
    × (r.token_hash ≡ h)
    × (r.jti ≡ j)
    × (is_some r.revoked_at ≡ true)

rotate_success :
    (now : ℕ) (k h j n : String) (new : RefreshSession) (s s' : UserStore)
    → rotate now k h j n new s ≡ (rotated, s')
    → (s'.users ≡ s.users) × IsRotated k h j s'
unfolding rotate rotate_row IsRotated
rotate_success now k h j n new s s' e = elim (Option-cases (Table.get k s.sessions)) [
  | inl gone ↦ absurd (ground (arith, gone, e))
  | inr (r, row) ↦
      let at = get-modify_self k (used now) s.sessions r row in
      let added = get-add n k new (Table.modify k (used now) s.sessions) in
      (
        ground (arith, row, e),
        (
          used now r,
          ground (arith, row, at, added, e),
          ground (arith, row, e, eq_iff r.token_hash h),
          ground (arith, row, e, eq_iff r.jti j),
          refl,
        ),
      )
]

rotate_again :
    (now : ℕ) (k h j n : String) (new r : RefreshSession) (s : UserStore)
    → Table.get k s.sessions ≡ some r
    → r.token_hash ≡ h
    → r.jti ≡ j
    → is_some r.revoked_at ≡ true
    → rotate now k h j n new s ≡ (reused r.user_id r.token_family_id, s)
unfolding rotate rotate_row
rotate_again now k h j n new r s row same_hash same_jti spent =
    ground (arith, row, same_hash, same_jti, spent, eq_refl h, eq_refl j)

-- No session of a family is open after its revocation.
family_closed :
    (now : ℕ) (family reason k : String) (r : RefreshSession) (s : UserStore)
    → Table.get k (revoke_family now family reason s).sessions ≡ some r
    → r.token_family_id ≡ family
    → is_some r.revoked_at ≡ true
unfolding revoke_family
family_closed now family reason k r s row same =
    let updated = get-update_where k (open_of_family family) (revoked now reason) s.sessions in
    elim (Option-cases (Table.get k s.sessions)) [
      | inl gone ↦ absurd (ground (arith, updated, gone, row))
      | inr (old, found) ↦
          ground
            (arith, updated, found, row, same, eq_iff old.token_family_id family, eq_refl family)
    ]

module _ (lib : Library) (settings : Settings) (token : String) (c : RefreshClaims) where
  -- A refresh that returns has passed the account's checks and rotated the session.
  refresh_success :
      (now : ℕ) (ids : NewIds) (s s' : UserStore) (response : TokenResponse) (allowed : Bool)
      → decode_refresh lib settings now token ≡ payload c
      → refresh lib settings now allowed token ids s ≡ (ok response, s')
      → (u : AppUser) × (Table.get c.sub s'.users ≡ some u)
        × (u.status ≡ active)
        × (u.token_version ≡ c.token_version)
        × IsRotated c.session_id (token_digest lib token) c.jti s'
  unfolding refresh refresh_user rotation_result IsRotated
  refresh_success now ids s s' response allowed decoded h =
      elim (Option-cases (Table.get c.sub s.users)) [
        | inl gone ↦ absurd (ground (arith, decoded, gone, h))
        | inr (u, row) ↦
            let rotation = rotate_claims lib settings now token c u ids s in
            elim (Rotation-cases rotation.0) [
              | inl e ↦ absurd (ground (arith, decoded, row, e, h))
              | inr (inl (user, family, e)) ↦ absurd (ground (arith, decoded, row, e, h))
              | inr (inr e) ↦
                  let (users, (r, found, same_hash, same_jti, spent)) =
                    rotate_success now c.session_id (token_digest lib token) c.jti ids.session_id
                      (session_of lib settings now c.sub u
                        (in_family lib settings now c.family_id ids) (some c.session_id))
                      s rotation.1 (ground (arith, e)) in
                  (
                    u,
                    ground (arith, decoded, row, e, h, users),
                    ground (arith, decoded, row, e, h),
                    ground (arith, decoded, row, e, h),
                    (r, ground (arith, decoded, row, e, h, found), same_hash, same_jti, spent),
                  )
            ]
      ]

second_users :
    (k family : String) (now : ℕ) (s : UserStore)
    → Table.get k (increment_token_version k (revoke_family now family "reuse_detected" s)).users
      ≡ Option.map next_version (Table.get k s.users)
unfolding increment_token_version revoke_family
second_users k family now s =
    let changed = get-modify k k next_version s.users in ground (arith, changed, eq_refl k)

module _ (lib : Library) (settings : Settings) (now later : ℕ) (token : String) (c : RefreshClaims)
    (ids ids' : NewIds) (s s' : UserStore) (response : TokenResponse) (allowed : Bool) where
  -- The second use, with the session that the first has left.
  second_use :
      decode_refresh lib settings now token ≡ payload c
      → decode_refresh lib settings later token ≡ payload c
      → refresh lib settings now allowed token ids s ≡ (ok response, s')
      → (r : RefreshSession) × (Table.get c.session_id s'.sessions ≡ some r)
        × (refresh lib settings later true token ids' s' ≡ (
          err Error.auth_refresh_reused,
          audit_service "auth.refresh.reuse_detected" r.user_id (
              increment_token_version r.user_id
                (revoke_family later r.token_family_id "reuse_detected" s')),
        ))
  unfolding refresh refresh_user rotation_result IsRotated
  second_use decoded decoded' h =
      let (u, row, is_active, same_version, (r, found, same_hash, same_jti, spent)) =
        refresh_success lib settings token c now ids s s' response allowed decoded h in
      let again =
        rotate_again later c.session_id (token_digest lib token) c.jti ids'.session_id
          (session_of lib settings later c.sub u (in_family lib settings later c.family_id ids')
            (some c.session_id))
          r s' found same_hash same_jti spent in
      (r, found, ground (arith, decoded', row, is_active, same_version, again))

-- A refresh token that has been exchanged once is not exchanged again, at any time: its second use is
-- reported as a reuse, and raises the token version of the rotated session's user by one.
pub refresh_reuse :
    (lib : Library) (settings : Settings) (now later : ℕ) (token : String) (c : RefreshClaims)
    (ids ids' : NewIds) (s s' : UserStore) (response : TokenResponse) (allowed : Bool)
    → decode_refresh lib settings now token ≡ payload c
    → decode_refresh lib settings later token ≡ payload c
    → refresh lib settings now allowed token ids s ≡ (ok response, s')
    → let (outcome, s'') = refresh lib settings later true token ids' s' in
      (outcome ≡ err Error.auth_refresh_reused)
      × (r : RefreshSession) × (Table.get c.session_id s'.sessions ≡ some r)
      × (Table.get r.user_id s''.users ≡ Option.map next_version (Table.get r.user_id s'.users))
unfolding increment_token_version
refresh_reuse lib settings now later token c ids ids' s s' response allowed decoded decoded' h =
    let (r, found, second) =
      second_use lib settings now later token c ids ids' s s' response allowed decoded decoded' h in
    (
      ap (λ x. x.0) second,
      r,
      found,
      ap (λ y. Table.get r.user_id y.1.users) second
          ∙ second_users r.user_id r.token_family_id later s',
    )

-- The second use of a refresh token closes the family: afterwards every session of the family of the
-- token's own session is revoked.
pub refresh_reuse_family :
    (lib : Library) (settings : Settings) (now later : ℕ) (token : String) (c : RefreshClaims)
    (ids ids' : NewIds) (s s' : UserStore) (response : TokenResponse) (allowed : Bool)
    (own : RefreshSession) (k : String) (x : RefreshSession)
    → decode_refresh lib settings now token ≡ payload c
    → decode_refresh lib settings later token ≡ payload c
    → refresh lib settings now allowed token ids s ≡ (ok response, s')
    → Table.get c.session_id s'.sessions ≡ some own
    → Table.get k (refresh lib settings later true token ids' s').1.sessions ≡ some x
    → x.token_family_id ≡ own.token_family_id
    → is_some x.revoked_at ≡ true
unfolding increment_token_version
refresh_reuse_family lib settings now later token c ids ids' s s' response allowed own k x decoded
      decoded' h row at same =
    let (r, found, second) =
      second_use lib settings now later token c ids ids' s s' response allowed decoded decoded' h in
    let same_row : own ≡ r = ground (arith, row, found) in
    family_closed later r.token_family_id "reuse_detected" k x s'
      (subst (λ y. Table.get k y.1.sessions ≡ some x) second at)
      (same ∙ ap (λ z. z.token_family_id) same_row)
