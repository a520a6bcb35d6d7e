-- ===== src/Users/Refresh.antt =====
-- src/energy_agent/users/service.py: `AuthService.refresh`.
use energy_agent_diagnosis.Common.{
  ℕ, String, Option, none, some, Bool, not, ◌||◌, ◌==◌, nat_eq, if◌then◌else◌,
}
use energy_agent_diagnosis.Common.Errors.{Outcome, err, Error, Action}
use energy_agent_diagnosis.Common.Table
use energy_agent_diagnosis.Users.Models.{active, user_status_eq, AppUser, UserStore, write_audit}
use energy_agent_diagnosis.Users.Repository.{increment_token_version}
use energy_agent_diagnosis.Users.Sessions.{
  Rotation, refused, reused, rotated, rotate, revoke_family,
}
use energy_agent_diagnosis.Users.Tokens.{
  RefreshClaims, payload, expired, invalid, Library, Settings, token_digest, decode_refresh,
}
use energy_agent_diagnosis.Users.Auth.{NewIds, TokenResponse, audit_service, session_of, respond}

module _ (lib : Library) (settings : Settings) (now : ℕ) where
  -- The new session is of the old one's family.
  abbrev pub in_family : String → NewIds → NewIds
  in_family family_id ids = record ids { family_id = family_id }

  -- `refresh` after the rotation.
  unfoldable pub rotation_result :
      RefreshClaims → AppUser → NewIds → Rotation → Action UserStore TokenResponse
  rotation_result c u ids refused s =
      (err Error.auth_refresh_invalid, audit_service "auth.refresh.failed" c.sub s)
  rotation_result c u ids (reused user_id family_id) s = (
    err Error.auth_refresh_reused,
    audit_service "auth.refresh.reuse_detected" user_id
        (increment_token_version user_id (revoke_family now family_id "reuse_detected" s)),
  )
  rotation_result c u ids rotated s = (
    respond lib settings now c.sub u (in_family c.family_id ids) s,
    write_audit c.sub "auth.refresh.succeeded" ids.session_id "succeeded" s,
  )

  abbrev pub rotate_claims :
      String → RefreshClaims → AppUser → NewIds → UserStore → Rotation × UserStore
  rotate_claims token c u ids s =
      rotate now c.session_id (token_digest lib token) c.jti ids.session_id
        (session_of lib settings now c.sub u (in_family c.family_id ids) (some c.session_id)) s

  -- `refresh` with a token that decodes to `c`, for the account of its subject.
  unfoldable pub refresh_user :
      String → RefreshClaims → NewIds → Option AppUser → Action UserStore TokenResponse
  refresh_user token c ids none s =
      (err Error.auth_refresh_invalid, audit_service "auth.refresh.failed" "unknown" s)
  refresh_user token c ids (some u) s =
      let (rotation, s1) = rotate_claims token c u ids s in
      let after = rotation_result c u ids rotation s1 in
      if not (u.status == active) || not (u.token_version == c.token_version)
      then (err Error.auth_refresh_invalid, audit_service "auth.refresh.failed" c.sub s)
      else after

  -- `refresh`; `allowed` is the rate limiter's answer, true where it is switched off.
  unfoldable pub refresh : Bool → String → NewIds → Action UserStore TokenResponse
  refresh allowed token ids s =
      let decoded =
        elim (decode_refresh lib settings now token) as (λ _. Outcome TokenResponse × UserStore) [
          | expired ↦
              (err Error.auth_refresh_expired, audit_service "auth.refresh.failed" "expired" s)
          | invalid ↦
              (err Error.auth_refresh_invalid, audit_service "auth.refresh.failed" "invalid" s)
          | payload c ↦ refresh_user token c ids (Table.get c.sub s.users) s
        ] in
      if allowed then decoded else (err Error.rate_limit_exceeded, s)
