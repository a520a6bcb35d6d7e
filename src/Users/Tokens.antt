-- ===== src/Users/Tokens.antt =====
-- src/energy_agent/users/password.py and jwt.py. Unicode folding, the password hash, SHA-256 and the
-- encoding of tokens are those of Python and of the packages it uses: fields of `Library`.
use Prim.Native.String.{count}
use energy_agent_diagnosis.Common.{
  ◌≡◌, refl, ◌⊎◌, inl, inr, ℕ, ◌+◌, ◌*◌, String, Bool, not, ◌&&◌, ◌||◌, ◌==◌, string_eq, leb,
  truthy, if◌then◌else◌,
}
use energy_agent_diagnosis.Common.Errors.{Outcome, ok, err, Error}
use energy_agent_diagnosis.Users.Models.{ActorRole}

pub record AccessClaims : Type 0 where
  pub sub : String
  pub username : String
  pub role : ActorRole
  pub token_version : ℕ
  pub jti : String

pub record RefreshClaims : Type 0 where
  pub sub : String
  pub session_id : String
  pub family_id : String
  pub jti : String
  pub token_version : ℕ

-- A payload by its `type`.
pub data Claims : Type 0 where
  access : AccessClaims → Claims
  refresh : RefreshClaims → Claims

-- A payload with the fields that both types have. Times are in seconds.
pub record Payload : Type 0 where
  pub claims : Claims
  pub iss : String
  pub aud : String
  pub iat : ℕ
  pub exp : ℕ

-- What `jwt.decode` gives: a payload, `ExpiredSignatureError`, or another `PyJWTError`.
pub data Decoded (A : Type 0) : Type 0 where
  payload : A → Decoded A
  expired invalid : Decoded A

pub Decoded-cases :
    {A : Type 0} (d : Decoded A) → ((a : A) × (d ≡ payload a)) ⊎ ((d ≡ expired) ⊎ (d ≡ invalid))
Decoded-cases (payload a) = inl (a, refl)
Decoded-cases expired = inr (inl refl)
Decoded-cases invalid = inr (inr refl)

pub record Library : Type 0 where
  pub strip : String → String
  pub nfkc_casefold : String → String
  pub hash : String → String
  pub verify : String → String → Bool
  pub sha256 : String → String
  pub encode : String → Payload → String
  pub decode : String → String → String → ℕ → String → Decoded Payload

pub record Settings : Type 0 where
  pub jwt_access_secret : String
  pub jwt_refresh_secret : String
  pub jwt_issuer : String
  pub jwt_access_audience : String
  pub jwt_refresh_audience : String
  pub jwt_access_ttl_minutes : ℕ
  pub jwt_refresh_ttl_days : ℕ

module _ (lib : Library) where
  abbrev pub normalize_username : String → String
  normalize_username username = lib.nfkc_casefold (lib.strip username)

  unfoldable pub validate_password : String → String → Outcome (Unit {0})
  validate_password password username =
      if not (truthy (lib.strip password))
        || not (leb 10 (count password) && leb (count password) 128)
      then err Error.auth_new_password_invalid
      else if normalize_username password == normalize_username username
      then err Error.auth_new_password_invalid
      else ok tt

  unfoldable pub hash_password : String → String → Outcome String
  hash_password password username = elim (validate_password password username) [
    | err e ↦ err e
    | ok _ ↦ ok (lib.hash password)
  ]

  -- `token_digest`
  abbrev pub token_digest : String → String
  token_digest token = lib.sha256 token

  module _ (settings : Settings) where
    abbrev pub access_seconds : ℕ
    access_seconds = settings.jwt_access_ttl_minutes * 60

    unfoldable pub issue_access : ℕ → AccessClaims → String
    issue_access now c = lib.encode settings.jwt_access_secret (record {
      claims = access c;
      iss = settings.jwt_issuer;
      aud = settings.jwt_access_audience;
      iat = now;
      exp = now + access_seconds;
    })

    abbrev pub refresh_seconds : ℕ
    refresh_seconds = settings.jwt_refresh_ttl_days * 86400

    unfoldable pub issue_refresh : ℕ → RefreshClaims → String
    issue_refresh now c = lib.encode settings.jwt_refresh_secret (record {
      claims = refresh c;
      iss = settings.jwt_issuer;
      aud = settings.jwt_refresh_audience;
      iat = now;
      exp = now + refresh_seconds;
    })

    -- A token of the other type is invalid.
    abbrev pub access_type : Claims → Decoded AccessClaims
    access_type (access c) = payload c
    access_type (refresh c) = invalid

    unfoldable pub decode_access : ℕ → String → Decoded AccessClaims
    decode_access now token =
        elim (lib.decode settings.jwt_access_secret settings.jwt_issuer settings.jwt_access_audience
          now token) [ payload p ↦ access_type p.claims | expired ↦ expired | invalid ↦ invalid ]

    abbrev pub refresh_type : Claims → Decoded RefreshClaims
    refresh_type (access c) = invalid
    refresh_type (refresh c) = payload c

    unfoldable pub decode_refresh : ℕ → String → Decoded RefreshClaims
    decode_refresh now token =
        elim (lib.decode settings.jwt_refresh_secret settings.jwt_issuer
          settings.jwt_refresh_audience now token) [
            | payload p ↦ refresh_type p.claims
            | expired ↦ expired
            | invalid ↦ invalid
          ]
