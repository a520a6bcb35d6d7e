-- ===== src/Tests/Users/Data.antt =====
-- The accounts, the session and the library of the tests of accounts. The library writes every token as the
-- text that it carries.
use energy_agent_diagnosis.Common.{none, true, false, [], ◌∷◌, ◌==◌, string_eq}
use energy_agent_diagnosis.Users.Models.{ActorRole, UserStatus, AppUser, RefreshSession, UserStore}
use energy_agent_diagnosis.Users.Tokens.{
  AccessClaims, RefreshClaims, Claims, Payload, Decoded, Library, Settings,
}
use energy_agent_diagnosis.Users.Auth.{NewIds}

abbrev pub access_claims : AccessClaims
access_claims = record {
  sub = "root";
  username = "root";
  role = ActorRole.admin;
  token_version = 1;
  jti = "a";
}

abbrev pub refresh_claims : RefreshClaims
refresh_claims = record {
  sub = "root";
  session_id = "session-1";
  family_id = "family-1";
  jti = "r";
  token_version = 1;
}

abbrev pub payload_of : Claims → Payload
payload_of c = record { claims = c; iss = "energy-agent"; aud = "api"; iat = 0; exp = 1000 }

abbrev pub library : Library
library = record {
  strip = λ s. s;
  nfkc_casefold = λ s. s;
  hash = λ s. s;
  verify = λ p h. p == h;
  sha256 = λ s. s;
  encode = λ secret p. secret;
  decode = λ secret issuer audience now token. elim (token == "access") as (λ _. Decoded Payload) [
    | true ↦ Decoded.payload (payload_of (Claims.access access_claims))
    | false ↦ Decoded.payload (payload_of (Claims.refresh refresh_claims))
  ];
}

abbrev pub settings : Settings
settings = record {
  jwt_access_secret = "s1";
  jwt_refresh_secret = "s2";
  jwt_issuer = "energy-agent";
  jwt_access_audience = "api";
  jwt_refresh_audience = "api";
  jwt_access_ttl_minutes = 15;
  jwt_refresh_ttl_days = 7;
}

abbrev pub root : AppUser
root = record {
  username = "root";
  username_normalized = "root";
  display_name = "Root";
  email = none;
  role = ActorRole.admin;
  status = UserStatus.active;
  password_hash = "secret-password";
  must_change_password = false;
  token_version = 1;
  failed_login_count = 0;
  locked_until = none;
  last_login_at = none;
  last_password_changed_at = none;
  created_by = none;
}

abbrev pub session : RefreshSession
session = record {
  user_id = "root";
  token_hash = "refresh";
  token_family_id = "family-1";
  jti = "r";
  rotated_from_session_id = none;
  last_used_at = none;
  expires_at = 1000;
  revoked_at = none;
  revoke_reason = none;
}

-- Two administrators, and a session of the first.
abbrev pub store : UserStore
store = record {
  users =
      ("root", root)
      ∷ ("deputy", record root { username = "deputy"; username_normalized = "deputy" })
      ∷ [];
  sessions = ("session-1", session) ∷ [];
  audit = [];
}

abbrev pub ids : NewIds
ids = record { access_jti = "a2"; session_id = "session-2"; family_id = "family-2"; jti = "r2" }
