-- ===== src/Users/Sessions.antt =====
-- src/energy_agent/users/repository.py: `RefreshSessionRepository`.
use energy_agent_diagnosis.Common.{
  ◌≡◌, refl, ◌⊎◌, inl, inr, ℕ, String, Option, none, some, is_some, Bool, not, ◌&&◌, ◌||◌, ◌==◌,
  string_eq, leb, if◌then◌else◌,
}
use energy_agent_diagnosis.Common.Table
use energy_agent_diagnosis.Common.Table.{Table}
use energy_agent_diagnosis.Users.Models.{RefreshSession, UserStore}

-- `create`; the ids, hashes and `jti` of a new session are fresh.
abbrev pub create : String → RefreshSession → UserStore → UserStore
create session_id r s = record s { sessions = Table.add session_id r s.sessions }

-- What `rotate` gives: `None`, the owner of a session that was rotated or revoked before, or success,
-- which the source writes as two empty texts.
pub data Rotation : Type 0 where
  refused : Rotation
  reused : String → String → Rotation
  rotated : Rotation

pub Rotation-cases :
    (r : Rotation)
    → (r ≡ refused) ⊎ (((user family : String) × (r ≡ reused user family)) ⊎ (r ≡ rotated))
Rotation-cases refused = inl refl
Rotation-cases (reused user family) = inr (inl (user, family, refl))
Rotation-cases rotated = inr (inr refl)

abbrev pub used : ℕ → RefreshSession → RefreshSession
used now r = record r {
  revoked_at = some now;
  last_used_at = some now;
  revoke_reason = some "rotated";
}

unfoldable pub rotate_row :
    ℕ
    → String
    → String
    → String
    → String
    → RefreshSession
    → Option RefreshSession
    → UserStore
    → Rotation × UserStore
rotate_row now session_id token_hash jti new_id new none s = (refused, s)
rotate_row now session_id token_hash jti new_id new (some r) s =
    if not (r.token_hash == token_hash) || not (r.jti == jti)
    then (refused, s)
    else if is_some r.revoked_at
    then (reused r.user_id r.token_family_id, s)
    else if leb r.expires_at now
    then (refused, s)
    else (
      rotated,
      create new_id new (record s { sessions = Table.modify session_id (used now) s.sessions }),
    )

-- `rotate`; `new_id` and `new` are its `new_values`.
unfoldable pub rotate :
    ℕ → String → String → String → String → RefreshSession → UserStore → Rotation × UserStore
rotate now session_id token_hash jti new_id new s =
    rotate_row now session_id token_hash jti new_id new (Table.get session_id s.sessions) s

abbrev pub revoked : ℕ → String → RefreshSession → RefreshSession
revoked now reason r = record r { revoked_at = some now; revoke_reason = some reason }

abbrev pub revoked_open : ℕ → String → RefreshSession → RefreshSession
revoked_open now reason r = if is_some r.revoked_at then r else revoked now reason r

-- `revoke`: the session of an id, unless it is revoked already.
unfoldable pub revoke : ℕ → String → String → UserStore → UserStore
revoke now session_id reason s = record s {
  sessions = Table.modify session_id (revoked_open now reason) s.sessions;
}

abbrev pub open_of_user : String → RefreshSession → Bool
open_of_user user_id r = r.user_id == user_id && not (is_some r.revoked_at)

unfoldable pub revoke_user : ℕ → String → String → UserStore → UserStore
revoke_user now user_id reason s = record s {
  sessions = Table.update_where (open_of_user user_id) (revoked now reason) s.sessions;
}

abbrev pub open_of_family : String → RefreshSession → Bool
open_of_family family_id r = r.token_family_id == family_id && not (is_some r.revoked_at)

unfoldable pub revoke_family : ℕ → String → String → UserStore → UserStore
revoke_family now family_id reason s = record s {
  sessions = Table.update_where (open_of_family family_id) (revoked now reason) s.sessions;
}
