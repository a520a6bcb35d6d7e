-- ===== src/Users/Models.antt =====
-- The rows of src/energy_agent/persistence/models.py for accounts and refresh sessions, with the
-- enumerations of core/context.py and users/contracts.py. Bookkeeping times are left out.
use energy_agent_diagnosis.Common.{
  ℕ, String, Option, Bool, true, List, [], ◌∷◌, ◌++◌, ◌≡◌, ◌↔◌, arith, Eq, nat_beq,
}
use energy_agent_diagnosis.Common.Table.{Table}

pub data ActorRole : Type 0 where
  viewer operator reviewer admin : ActorRole

pub data UserStatus : Type 0 where
  active disabled : UserStatus

abbrev pub role_code : ActorRole → ℕ
role_code viewer = 0
role_code operator = 1
role_code reviewer = 2
role_code admin = 3

pub role_beq_iff : (a b : ActorRole) → (nat_beq (role_code a) (role_code b) ≡ true) ↔ (a ≡ b)
role_beq_iff a b = ground arith

instance abbrev pub role_eq : Eq ActorRole
role_eq = record { equal = λ a b. nat_beq (role_code a) (role_code b); equal_iff = role_beq_iff }

abbrev pub status_code : UserStatus → ℕ
status_code active = 0
status_code disabled = 1

pub user_status_beq_iff :
    (a b : UserStatus) → (nat_beq (status_code a) (status_code b) ≡ true) ↔ (a ≡ b)
user_status_beq_iff a b = ground arith

instance abbrev pub user_status_eq : Eq UserStatus
user_status_eq = record {
  equal = λ a b. nat_beq (status_code a) (status_code b);
  equal_iff = user_status_beq_iff;
}

-- `AppUserModel`, under its `user_id`
pub record AppUser : Type 0 where
  pub username : String
  pub username_normalized : String
  pub display_name : String
  pub email : Option String
  pub role : ActorRole
  pub status : UserStatus
  pub password_hash : String
  pub must_change_password : Bool
  pub token_version : ℕ
  pub failed_login_count : ℕ
  pub locked_until : Option ℕ
  pub last_login_at : Option ℕ
  pub last_password_changed_at : Option ℕ
  pub created_by : Option String

-- `AuthRefreshSessionModel`, under its `session_id`
pub record RefreshSession : Type 0 where
  pub user_id : String
  pub token_hash : String
  pub token_family_id : String
  pub jti : String
  pub rotated_from_session_id : Option String
  pub last_used_at : Option ℕ
  pub expires_at : ℕ
  pub revoked_at : Option ℕ
  pub revoke_reason : Option String

-- An entry of the audit log, without its snapshot.
pub record AuditEntry : Type 0 where
  pub actor_id : String
  pub action : String
  pub resource_id : String
  pub outcome : String

pub record UserStore : Type 0 where
  pub users : Table AppUser
  pub sessions : Table RefreshSession
  pub audit : List AuditEntry

abbrev pub write_audit : String → String → String → String → UserStore → UserStore
write_audit actor_id action resource_id outcome s = record s {
  audit =
      s.audit
      ++ record {
        actor_id = actor_id;
        action = action;
        resource_id = resource_id;
        outcome = outcome;
      }
        ∷ [];
}
