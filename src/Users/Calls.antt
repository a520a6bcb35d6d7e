-- ===== src/Users/Calls.antt =====
-- The calls that src/energy_agent/api makes of the services of users/service.py, with the time of each,
-- and the tables that a sequence of them leaves.
use energy_agent_diagnosis.Common.{ℕ, String, Bool, List, [], ◌∷◌}
use energy_agent_diagnosis.Users.Models.{UserStore}
use energy_agent_diagnosis.Users.Repository.{ProfileUpdate}
use energy_agent_diagnosis.Users.Tokens.{Library, Settings}
use energy_agent_diagnosis.Users.Auth
use energy_agent_diagnosis.Users.Auth.{NewIds, LoginLimits}
use energy_agent_diagnosis.Users.Refresh
use energy_agent_diagnosis.Users.Admin
use energy_agent_diagnosis.Users.Admin.{UserCreateRequest}

pub data Call : Type 0 where
  login : LoginLimits → String → String → NewIds → Call
  refresh : Bool → String → NewIds → Call
  change_password : String → String → String → NewIds → Call
  logout : String → String → Call
  logout_all : String → Call
  create : UserCreateRequest → String → String → Call
  patch : String → ProfileUpdate → String → Call
  disable enable revoke_sessions : String → String → Call
  reset_password : String → String → String → Call

module _ (lib : Library) (settings : Settings) where
  unfoldable pub apply : ℕ → Call → UserStore → UserStore
  apply now (Call.login l u p ids) s = (Auth.login lib settings now l u p ids s).1
  apply now (Call.refresh a t ids) s = (Refresh.refresh lib settings now a t ids s).1
  apply now (Call.change_password k c p ids) s =
      (Auth.change_password lib settings now k c p ids s).1
  apply now (Call.logout k t) s = Auth.logout lib settings now k t s
  apply now (Call.logout_all k) s = Auth.logout_all lib settings now k s
  apply now (Call.create p k a) s = (Admin.create lib now p k a s).1
  apply now (Call.patch k p a) s = (Admin.patch lib now k p a s).1
  apply now (Call.disable k a) s = (Admin.disable lib now k a s).1
  apply now (Call.enable k a) s = (Admin.enable lib now k a s).1
  apply now (Call.revoke_sessions k a) s = (Admin.revoke_sessions lib now k a s).1
  apply now (Call.reset_password k p a) s = (Admin.reset_password lib now k p a s).1

  unfoldable pub apply_all : List (ℕ × Call) → UserStore → UserStore
  apply_all [] s = s
  apply_all ((now, c) ∷ cs) s = apply_all cs (apply now c s)
