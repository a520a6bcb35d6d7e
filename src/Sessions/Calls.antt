-- ===== src/Sessions/Calls.antt =====
-- Any use of src/energy_agent/agent/execution_service.py: its calls, one after the other, and the expiry of
-- the memory of a session.
use energy_agent_diagnosis.Common.{String, Option, List, [], ◌∷◌}
use energy_agent_diagnosis.Sessions.Store.{Store, remove}
use energy_agent_diagnosis.Sessions.Requests.{
  Library, Settings, CreateSessionRequest, DiagnosisChatRequest,
}
use energy_agent_diagnosis.Sessions.Create
use energy_agent_diagnosis.Sessions.Create.{create_session}
use energy_agent_diagnosis.Sessions.Diagnose
use energy_agent_diagnosis.Sessions.Diagnose.{diagnose}

pub data Call : Type 0 where
  create : Create.Environment → CreateSessionRequest → Option String → Call
  chat : Diagnose.Environment → DiagnosisChatRequest → Option String → Call
  expire : String → Call

module _ (lib : Library) (settings : Settings) where
  unfoldable pub apply : Call → Store → Store
  apply (Call.create env p key) s = (create_session lib settings env p key s).1
  apply (Call.chat env p key) s = (diagnose lib settings env p key s).1
  apply (Call.expire session_id) s = record s { memory = remove session_id s.memory }

  unfoldable pub apply_all : List Call → Store → Store
  apply_all [] s = s
  apply_all (c ∷ cs) s = apply_all cs (apply c s)
