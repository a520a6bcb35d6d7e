-- ===== src/Sessions/Requests.antt =====
-- What the calls of src/energy_agent/agent/execution_service.py are given and give (contracts/diagnosis.py).
-- Serialisation, the hash and the treatment of Unicode are fields of `Library`, with those of `texts`.
use energy_agent_diagnosis.Common.{ℕ, String, Option, Bool, List}
use energy_agent_diagnosis.Agent.Workflow.{DiagnosisPhase}
use energy_agent_diagnosis.Guardrails.Decisions as Texts
use energy_agent_diagnosis.Sessions.State.{
  SessionSource, DiagnosisIntent, Evidence, ClarificationQuestion, UserFeedback, ToolDict,
  StructuredDiagnosisResult,
}

-- `validate_alarm_source`, which asks an alarm for its device and its id, refuses a request before the call; the
-- model takes any request, so that what holds of all of them holds of those that are let through.
pub record CreateSessionRequest : Type 0 where
  pub source : SessionSource
  pub site_id : Option String
  pub device_id : Option String
  pub alarm_id : Option String
  pub alarm_name : Option String

pub record CreateSessionResponse : Type 0 where
  pub session_id : String
  pub run_id : String
  pub phase : DiagnosisPhase
  pub trace_id : String
  pub merged : Bool
  pub duplicate_count : ℕ

pub record DiagnosisChatRequest : Type 0 where
  pub session_id : String
  pub message : String
  pub clarification_answers : List UserFeedback
  pub expected_memory_revision : Option ℕ
  pub followup_mode : Option String

pub record DiagnosisResponse : Type 0 where
  pub session_id : String
  pub run_id : String
  pub trace_id : String
  pub phase : DiagnosisPhase
  pub intent : Option DiagnosisIntent
  pub result : Option StructuredDiagnosisResult
  pub evidence : List Evidence
  pub evidence_refs : List String
  pub tool_summaries : List ToolDict
  pub clarification_questions : List ClarificationQuestion
  pub degraded_components : List String
  pub memory_revision : Option ℕ

pub record Library : Type 0 where
  pub texts : Texts.Library
  pub sha256 : String → String
  pub dumps_create : String → CreateSessionRequest → String
  pub dumps_chat : String → DiagnosisChatRequest → String
  pub casefold : String → String
  pub without_separators : String → String

-- Which of the optional collaborators the service has, and the window of the alarms.
pub record Settings : Type 0 where
  pub has_audit : Bool
  pub has_timeline : Bool
  pub has_alarm_dedup : Bool
  pub window_seconds : ℕ
