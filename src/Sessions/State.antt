-- ===== src/Sessions/State.antt =====
-- The state of a diagnosis (src/energy_agent/agent/state.py), what a session keeps of it between runs
-- (`SessionMemoryPayload` of contracts/diagnosis.py), and its result. Of a piece of evidence the service
-- reads two fields; `content` stands for the others, which it passes on. A final response is one that its
-- contract admits.
use energy_agent_diagnosis.Common.{ℕ, String, Option, Bool, true, not, List, is_some}
use energy_agent_diagnosis.Agent.Workflow.{DiagnosisPhase}
use energy_agent_diagnosis.Guardrails.Decisions.{
  RiskLevel, CandidateCause, PlanStep, RecommendedAction, GuardrailDecision, is_empty,
}

pub data SessionSource : Type 0 where
  alarm chat : SessionSource

pub data DiagnosisIntent : Type 0 where
  fault_diagnosis knowledge_qa history_ticket_query followup_clarification : DiagnosisIntent

pub record DeviceContext : Type 0 where
  pub site_id : Option String
  pub device_id : String
  pub device_type : Option String
  pub device_model : Option String
  pub manufacturer : Option String

pub record AlarmContext : Type 0 where
  pub alarm_id : String
  pub alarm_name : String
  pub trigger_time : Option ℕ

pub record TimeWindow : Type 0 where
  pub start_time : ℕ
  pub end_time : ℕ

-- A dictionary of a device or of an alarm: a key that is missing or null is none.
pub record DeviceDict : Type 0 where
  pub site_id : Option String
  pub device_id : Option String
  pub device_type : Option String
  pub device_model : Option String
  pub manufacturer : Option String

pub record AlarmDict : Type 0 where
  pub alarm_id : Option String
  pub alarm_name : Option String
  pub trigger_time : Option ℕ

pub record ToolResultSummary : Type 0 where
  pub tool_name : String
  pub status : String
  pub has_usable_data : Bool
  pub result_ref : Option String
  pub summary : Option String

-- The dictionary of a summary.
pub record ToolDict : Type 0 where
  pub tool_name : Option String
  pub status : Option String
  pub has_usable_data : Option Bool
  pub result_ref : Option String
  pub summary : Option String

pub record Evidence : Type 0 where
  pub evidence_id : String
  pub package_id : Option String
  pub content : String

pub record ClarificationQuestion : Type 0 where
  pub question_id : String
  pub question : String
  pub reason : String
  pub expected_answer_type : String

-- `UserFeedback` and `ClarificationAnswer`, which have the same fields.
pub record UserFeedback : Type 0 where
  pub question_id : String
  pub answer : String

pub record StructuredDiagnosisResult : Type 0 where
  pub summary : String
  pub candidate_causes : List CandidateCause
  pub evidence : List Evidence
  pub inspection_steps : List String
  pub safety_notes : List String
  pub missing_information : List String
  pub recommend_ticket : Bool
  pub risk_level : RiskLevel
  pub warnings : List String
  pub degraded_components : List String
  pub recommended_actions : List RecommendedAction
  pub guardrail_decision : Option GuardrailDecision

pub record DiagnosisState : Type 0 where
  pub session_id : String
  pub run_id : String
  pub trace_id : String
  pub phase : DiagnosisPhase
  pub source : SessionSource
  pub user_message : Option String
  pub followup_mode : Option String
  pub memory_revision : ℕ
  pub parent_run_id : Option String
  pub intent : Option DiagnosisIntent
  pub diagnosis_template_id : Option String
  pub diagnosis_template_version : Option String
  pub alarm_category : Option String
  pub template_route_basis : Option String
  pub device_context : Option DeviceContext
  pub alarm_context : Option AlarmContext
  pub time_window : Option TimeWindow
  pub plan : List PlanStep
  pub tool_results : List ToolResultSummary
  pub evidence : List Evidence
  pub evidence_refs : List String
  pub candidate_causes : List CandidateCause
  pub clarification_questions : List ClarificationQuestion
  pub user_feedback : List UserFeedback
  pub risk_level : RiskLevel
  pub warnings : List String
  pub errors : List String
  pub degraded_components : List String
  pub final_response : Option StructuredDiagnosisResult
  pub recommended_actions : List RecommendedAction
  pub guardrail_decision : Option GuardrailDecision
  pub prompt_version : String

-- `validate_phase_requirements`: whether it raises nothing.
abbrev pub is_valid_phase : DiagnosisPhase → DiagnosisState → Bool
is_valid_phase DiagnosisPhase.need_user_input s = not (is_empty s.clarification_questions)
is_valid_phase DiagnosisPhase.completed s = is_some s.final_response
is_valid_phase _ s = true

-- `DiagnosisState.model_validate`
abbrev pub is_valid : DiagnosisState → Bool
is_valid s = is_valid_phase s.phase s

pub record SessionMemory : Type 0 where
  pub session_id : String
  pub phase : DiagnosisPhase
  pub run_id : String
  pub trace_id : String
  pub device_context : Option DeviceDict
  pub alarm_context : Option AlarmDict
  pub intent : Option DiagnosisIntent
  pub diagnosis_template_id : Option String
  pub diagnosis_template_version : Option String
  pub alarm_category : Option String
  pub plan : List PlanStep
  pub tool_summaries : List ToolDict
  pub evidence : List Evidence
  pub evidence_refs : List String
  pub candidate_causes : List CandidateCause
  pub clarification_questions : List ClarificationQuestion
  pub clarification_answers : List UserFeedback
  pub final_result : Option StructuredDiagnosisResult
  pub degraded_components : List String
  pub prompt_version : String
  pub final_summary : Option String
  pub risk_level : RiskLevel
  pub memory_revision : ℕ
  pub parent_run_id : Option String
  pub time_window : Option TimeWindow
  pub pending_question_ids : List String
  pub resolved_question_ids : List String
  pub user_feedback_history : List UserFeedback
  pub evidence_package_ids : List String
  pub last_completed_node : Option String
