-- ===== src/Sessions/Memory/Payload.antt =====
-- `_memory_payload` of src/energy_agent/agent/execution_service.py.
use energy_agent_diagnosis.Common.{
  String, Option, none, some, not, List, [], ◌∷◌, map, string_eq, keep, contains, truthy,
  if◌then◌else◌,
}
use mathlib.Core.Option
use energy_agent_diagnosis.Agent.Workflow.{DiagnosisPhase}
use energy_agent_diagnosis.Guardrails.Decisions.{sorted_set}
use energy_agent_diagnosis.Sessions.State.{
  DeviceContext, DeviceDict, AlarmContext, AlarmDict, ToolResultSummary, ToolDict, Evidence,
  ClarificationQuestion, UserFeedback, StructuredDiagnosisResult, DiagnosisState, SessionMemory,
}
use energy_agent_diagnosis.Sessions.Requests.{Library}

-- `model_dump`
abbrev pub dump_device : DeviceContext → DeviceDict
dump_device c = record {
  site_id = c.site_id;
  device_id = some c.device_id;
  device_type = c.device_type;
  device_model = c.device_model;
  manufacturer = c.manufacturer;
}

abbrev pub dump_alarm : AlarmContext → AlarmDict
dump_alarm c = record {
  alarm_id = some c.alarm_id;
  alarm_name = some c.alarm_name;
  trigger_time = c.trigger_time;
}

abbrev pub dump_tool : ToolResultSummary → ToolDict
dump_tool r = record {
  tool_name = some r.tool_name;
  status = some r.status;
  has_usable_data = some r.has_usable_data;
  result_ref = r.result_ref;
  summary = r.summary;
}

abbrev pub or_default {ℓ} : {A : Type ℓ} → Option A → A → A
or_default none a = a
or_default (some b) a = b

abbrev pub question_ids : List ClarificationQuestion → List String
question_ids qs = map (λ q. q.question_id) qs

abbrev pub answered_ids : List UserFeedback → List String
answered_ids fs = map (λ f. f.question_id) fs

unfoldable pub package_ids : List Evidence → List String
package_ids [] = []
package_ids (e ∷ es) = elim e.package_id as (λ _. List String) [
  | none ↦ package_ids es
  | some id ↦ let rest = package_ids es in if truthy id then id ∷ rest else rest
]

abbrev pub node_of : DiagnosisPhase → String
node_of DiagnosisPhase.completed = "memory_writer"
node_of _ = "clarification_generator"

-- `_memory_payload`
unfoldable pub memory_payload :
    Library → DiagnosisState → Option StructuredDiagnosisResult → SessionMemory
memory_payload lib s result = record {
  session_id = s.session_id;
  phase = s.phase;
  run_id = s.run_id;
  trace_id = s.trace_id;
  device_context = Option.map dump_device s.device_context;
  alarm_context = Option.map dump_alarm s.alarm_context;
  intent = s.intent;
  diagnosis_template_id = s.diagnosis_template_id;
  diagnosis_template_version = s.diagnosis_template_version;
  alarm_category = s.alarm_category;
  plan = s.plan;
  tool_summaries = map dump_tool s.tool_results;
  evidence = s.evidence;
  evidence_refs = s.evidence_refs;
  candidate_causes = s.candidate_causes;
  clarification_questions = s.clarification_questions;
  clarification_answers = s.user_feedback;
  final_result = result;
  degraded_components = s.degraded_components;
  prompt_version = s.prompt_version;
  final_summary = Option.map (λ (r : StructuredDiagnosisResult). r.summary) result;
  risk_level =
      or_default (Option.map (λ (r : StructuredDiagnosisResult). r.risk_level) result) s.risk_level;
  memory_revision = s.memory_revision;
  parent_run_id = s.parent_run_id;
  time_window = s.time_window;
  pending_question_ids =
      keep (λ id. not (contains (answered_ids s.user_feedback) id))
        (question_ids s.clarification_questions);
  resolved_question_ids = answered_ids s.user_feedback;
  user_feedback_history = s.user_feedback;
  evidence_package_ids = sorted_set lib.texts (package_ids s.evidence);
  last_completed_node = some (node_of s.phase);
}
