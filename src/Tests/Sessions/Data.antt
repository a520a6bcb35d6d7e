-- ===== src/Tests/Sessions/Data.antt =====
-- Sessions, requests and graphs for the tests of the diagnosis execution service.
use energy_agent_diagnosis.Common.{none, some, true, false, [], ◌∷◌}
use energy_agent_diagnosis.Agent.Workflow.{DiagnosisPhase}
use energy_agent_diagnosis.Guardrails.Decisions.{RiskLevel}
use energy_agent_diagnosis.Users.Models.{ActorRole}
use energy_agent_diagnosis.Sessions.State.{
  SessionSource, DeviceContext, ClarificationQuestion, UserFeedback, StructuredDiagnosisResult,
  DiagnosisState, SessionMemory,
}
use energy_agent_diagnosis.Sessions.Store.{DiagnosisSession, Store}
use energy_agent_diagnosis.Sessions.Requests.{
  Library, Settings, CreateSessionRequest, DiagnosisChatRequest,
}
use energy_agent_diagnosis.Sessions.Memory.{memory_payload, or_default}
use energy_agent_diagnosis.Sessions.Run.{Callback, Ending}
use energy_agent_diagnosis.Sessions.Create
use energy_agent_diagnosis.Sessions.Diagnose

-- Identities, with the device of a request for its serialisation.
abbrev pub library : Library
library = record {
  texts = record { before = λ a b. true; strip = λ s. s; startswith = λ s prefix. false };
  sha256 = λ s. s;
  dumps_create = λ operation p. or_default p.device_id "";
  dumps_chat = λ operation p. p.message;
  casefold = λ s. s;
  without_separators = λ s. s;
}

abbrev pub settings : Settings
settings = record {
  has_audit = true;
  has_timeline = true;
  has_alarm_dedup = true;
  window_seconds = 600;
}

abbrev pub empty : Store
empty = record {
  sessions = [];
  runs = [];
  results = [];
  step_logs = [];
  timeline = [];
  audit = [];
  memory = [];
  alarms = [];
}

abbrev pub inverter : DeviceContext
inverter = record {
  site_id = none;
  device_id = "device-1";
  device_type = none;
  device_model = none;
  manufacturer = none;
}

abbrev pub question : ClarificationQuestion
question = record {
  question_id = "q1";
  question = "When?";
  reason = "no time";
  expected_answer_type = "text";
}

abbrev pub answer : UserFeedback
answer = record { question_id = "q1"; answer = "today" }

-- A run that asks a question.
abbrev pub asking : DiagnosisState
asking = record {
  session_id = "s1";
  run_id = "r1";
  trace_id = "t1";
  phase = DiagnosisPhase.need_user_input;
  source = SessionSource.chat;
  user_message = some "hot";
  followup_mode = some "new_information";
  memory_revision = 2;
  parent_run_id = none;
  intent = none;
  diagnosis_template_id = some "template-1";
  diagnosis_template_version = some "1";
  alarm_category = none;
  template_route_basis = none;
  device_context = some inverter;
  alarm_context = none;
  time_window = none;
  plan = [];
  tool_results = [];
  evidence = record { evidence_id = "e1"; package_id = some "package-1"; content = "fan" } ∷ [];
  evidence_refs = "e1" ∷ [];
  candidate_causes = [];
  clarification_questions = question ∷ [];
  user_feedback = [];
  risk_level = RiskLevel.unknown;
  warnings = [];
  errors = [];
  degraded_components = [];
  final_response = none;
  recommended_actions = [];
  guardrail_decision = none;
  prompt_version = "diag.response_generator.v1.0";
}

abbrev pub asked : SessionMemory
asked = memory_payload library asking none

-- The step that the next run completes, with the answer.
abbrev pub planned : DiagnosisState
planned = record asking {
  run_id = "r2";
  phase = DiagnosisPhase.plan_ready;
  user_feedback = answer ∷ [];
}

abbrev pub result : StructuredDiagnosisResult
result = record {
  summary = "fan";
  candidate_causes = [];
  evidence = [];
  inspection_steps = [];
  safety_notes = [];
  missing_information = [];
  recommend_ticket = false;
  risk_level = RiskLevel.low;
  warnings = [];
  degraded_components = [];
  recommended_actions = [];
  guardrail_decision = none;
}

abbrev pub completed : DiagnosisState
completed = record planned { phase = DiagnosisPhase.completed; final_response = some result }

abbrev pub session : DiagnosisSession
session = record {
  source = SessionSource.chat;
  site_id = none;
  device_id = some "device-1";
  alarm_id = none;
  alarm_name = none;
  phase = DiagnosisPhase.need_user_input;
  final_summary = none;
  risk_level = RiskLevel.unknown;
  trace_id = "t1";
  run_id = "r1";
  created_by = none;
}

abbrev pub waiting : Store
waiting = record empty { sessions = ("s1", session) ∷ []; memory = ("s1", asked) ∷ [] }

abbrev pub reply : DiagnosisChatRequest
reply = record {
  session_id = "s1";
  message = "again";
  clarification_answers = answer ∷ [];
  expected_memory_revision = none;
  followup_mode = none;
}

abbrev pub with_ending : Ending → Diagnose.Environment
with_ending ending = record {
  trace_id = "t2";
  new_run = "r2";
  actor = none;
  graph = λ st. (Callback.step st "planner" planned ∷ [], ending);
}

abbrev pub request : CreateSessionRequest
request = record {
  source = SessionSource.alarm;
  site_id = some "site-1";
  device_id = some "device-1";
  alarm_id = some "alarm-1";
  alarm_name = some "over-temperature";
}

abbrev pub creation : Create.Environment
creation = record {
  trace_id = "t1";
  new_session = "s2";
  new_run = "r3";
  now = 0;
  actor = some (record { actor_id = "alice"; actor_role = ActorRole.operator });
}
