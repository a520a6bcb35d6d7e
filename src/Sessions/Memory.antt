-- ===== src/Sessions/Memory.antt =====
-- What a run keeps in the memory of its session (`_memory_payload` of
-- src/energy_agent/agent/execution_service.py), how the next run starts from it, and how both are shown.
mod Payload
mod Shown
unfoldable pub use Payload.*
unfoldable pub use Shown.*
use energy_agent_diagnosis.Common.{
  ◌+◌, String, Option, none, some, true, false, not, List, [], ◌∷◌, ◌++◌, map, string_eq, keep,
  contains, truthy, truthy?, if◌then◌else◌,
}
use mathlib.Core.Option
use energy_agent_diagnosis.Common.Errors.{Outcome, ok, err, Error}
use energy_agent_diagnosis.Common.Table
use energy_agent_diagnosis.Agent.Workflow.{DiagnosisPhase}
use energy_agent_diagnosis.Guardrails.Decisions.{RiskLevel, sorted_set}
use energy_agent_diagnosis.Sessions.State.{
  DeviceContext, DeviceDict, AlarmContext, AlarmDict, ToolResultSummary, ToolDict, Evidence,
  ClarificationQuestion, UserFeedback, StructuredDiagnosisResult, DiagnosisState, SessionMemory,
}
use energy_agent_diagnosis.Sessions.Store.{
  DiagnosisSession, DiagnosisRun, ResultRow, Store, latest_run, latest_result,
}
use energy_agent_diagnosis.Sessions.Requests.{Library, DiagnosisChatRequest, DiagnosisResponse}

-- `DeviceContext.model_validate`, which requires the id.
abbrev pub load_device : DeviceDict → Outcome DeviceContext
load_device d = elim d.device_id as (λ _. Outcome DeviceContext) [
  | none ↦ err Error.validation_error
  | some id ↦ ok (record {
    site_id = d.site_id;
    device_id = id;
    device_type = d.device_type;
    device_model = d.device_model;
    manufacturer = d.manufacturer;
  })
]

-- `AlarmContext.model_validate`, which requires the id and the name.
abbrev pub named_alarm : AlarmDict → Option String → Option String → Outcome AlarmContext
named_alarm d (some id) (some name) =
    ok (record { alarm_id = id; alarm_name = name; trigger_time = d.trigger_time })
named_alarm d _ _ = err Error.validation_error

abbrev pub load_alarm : AlarmDict → Outcome AlarmContext
load_alarm d = named_alarm d d.alarm_id d.alarm_name

abbrev pub load_tool : ToolDict → ToolResultSummary
load_tool d = record {
  tool_name = or_default d.tool_name "";
  status = or_default d.status "OK";
  has_usable_data = or_default d.has_usable_data false;
  result_ref = d.result_ref;
  summary = d.summary;
}

-- The device of a run: the memory's, or else the session's.
abbrev pub session_device : DiagnosisSession → Option DeviceContext
session_device row = elim row.device_id as (λ _. Option DeviceContext) [
  | none ↦ none
  | some id ↦ elim (truthy? (some id)) as (λ _. Option DeviceContext) [
    | false ↦ none
    | true ↦ some (record {
      site_id = row.site_id;
      device_id = id;
      device_type = none;
      device_model = none;
      manufacturer = none;
    })
  ]
]

abbrev pub session_alarm : DiagnosisSession → Option AlarmContext
session_alarm row = elim row.alarm_id as (λ _. Option AlarmContext) [
  | none ↦ none
  | some id ↦ elim (truthy? (some id)) as (λ _. Option AlarmContext) [
    | false ↦ none
    | true ↦
        some
          (record { alarm_id = id; alarm_name = or_default row.alarm_name ""; trigger_time = none })
  ]
]

abbrev pub loaded {ℓ} : {A : Type ℓ} → Outcome A → Outcome (Option A)
loaded (ok a) = ok (some a)
loaded (err e) = err e

abbrev pub device_or : Option DeviceDict → DiagnosisSession → Outcome (Option DeviceContext)
device_or none row = ok (session_device row)
device_or (some d) row = loaded (load_device d)

abbrev pub alarm_or : Option AlarmDict → DiagnosisSession → Outcome (Option AlarmContext)
alarm_or none row = ok (session_alarm row)
alarm_or (some d) row = loaded (load_alarm d)

-- `memory.x if memory else ...`
abbrev pub of_memory {ℓ} : {A : Type ℓ} → Option SessionMemory → (SessionMemory → A) → A → A
of_memory none f a = a
of_memory (some m) f a = f m

-- The state that a run starts from, once its contexts are loaded.
abbrev pub start_state :
    DiagnosisSession
    → Option SessionMemory
    → DiagnosisChatRequest
    → String
    → String
    → String
    → Option DeviceContext
    → Option AlarmContext
    → DiagnosisState
start_state row memory p mode run_id trace_id device alarm = record {
  session_id = p.session_id;
  run_id = run_id;
  trace_id = trace_id;
  phase = DiagnosisPhase.init;
  source = row.source;
  user_message = some p.message;
  followup_mode = some mode;
  memory_revision = of_memory memory (λ m. m.memory_revision + 1) 1;
  parent_run_id = some (of_memory memory (λ m. m.run_id) row.run_id);
  intent = none;
  diagnosis_template_id = of_memory memory (λ m. m.diagnosis_template_id) none;
  diagnosis_template_version = of_memory memory (λ m. m.diagnosis_template_version) none;
  alarm_category = of_memory memory (λ m. m.alarm_category) none;
  template_route_basis = none;
  device_context = device;
  alarm_context = alarm;
  time_window = none;
  plan = of_memory memory (λ m. m.plan) [];
  tool_results = of_memory memory (λ m. map load_tool m.tool_summaries) [];
  evidence = of_memory memory (λ m. m.evidence) [];
  evidence_refs = of_memory memory (λ m. m.evidence_refs) [];
  candidate_causes = of_memory memory (λ m. m.candidate_causes) [];
  clarification_questions = [];
  user_feedback = of_memory memory (λ m. m.user_feedback_history) [] ++ p.clarification_answers;
  risk_level = RiskLevel.unknown;
  warnings = [];
  errors = [];
  degraded_components = of_memory memory (λ m. m.degraded_components) [];
  final_response = none;
  recommended_actions = [];
  guardrail_decision = none;
  prompt_version = "diag.response_generator.v1.0";
}

-- `initial` of `diagnose`
unfoldable pub initial_state :
    DiagnosisSession
    → Option SessionMemory
    → DiagnosisChatRequest
    → String
    → String
    → String
    → Outcome DiagnosisState
initial_state row memory p mode run_id trace_id =
    elim (device_or (of_memory memory (λ m. m.device_context) none) row)
      as (λ _. Outcome DiagnosisState) [
        | err e ↦ err e
        | ok device ↦
            elim (alarm_or (of_memory memory (λ m. m.alarm_context) none) row)
              as (λ _. Outcome DiagnosisState) [
                | err e ↦ err e
                | ok alarm ↦ ok (start_state row memory p mode run_id trace_id device alarm)
              ]
      ]
