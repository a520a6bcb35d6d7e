-- ===== src/Sessions/Create/Rows.antt =====
-- The rows and the memory that `create_session` of src/energy_agent/agent/execution_service.py writes.
use energy_agent_diagnosis.Common.{ℕ, String, Option, none, some, [], string_eq}
use energy_agent_diagnosis.Agent.Workflow.{DiagnosisPhase}
use energy_agent_diagnosis.Guardrails.Decisions.{RiskLevel}
use energy_agent_diagnosis.Cases.Service.Requests.{Actor}
use energy_agent_diagnosis.Sessions.State.{DeviceDict, AlarmDict, SessionMemory}
use energy_agent_diagnosis.Sessions.Store.{DiagnosisSession, DiagnosisRun}
use energy_agent_diagnosis.Sessions.Requests.{CreateSessionRequest}

-- What a call meets: its trace and the ids that it draws, the time, and who calls.
pub record Environment : Type 0 where
  pub trace_id : String
  pub new_session : String
  pub new_run : String
  pub now : ℕ
  pub actor : Option Actor

-- `{...} or None`: the values that are given, if there is one.
abbrev pub device_dict : Option String → Option String → Option DeviceDict
device_dict none none = none
device_dict site device = some (record {
  site_id = site;
  device_id = device;
  device_type = none;
  device_model = none;
  manufacturer = none;
})

abbrev pub alarm_dict : Option String → Option String → Option AlarmDict
alarm_dict none none = none
alarm_dict id name = some (record { alarm_id = id; alarm_name = name; trigger_time = none })

abbrev pub session_of : CreateSessionRequest → Environment → DiagnosisSession
session_of p env = record {
  source = p.source;
  site_id = p.site_id;
  device_id = p.device_id;
  alarm_id = p.alarm_id;
  alarm_name = p.alarm_name;
  phase = DiagnosisPhase.init;
  final_summary = none;
  risk_level = RiskLevel.unknown;
  trace_id = env.trace_id;
  run_id = env.new_run;
  created_by = elim env.actor [ none ↦ none | some a ↦ some a.actor_id ];
}

abbrev pub first_run : Environment → Option String → String → DiagnosisRun
first_run env idempotency_key fingerprint = record {
  session_id = env.new_session;
  trace_id = env.trace_id;
  idempotency_key = idempotency_key;
  request_hash = fingerprint;
  phase = DiagnosisPhase.init;
  status = "initialized";
  parent_run_id = none;
  run_type = "session_init";
  diagnosis_template_id = none;
  diagnosis_template_version = none;
  alarm_category = none;
  guardrail_status = none;
  failure_category = none;
}

abbrev pub first_memory : CreateSessionRequest → Environment → SessionMemory
first_memory p env = record {
  session_id = env.new_session;
  phase = DiagnosisPhase.init;
  run_id = env.new_run;
  trace_id = env.trace_id;
  device_context = device_dict p.site_id p.device_id;
  alarm_context = alarm_dict p.alarm_id p.alarm_name;
  intent = none;
  diagnosis_template_id = none;
  diagnosis_template_version = none;
  alarm_category = none;
  plan = [];
  tool_summaries = [];
  evidence = [];
  evidence_refs = [];
  candidate_causes = [];
  clarification_questions = [];
  clarification_answers = [];
  final_result = none;
  degraded_components = [];
  prompt_version = "diag.response_generator.v1.0";
  final_summary = none;
  risk_level = RiskLevel.unknown;
  memory_revision = 1;
  parent_run_id = none;
  time_window = none;
  pending_question_ids = [];
  resolved_question_ids = [];
  user_feedback_history = [];
  evidence_package_ids = [];
  last_completed_node = none;
}
