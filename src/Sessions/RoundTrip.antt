-- ===== src/Sessions/RoundTrip.antt =====
-- What the memory of src/energy_agent/agent/execution_service.py gives back to the next run.
use energy_agent_diagnosis.Common.{
  ◌+◌, String, Option, none, some, List, [], ◌∷◌, ◌++◌, ◌≡◌, refl, map, arith, ◌∙◌,
}
use mathlib.Core.Option
use energy_agent_diagnosis.Common.Errors.{ok}
use energy_agent_diagnosis.Agent.Workflow.{DiagnosisPhase}
use energy_agent_diagnosis.Guardrails.Decisions.{RiskLevel}
use energy_agent_diagnosis.Sessions.State.{
  DeviceContext, AlarmContext, ToolResultSummary, StructuredDiagnosisResult, DiagnosisState,
  SessionMemory,
}
use energy_agent_diagnosis.Sessions.Store.{DiagnosisSession}
use energy_agent_diagnosis.Sessions.Requests.{Library, DiagnosisChatRequest}
use energy_agent_diagnosis.Sessions.Memory.{
  dump_tool, load_tool, dump_device, dump_alarm, session_device, session_alarm, memory_payload,
  initial_state, start_state, device_or, alarm_or,
}

abbrev pub or_else {ℓ} : {A : Type ℓ} → Option A → Option A → Option A
or_else none o = o
or_else (some a) o = some a

load_tool-dump_tool : (rs : List ToolResultSummary) → map load_tool (map dump_tool rs) ≡ rs
load_tool-dump_tool [] = refl
load_tool-dump_tool (r ∷ rs) = ground (arith, load_tool-dump_tool rs)

device_or-dump_device :
    (c : Option DeviceContext) (row : DiagnosisSession)
    → device_or (Option.map dump_device c) row ≡ ok (or_else c (session_device row))
device_or-dump_device none row = refl
device_or-dump_device (some c) row = refl

alarm_or-dump_alarm :
    (c : Option AlarmContext) (row : DiagnosisSession)
    → alarm_or (Option.map dump_alarm c) row ≡ ok (or_else c (session_alarm row))
alarm_or-dump_alarm none row = refl
alarm_or-dump_alarm (some c) row = refl

initial_state-ok :
    (row : DiagnosisSession) (m : SessionMemory) (p : DiagnosisChatRequest)
    (mode run_id trace_id : String) (device : Option DeviceContext) (alarm : Option AlarmContext)
    → device_or m.device_context row ≡ ok device
    → alarm_or m.alarm_context row ≡ ok alarm
    → initial_state row (some m) p mode run_id trace_id
      ≡ ok (start_state row (some m) p mode run_id trace_id device alarm)
unfolding initial_state
initial_state-ok row m p mode run_id trace_id device alarm d a = rw (initial_state, d, a) refl

-- A run that starts from the memory of an earlier one starts from the state that was saved: the plan, the
-- tool results, the evidence, the causes, the template and the degraded components are those of the saved
-- state, its device and alarm too (or the session's, where it had none), and its feedback is followed by
-- the new answers. The revision is the next one and the parent is the earlier run; the phase, the message,
-- the intent, the time window, the questions, the risk, the warnings and errors, the response, the actions
-- and the decision of the guardrails start afresh.
pub initial_state-memory_payload :
    (lib : Library) (row : DiagnosisSession) (st : DiagnosisState)
    (result : Option StructuredDiagnosisResult) (p : DiagnosisChatRequest)
    (mode run_id trace_id : String)
    → initial_state row (some (memory_payload lib st result)) p mode run_id trace_id
      ≡ ok (record st {
        session_id = p.session_id;
        run_id = run_id;
        trace_id = trace_id;
        phase = DiagnosisPhase.init;
        source = row.source;
        user_message = some p.message;
        followup_mode = some mode;
        memory_revision = st.memory_revision + 1;
        parent_run_id = some st.run_id;
        intent = none;
        template_route_basis = none;
        device_context = or_else st.device_context (session_device row);
        alarm_context = or_else st.alarm_context (session_alarm row);
        time_window = none;
        clarification_questions = [];
        user_feedback = st.user_feedback ++ p.clarification_answers;
        risk_level = RiskLevel.unknown;
        warnings = [];
        errors = [];
        final_response = none;
        recommended_actions = [];
        guardrail_decision = none;
        prompt_version = "diag.response_generator.v1.0";
      })
unfolding memory_payload
initial_state-memory_payload lib row st result p mode run_id trace_id =
    initial_state-ok row (memory_payload lib st result) p mode run_id trace_id
      (or_else st.device_context (session_device row))
      (or_else st.alarm_context (session_alarm row)) (device_or-dump_device st.device_context row)
      (alarm_or-dump_alarm st.alarm_context row)
    ∙ rw (load_tool-dump_tool st.tool_results) refl
