-- ===== src/Sessions/Run.antt =====
-- A run of the diagnosis graph as `diagnose` of src/energy_agent/agent/execution_service.py meets it: the
-- calls of `log_step`, `log_tool` and `write_memory` that the graph makes, in their order, and how it ends.
use Prim.Native.String.{◌++◌ as append}
use energy_agent_diagnosis.Common.{
  String, Option, none, some, not, List, [], ◌∷◌, truthy?, if◌then◌else◌,
}
use energy_agent_diagnosis.Common.Errors.{Outcome, ok, err, Error}
use energy_agent_diagnosis.Sessions.State.{DiagnosisState, is_valid}
use energy_agent_diagnosis.Sessions.Store.{
  StepLog, Store, update_session, phase_and_run, and_then, modify_run, templated, upsert_result,
  log, save_memory,
}
use energy_agent_diagnosis.Sessions.Memory.{memory_payload}
use energy_agent_diagnosis.Sessions.Requests.{Library}

-- What the graph calls. A step has its state, its name, and the state with its output, or the name of the
-- exception that its node raised, or neither.
pub data Callback : Type 0 where
  step : DiagnosisState → String → DiagnosisState → Callback
  step_failed : DiagnosisState → String → String → Callback
  step_empty : DiagnosisState → String → Callback
  tool : String → String → Option String → Callback
  written : DiagnosisState → Callback

-- The output of the graph, a cancellation, or an exception.
pub data Ending : Type 0 where
  finished_with : DiagnosisState → Ending
  cancelled : Ending
  raised : Error → Ending

abbrev pub step_log : DiagnosisState → String → String → Option String → StepLog
step_log s name status error_code = record {
  session_id = s.session_id;
  run_id = s.run_id;
  trace_id = s.trace_id;
  step_name = append "agent." name;
  step_status = status;
  error_code = error_code;
}

abbrev pub set_template : DiagnosisState → Store → Store
set_template st s =
    modify_run st.run_id
      (templated st.diagnosis_template_id st.diagnosis_template_version st.alarm_category) s

-- The memory of a step that was completed.
abbrev pub step_memory : Library → String → DiagnosisState → Store → Store
step_memory lib name progress s =
    save_memory (record (memory_payload lib progress none) { last_completed_node = some name }) s

-- `log_step` after a step without an error; the state with the output is validated.
unfoldable pub log_step :
    Library → DiagnosisState → String → DiagnosisState → Store → Outcome (Unit {0}) × Store
log_step lib st name progress s =
    let logged = log (step_log st name "OK" none) s in
    let routed =
      if truthy? progress.diagnosis_template_id then set_template progress logged else logged in
    let updated =
      update_session progress.session_id (phase_and_run progress.phase progress.run_id) routed in
    if not (is_valid progress)
    then (err Error.validation_error, logged)
    else and_then updated (λ s'. (ok tt, step_memory lib name progress s'))

-- `write_memory`
unfoldable pub write_memory : DiagnosisState → Store → Store
write_memory st s = elim st.final_response as (λ _. Store) [
  | none ↦ s
  | some result ↦ upsert_result st.run_id (record { session_id = st.session_id; result = result }) s
]

-- The session, the run and the trace of a call of `diagnose`.
pub record RunIds : Type 0 where
  pub session_id : String
  pub run_id : String
  pub trace_id : String

abbrev pub tool_log : RunIds → String → String → Option String → StepLog
tool_log ids name status error_code = record {
  session_id = ids.session_id;
  run_id = ids.run_id;
  trace_id = ids.trace_id;
  step_name = append "tool." name;
  step_status = status;
  error_code = error_code;
}

module _ (lib : Library) (ids : RunIds) where
  unfoldable pub call_back : Callback → Store → Outcome (Unit {0}) × Store
  unfolding log_step write_memory
  call_back (Callback.step st name progress) s = log_step lib st name progress s
  call_back (Callback.step_failed st name error) s =
      (ok tt, log (step_log st name "FAILED" (some error)) s)
  call_back (Callback.step_empty st name) s = (ok tt, log (step_log st name "OK" none) s)
  call_back (Callback.tool name status error_code) s =
      (ok tt, log (tool_log ids name status error_code) s)
  call_back (Callback.written st) s = (ok tt, write_memory st s)

  -- The calls up to the first that raises.
  unfoldable pub call_all : List Callback → Store → Outcome (Unit {0}) × Store
  call_all [] s = (ok tt, s)
  call_all (c ∷ cs) s = and_then (call_back c s) (λ s'. call_all cs s')

  -- `graph.ainvoke`: an exception of a call ends the run.
  abbrev pub ended : Ending → Outcome (Unit {0}) × Store → Ending × Store
  ended ending (err e, s) = (Ending.raised e, s)
  ended ending (ok done, s) = (ending, s)

  unfoldable pub invoke : List Callback → Ending → Store → Ending × Store
  unfolding call_all
  invoke cs ending s = ended ending (call_all cs s)
