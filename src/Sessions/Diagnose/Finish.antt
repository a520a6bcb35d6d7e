-- ===== src/Sessions/Diagnose/Finish.antt =====
-- The end of a run in `diagnose` of src/energy_agent/agent/execution_service.py, by the way the graph ended.
use energy_agent_diagnosis.Common.{
  String, Option, none, some, Bool, true, false, not, List, [], ◌∷◌, string_eq, if◌then◌else◌,
}
use mathlib.Core.Option
use energy_agent_diagnosis.Common.Errors.{Outcome, ok, err, Error}
use energy_agent_diagnosis.Agent.Workflow.{DiagnosisPhase}
use energy_agent_diagnosis.Guardrails.Decisions.{GuardrailDecision}
use energy_agent_diagnosis.Sessions.State.{
  DiagnosisState, UserFeedback, StructuredDiagnosisResult, is_valid,
}
use energy_agent_diagnosis.Sessions.Store.{
  DiagnosisSession, Store, update_session, phase_and_run, and_then, modify_run, finished, hardened,
  save_memory,
}
use energy_agent_diagnosis.Sessions.Requests.{
  Library, Settings, DiagnosisChatRequest, DiagnosisResponse,
}
use energy_agent_diagnosis.Sessions.Memory.{memory_payload, response_of}
use energy_agent_diagnosis.Sessions.Run.{Ending, set_template}
use energy_agent_diagnosis.Sessions.Create.{audit_of}
use energy_agent_diagnosis.Sessions.Diagnose.Events.{Environment, append_questions, append_result}

abbrev pub is_completed : DiagnosisPhase → Bool
is_completed DiagnosisPhase.completed = true
is_completed _ = false

abbrev pub with_result : Option StructuredDiagnosisResult → DiagnosisSession → DiagnosisSession
with_result none row = row
with_result (some r) row = record row { final_summary = some r.summary; risk_level = r.risk_level }

-- The error of a handler that raises, or else the one that it handles.
abbrev pub raise_after : {A : Type 0} → Error → Outcome (Unit {0}) × Store → Outcome A × Store
raise_after e (ok done, s) = (err e, s)
raise_after e (err e', s) = (err e', s)

module _ (lib : Library) (settings : Settings) (env : Environment) (p : DiagnosisChatRequest) where
  abbrev pub guardrail_of : DiagnosisState → Option GuardrailDecision
  guardrail_of st = st.guardrail_decision

  -- How the run is closed: its phase, its status, and what set_hardening_outcome writes.
  abbrev pub close_run :
      DiagnosisPhase → String → Option GuardrailDecision → Option String → Store → Store
  close_run phase status decision category s =
      modify_run env.new_run
        (hardened (Option.map (λ (d : GuardrailDecision). d.status) decision) category)
        (modify_run env.new_run (finished phase status) s)

  -- `except asyncio.CancelledError`, shielded.
  unfoldable pub on_cancelled : DiagnosisSession → Store → Outcome DiagnosisResponse × Store
  on_cancelled row s = raise_after Error.cancelled (
      update_session p.session_id (phase_and_run row.phase row.run_id)
        (close_run row.phase "cancelled" none (some "stream_disconnected") s))

  -- `except Exception`
  unfoldable pub on_raised : Error → Store → Outcome DiagnosisResponse × Store
  on_raised e s = raise_after e (
      update_session p.session_id (phase_and_run DiagnosisPhase.failed env.new_run)
        (close_run DiagnosisPhase.failed "failed" none (some "workflow_exception") s))

  abbrev pub audit_answers : List UserFeedback → Store → Store
  audit_answers [] s = s
  audit_answers (a ∷ answers) s =
      audit_of settings env.actor "clarification.submitted" p.session_id env.trace_id s

  abbrev pub status_of : DiagnosisPhase → String
  status_of phase = if is_completed phase then "completed" else "waiting_input"

  abbrev pub record_outcome : DiagnosisState → Option StructuredDiagnosisResult → Store → Store
  record_outcome st result s =
      let saved = save_memory (memory_payload lib st result) s in
      let shown =
        if settings.has_timeline
        then append_result lib settings env p st.session_id result
            (append_questions lib settings env p st.session_id st.clarification_questions saved)
        else saved in
      audit_answers p.clarification_answers shown

  -- After the graph has ended; its output is validated outside of the `try`.
  unfoldable pub on_finished : DiagnosisState → Store → Outcome DiagnosisResponse × Store
  unfolding append_questions
  on_finished st s =
      let templated = set_template (record st { run_id = env.new_run }) s in
      let closed = close_run st.phase (status_of st.phase) (guardrail_of st) none templated in
      let updated =
        update_session p.session_id
          (λ row. with_result st.final_response (phase_and_run st.phase env.new_run row)) closed in
      if not (is_valid st)
      then (err Error.validation_error, s)
      else and_then updated
          (λ s'. (ok (response_of st st.final_response), record_outcome st st.final_response s'))

  abbrev pub on_ending : DiagnosisSession → Ending × Store → Outcome DiagnosisResponse × Store
  on_ending row (Ending.finished_with st, s) = on_finished st s
  on_ending row (Ending.cancelled, s) = on_cancelled row s
  on_ending row (Ending.raised e, s) = on_raised e s
