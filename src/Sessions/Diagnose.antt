-- ===== src/Sessions/Diagnose.antt =====
-- `diagnose` of src/energy_agent/agent/execution_service.py. The graph is given as the calls that it makes and
-- its ending.
mod Events
mod Finish
mod Explain
unfoldable pub use Events.*
unfoldable pub use Finish.*
unfoldable pub use Explain.*
use Prim.Native.String.{◌++◌ as append}
use energy_agent_diagnosis.Common.{
  ℕ, String, Option, none, some, Bool, true, false, not, List, [], ◌∷◌, ◌==◌, string_eq, truthy?,
  if◌then◌else◌,
}
use mathlib.Core.Option
use energy_agent_diagnosis.Common.Errors.{Outcome, ok, err, Error}
use energy_agent_diagnosis.Common.Table
use energy_agent_diagnosis.Common.Table.{Table}
use energy_agent_diagnosis.Agent.Workflow.{DiagnosisPhase}
use energy_agent_diagnosis.Guardrails.Decisions.{GuardrailDecision}
use energy_agent_diagnosis.Persistence.Cases.{TimelineEvent, TimelineEventType}
use energy_agent_diagnosis.Cases.Service.Timeline.{event_of}
use energy_agent_diagnosis.Cases.Service.Requests.{Actor}
use energy_agent_diagnosis.Sessions.State.{
  DiagnosisState, DiagnosisIntent, ClarificationQuestion, UserFeedback, StructuredDiagnosisResult,
  SessionMemory, is_valid,
}
use energy_agent_diagnosis.Sessions.Store.{
  DiagnosisSession, DiagnosisRun, Store, update_session, phase_and_run, and_then, create_run,
  find_idempotent, latest_run, latest_result, modify_run, finished, hardened, save_memory,
  append_event,
}
use energy_agent_diagnosis.Sessions.Requests.{
  Library, Settings, DiagnosisChatRequest, DiagnosisResponse,
}
use energy_agent_diagnosis.Sessions.Memory.{
  memory_payload, initial_state, response_of, get_session, of_memory, evidence_ids,
}
use energy_agent_diagnosis.Sessions.Clarify.{check_answers}
use energy_agent_diagnosis.Sessions.Run.{Callback, Ending, RunIds, set_template, invoke}
use energy_agent_diagnosis.Sessions.Create.{audit_of}

abbrev pub default_mode : List UserFeedback → String
default_mode [] = "new_information"
default_mode (a ∷ answers) = "answer_clarification"

abbrev pub mode_of : DiagnosisChatRequest → String
mode_of p = elim p.followup_mode as (λ _. String) [
  | some mode ↦ if truthy? (some mode) then mode else default_mode p.clarification_answers
  | none ↦ default_mode p.clarification_answers
]

abbrev pub run_type_of : List UserFeedback → String
run_type_of [] = "diagnosis"
run_type_of (a ∷ answers) = "clarification"

-- A session that has failed, one that is completed, and any other.
abbrev pub by_phase {ℓ} : {A : Type ℓ} → DiagnosisPhase → A → A → A → A
by_phase DiagnosisPhase.failed f c o = f
by_phase DiagnosisPhase.completed f c o = c
by_phase _ f c o = o

module _ (lib : Library) (settings : Settings) (env : Environment) (p : DiagnosisChatRequest) where
  abbrev pub new_run_of : DiagnosisSession → Option SessionMemory → Option String → DiagnosisRun
  new_run_of row memory idempotency_key = record {
    session_id = p.session_id;
    trace_id = env.trace_id;
    idempotency_key = idempotency_key;
    request_hash = fingerprint lib settings env p;
    phase = DiagnosisPhase.init;
    status = "running";
    parent_run_id = some (of_memory memory (λ m. m.run_id) row.run_id);
    run_type = run_type_of p.clarification_answers;
    diagnosis_template_id = none;
    diagnosis_template_version = none;
    alarm_category = none;
    guardrail_status = none;
    failure_category = none;
  }

  -- The run is created and the session is set back before the state is built.
  unfoldable pub prepare :
      DiagnosisSession → Option SessionMemory → Option String → Store → Outcome (Unit {0}) × Store
  unfolding append_answers
  prepare row memory idempotency_key s =
      let created =
        create_run env.new_run (new_run_of row memory idempotency_key)
          (message_event lib settings env p) s in
      and_then (update_session p.session_id (phase_and_run DiagnosisPhase.init env.new_run) created)
        (λ s'. (
          ok tt,
          (if settings.has_timeline
              then append_answers lib settings env p p.clarification_answers s'
              else s'),
        ))

  abbrev pub run_graph :
      DiagnosisSession → DiagnosisState → Store → Outcome DiagnosisResponse × Store
  run_graph row initial s =
      let (callbacks, ending) = env.graph initial in
      on_ending lib settings env p row (invoke lib (ids lib settings env p) callbacks ending s)

  -- An error of the initial state is raised outside of the `try`.
  abbrev pub start_graph :
      DiagnosisSession
      → Outcome DiagnosisState
      → Outcome (Unit {0}) × Store
      → Outcome DiagnosisResponse × Store
  start_graph row initial (err e, s) = (err e, s)
  start_graph row (err e) (ok done, s) = (err e, s)
  start_graph row (ok st) (ok done, s) = run_graph row st s

  unfoldable pub execute :
      DiagnosisSession
      → Option SessionMemory
      → Option String
      → Store
      → Outcome DiagnosisResponse × Store
  unfolding prepare
  execute row memory idempotency_key s =
      start_graph row (initial_state row memory p (mode_of p) env.new_run env.trace_id)
        (prepare row memory idempotency_key s)

  abbrev pub checked_execute :
      Outcome (Unit {0})
      → DiagnosisSession
      → Option SessionMemory
      → Option String
      → Store
      → Outcome DiagnosisResponse × Store
  checked_execute (err e) row memory key s = (err e, s)
  checked_execute (ok done) row memory key s = execute row memory key s

  unfoldable pub start :
      DiagnosisSession → Option String → Store → Outcome DiagnosisResponse × Store
  unfolding execute
  start row key s =
      let memory = Table.get p.session_id s.memory in
      let started = checked_execute (check_answers lib.texts.strip p memory) row memory key s in
      by_phase row.phase (err Error.conflict, s)
        (if mode_of p == "explain_previous_result"
          then explain_previous lib settings env p memory key s
          else (err Error.conflict, s))
        started

  -- The run of an earlier call under the key; whether this call repeats it.
  abbrev pub replayed : Outcome (Option (String × DiagnosisRun)) → Outcome Bool
  replayed (err e) = err e
  replayed (ok none) = ok false
  replayed (ok (some (id, run))) =
      if run.request_hash == fingerprint lib settings env p
      then ok true
      else err Error.idempotency_conflict

  abbrev pub existing : Option String → Store → Outcome (Option (String × DiagnosisRun))
  existing none s = ok none
  existing (some key) s =
      if truthy? (some key) then find_idempotent p.session_id key s.runs else ok none

  unfoldable pub diagnose : Option String → Store → Outcome DiagnosisResponse × Store
  unfolding start
  diagnose key s =
      elim (Table.get p.session_id s.sessions) as (λ _. Outcome DiagnosisResponse × Store) [
        | none ↦ (err Error.resource_not_found, s)
        | some row ↦ elim (replayed (existing key s)) as (λ _. Outcome DiagnosisResponse × Store) [
          | err e ↦ (err e, s)
          | ok again ↦ if again then (get_session p.session_id s, s) else start row key s
        ]
      ]
