-- ===== src/Sessions/Endings.antt =====
-- What `diagnose` of src/energy_agent/agent/execution_service.py makes of a session, by the way its run ends.
use energy_agent_diagnosis.Common.{
  String, Option, none, some, true, false, List, [], ◌∷◌, ◌≡◌, refl, sym, ap, ◌∙◌, arith, Every,
}
use mathlib.Core.Path.{subst}
use energy_agent_diagnosis.Common.Errors.{Outcome, ok, Error}
use energy_agent_diagnosis.Common.Table
use energy_agent_diagnosis.Common.Table.{Table, get-modify_self}
use energy_agent_diagnosis.Agent.Workflow.{DiagnosisPhase}
use energy_agent_diagnosis.Sessions.State.{
  DiagnosisState, ClarificationQuestion, StructuredDiagnosisResult, is_valid,
}
use energy_agent_diagnosis.Sessions.Store.{
  DiagnosisSession, Store, update_session-ok, phase_and_run, save_memory,
}
use energy_agent_diagnosis.Sessions.Requests.{
  Library, Settings, DiagnosisChatRequest, DiagnosisResponse,
}
use energy_agent_diagnosis.Sessions.Memory.{initial_state, memory_payload}
use energy_agent_diagnosis.Sessions.Clarify.{check_answers}
use energy_agent_diagnosis.Sessions.Run.{
  Ending, set_template, finished_with, cancelled, raised, invoke,
}
use energy_agent_diagnosis.Sessions.Diagnose.{
  Environment, ids, diagnose, mode_of, replayed, existing, on_ending, on_cancelled, on_raised,
  on_finished, status_of, close_run, with_result, append_questions, record_outcome,
}
use energy_agent_diagnosis.Sessions.Prepare.{
  IsOpen, prepared, diagnose-on_ending, prepared_sessions,
}
use energy_agent_diagnosis.Sessions.Touches.{
  Touches, untouched, touched, Touches-some, OfSession, Leaves-Touches, invoke-Leaves,
  invoke-finished,
}

-- The session after a run: as it was, where the run was cancelled; failed with the run, where it raised;
-- in the phase of the graph's output with the run, where the graph ended.
pub data SessionAfter (row : DiagnosisSession) (run_id : String)
    : Ending → DiagnosisSession → Type 0 where
  restored :
      (row' : DiagnosisSession)
      → row'.phase ≡ row.phase
      → row'.run_id ≡ row.run_id
      → SessionAfter row run_id cancelled row'
  failed :
      (row' : DiagnosisSession) (e : Error)
      → row'.phase ≡ DiagnosisPhase.failed
      → row'.run_id ≡ run_id
      → SessionAfter row run_id (raised e) row'
  ended :
      (row' : DiagnosisSession) (st : DiagnosisState)
      → row'.phase ≡ st.phase
      → row'.run_id ≡ run_id
      → SessionAfter row run_id (finished_with st) row'

with_result_phase :
    (r : Option StructuredDiagnosisResult) (row : DiagnosisSession)
    → ((with_result r row).phase ≡ row.phase) × ((with_result r row).run_id ≡ row.run_id)
with_result_phase none row = (refl, refl)
with_result_phase (some r) row = (refl, refl)

module _ (lib : Library) (settings : Settings) (env : Environment) (p : DiagnosisChatRequest) where
  abbrev After : DiagnosisSession → Ending → Outcome DiagnosisResponse × Store → Type 0
  After row ending r =
      (row' : DiagnosisSession) × (Table.get p.session_id r.1.sessions ≡ some row')
      × SessionAfter row env.new_run ending row'

  append_questions_sessions :
      (session_id : String) (qs : List ClarificationQuestion) (s : Store)
      → (append_questions lib settings env p session_id qs s).sessions ≡ s.sessions
  unfolding append_questions
  append_questions_sessions session_id [] s = refl
  append_questions_sessions session_id (q ∷ qs) s = append_questions_sessions session_id qs _

  pub record_outcome_sessions :
      (st : DiagnosisState) (result : Option StructuredDiagnosisResult) (s : Store)
      → (record_outcome lib settings env p st result s).sessions ≡ s.sessions
  record_outcome_sessions st result s = ground (
    arith,
    append_questions_sessions st.session_id st.clarification_questions
        (save_memory (memory_payload lib st result) s),
  )

  module _ (row : DiagnosisSession) (s : Store) (last : DiagnosisSession)
      (at : Table.get p.session_id s.sessions ≡ some last) where
    on_cancelled-After : After row cancelled (on_cancelled lib settings env p row s)
    unfolding on_cancelled
    on_cancelled-After =
        let f = phase_and_run row.phase row.run_id in
        let closed =
          close_run lib settings env p row.phase "cancelled" none (some "stream_disconnected") s in
        rw (on_cancelled, update_session-ok p.session_id f closed last at)
          (
            f last,
            get-modify_self p.session_id f s.sessions last at,
            SessionAfter.restored (f last) refl refl,
          )

    on_raised-After : (e : Error) → After row (raised e) (on_raised lib settings env p e s)
    unfolding on_raised
    on_raised-After e =
        let f = phase_and_run DiagnosisPhase.failed env.new_run in
        let closed =
          close_run lib settings env p DiagnosisPhase.failed "failed" none
            (some "workflow_exception") s in
        rw (on_raised, update_session-ok p.session_id f closed last at)
          (
            f last,
            get-modify_self p.session_id f s.sessions last at,
            SessionAfter.failed (f last) e refl refl,
          )

    on_finished-After :
        (st : DiagnosisState)
        → is_valid st ≡ true
        → After row (finished_with st) (on_finished lib settings env p st s)
    unfolding on_finished
    on_finished-After st valid =
        let f : DiagnosisSession → DiagnosisSession =
          λ r. with_result st.final_response (phase_and_run st.phase env.new_run r) in
        let closed =
          close_run lib settings env p st.phase (status_of lib settings env p st.phase)
            st.guardrail_decision none (set_template (record st { run_id = env.new_run }) s) in
        let updated = record closed { sessions = Table.modify p.session_id f s.sessions } in
        let shown = with_result_phase st.final_response (phase_and_run st.phase env.new_run last) in
        rw (on_finished, valid, update_session-ok p.session_id f closed last at)
          (
            f last,
            ap (Table.get p.session_id) (record_outcome_sessions st st.final_response updated)
                ∙ get-modify_self p.session_id f s.sessions last at,
            SessionAfter.ended (f last) st shown.0 shown.1,
          )

    on_ending-After :
        (ending : Ending)
        → ((st : DiagnosisState) → ending ≡ finished_with st → is_valid st ≡ true)
        → After row ending (on_ending lib settings env p row (ending, s))
    on_ending-After (finished_with st) valid = on_finished-After st (valid st refl)
    on_ending-After cancelled valid = on_cancelled-After
    on_ending-After (raised e) valid = on_raised-After e

  -- After a call of `diagnose` that comes to the graph, the session is in the phase of the graph's output
  -- with the new run, or it has failed with the new run, where the graph or one of the calls it made raised,
  -- or it is in the phase and with the run that it had before, where the run was cancelled. The session is
  -- open, the call is no repeat and its answers are accepted, the contexts that the session keeps are
  -- complete, the graph reports steps of this session only, and its output is valid.
  pub diagnose-SessionAfter :
      (row : DiagnosisSession) (key : Option String) (s : Store) (st : DiagnosisState)
      → Table.get p.session_id s.sessions ≡ some row
      → replayed lib settings env p (existing lib settings env p key s) ≡ ok false
      → IsOpen row.phase
      → check_answers lib.texts.strip p (Table.get p.session_id s.memory) ≡ ok tt
      → initial_state row (Table.get p.session_id s.memory) p (mode_of p) env.new_run env.trace_id
        ≡ ok st
      → Every (OfSession p.session_id) (env.graph st).0
      → ((o : DiagnosisState) → (env.graph st).1 ≡ finished_with o → is_valid o ≡ true)
      → (row' : DiagnosisSession) × (Table.get p.session_id
            (diagnose lib settings env p key s).1.sessions
          ≡ some row')
        × SessionAfter row env.new_run
            (invoke lib
              (ids lib settings env p)
              (env.graph st).0
              (env.graph st).1
              (prepared lib settings env p row (Table.get p.session_id s.memory) key s)).0
            row'
  diagnose-SessionAfter row key s st at new opened accepted initial own valid =
      let memory = Table.get p.session_id s.memory in
      let ready = prepared lib settings env p row memory key s in
      let graph = env.graph st in
      let run = invoke lib (ids lib settings env p) graph.0 graph.1 ready in
      let path = invoke-Leaves lib (ids lib settings env p) graph.0 graph.1 ready own (
        subst (Touches p.session_id s.sessions)
          (sym (prepared_sessions lib settings env p row memory key s))
          (touched (phase_and_run DiagnosisPhase.init env.new_run) untouched)) in
      let (last, at') = Touches-some at (Leaves-Touches path) in
      subst (After row run.0)
        (sym (diagnose-on_ending lib settings env p row key s st at new opened accepted initial))
        (on_ending-After row run.1 last at' run.0
          (λ o e. valid o (invoke-finished lib (ids lib settings env p) graph.0 graph.1 ready o e)))
