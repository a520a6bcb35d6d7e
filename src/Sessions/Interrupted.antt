-- ===== src/Sessions/Interrupted.antt =====
-- Runs that src/energy_agent/agent/execution_service.py does not finish: what they leave in the memory of the
-- session, against what the table of sessions says.
use energy_agent_diagnosis.Common.{
  String, Option, none, some, true, false, List, [], ◌∷◌, ◌++◌, ◌≡◌, refl, sym, ap, ◌∙◌, string_eq,
  contains, truthy, Every,
}
use mathlib.Core.Path.{subst}
use energy_agent_diagnosis.Common.Errors.{Outcome, ok, err, Error}
use energy_agent_diagnosis.Common.Table
use energy_agent_diagnosis.Common.Table.{Table, get-modify_self}
use energy_agent_diagnosis.Agent.Workflow.{DiagnosisPhase}
use energy_agent_diagnosis.Sessions.State.{DiagnosisState, SessionMemory, UserFeedback, is_valid}
use energy_agent_diagnosis.Sessions.Store.{
  DiagnosisSession, Store, update_session-ok, phase_and_run,
}
use energy_agent_diagnosis.Sessions.Requests.{Library, Settings, DiagnosisChatRequest}
use energy_agent_diagnosis.Sessions.Memory.{
  initial_state, memory_payload, get_session, remembered, answered_ids,
}
use energy_agent_diagnosis.Sessions.Clarify.{check_answers}
use energy_agent_diagnosis.Sessions.Run.{
  Callback, step, Ending, cancelled, raised, call_all, invoke, ended,
}
use energy_agent_diagnosis.Sessions.Diagnose.{
  Environment, ids, diagnose, start, mode_of, replayed, existing, on_ending, on_cancelled,
  on_raised, close_run,
}
use energy_agent_diagnosis.Sessions.Prepare.{
  IsOpen, by_phase-IsOpen, prepared, diagnose-on_ending, prepared_sessions,
}
use energy_agent_diagnosis.Sessions.Touches.{
  Touches, untouched, touched, Touches-some, OfSession, Leaves-Touches, call_all-Leaves,
}
use energy_agent_diagnosis.Sessions.Steps.{memory_of_step, call_all-Stepped, ended-ok}

get_session-remembered :
    (session_id : String) (s : Store) (row : DiagnosisSession) (m : SessionMemory)
    → Table.get session_id s.sessions ≡ some row
    → Table.get session_id s.memory ≡ some m
    → get_session session_id s ≡ ok (remembered session_id m)
unfolding get_session
get_session-remembered session_id s row m at kept = rw (get_session, at, kept) refl

on_cancelled_lem :
    (lib : Library) (settings : Settings) (env : Environment) (p : DiagnosisChatRequest)
    (row : DiagnosisSession) (s : Store) (last : DiagnosisSession)
    → Table.get p.session_id s.sessions ≡ some last
    → on_cancelled lib settings env p row s ≡ (
      err Error.cancelled,
      record (close_run lib settings env p row.phase "cancelled" none
          (some "stream_disconnected")
          s) {
            sessions = Table.modify p.session_id (phase_and_run row.phase row.run_id) s.sessions;
          },
    )
unfolding on_cancelled
on_cancelled_lem lib settings env p row s last at =
    let closed =
      close_run lib settings env p row.phase "cancelled" none (some "stream_disconnected") s in
    rw
      (
        on_cancelled,
        update_session-ok p.session_id (phase_and_run row.phase row.run_id) closed last at,
      )
      refl

-- A call whose answers are refused.
diagnose_refused :
    (lib : Library) (settings : Settings) (env : Environment) (p : DiagnosisChatRequest) (s : Store)
    (row : DiagnosisSession) (m : SessionMemory) (e : Error)
    → Table.get p.session_id s.sessions ≡ some row
    → IsOpen row.phase
    → Table.get p.session_id s.memory ≡ some m
    → check_answers lib.texts.strip p (some m) ≡ err e
    → diagnose lib settings env p none s ≡ (err e, s)
unfolding diagnose start
diagnose_refused lib settings env p s row m e at opened kept refused =
    rw (diagnose, at, start, by_phase-IsOpen opened, kept, refused) refl

answered_already :
    (lib : Library) (p : DiagnosisChatRequest) (name : String) (progress : DiagnosisState)
    (a : UserFeedback) (answers : List UserFeedback)
    → p.clarification_answers ≡ a ∷ answers
    → p.expected_memory_revision ≡ none
    → truthy (lib.texts.strip a.answer) ≡ true
    → contains (answered_ids progress.user_feedback) a.question_id ≡ true
    → check_answers lib.texts.strip p (some (memory_of_step lib name progress))
      ≡ err Error.clarification_already_answered
unfolding check_answers memory_payload
answered_already lib p name progress a answers given no_revision written kept =
    rw (check_answers, given, no_revision, written, kept) refl

-- A call of `diagnose` that comes to the graph, whose last call is a completed step of the session.
module _ (lib : Library) (settings : Settings) (env : Environment) (p : DiagnosisChatRequest)
    (row : DiagnosisSession) (key : Option String) (s : Store) (st : DiagnosisState)
    (at : Table.get p.session_id s.sessions ≡ some row)
    (new : replayed lib settings env p (existing lib settings env p key s) ≡ ok false)
    (opened : IsOpen row.phase)
    (accepted : check_answers lib.texts.strip p (Table.get p.session_id s.memory) ≡ ok tt)
    (initial : initial_state row
        (Table.get p.session_id s.memory)
        p
        (mode_of p)
        env.new_run
        env.trace_id
      ≡ ok st)
    (cs : List Callback) (st' : DiagnosisState) (name : String) (progress : DiagnosisState)
    (own : Every (OfSession p.session_id) cs) (valid : is_valid progress ≡ true)
    (same : progress.session_id ≡ p.session_id)
    (went : (call_all lib
        (ids lib settings env p)
        cs
        (prepared lib settings env p row (Table.get p.session_id s.memory) key s)).0
      ≡ ok tt) where
  -- The store that the graph leaves.
  abbrev left : Outcome (Unit {0}) × Store
  left =
      call_all lib (ids lib settings env p) (cs ++ step st' name progress ∷ [])
        (prepared lib settings env p row (Table.get p.session_id s.memory) key s)

  left-Stepped :
      (row' : DiagnosisSession) × (left.0 ≡ ok tt)
      × (Table.get p.session_id left.1.memory ≡ some (memory_of_step lib name progress))
      × (Table.get p.session_id left.1.sessions ≡ some row')
  left-Stepped =
      let ready = prepared lib settings env p row (Table.get p.session_id s.memory) key s in
      let path = call_all-Leaves lib (ids lib settings env p) {t = s.sessions} {cs = cs} ready own (
        subst (Touches p.session_id s.sessions)
          (sym (prepared_sessions lib settings env p row (Table.get p.session_id s.memory) key s))
          (touched (phase_and_run DiagnosisPhase.init env.new_run) untouched)) in
      let (last, found) = Touches-some at (Leaves-Touches path) in
      let found' =
        subst
          (λ i. Table.get i (call_all lib (ids lib settings env p) cs ready).1.sessions ≡ some last)
          (sym same) found in
      let done =
        call_all-Stepped lib (ids lib settings env p) cs st' name progress ready went found'
          valid in
      (
        phase_and_run progress.phase progress.run_id last,
        done.0,
        subst (λ i. Table.get i left.1.memory ≡ some (memory_of_step lib name progress)) same
            done.1,
        subst
            (λ i.
              Table.get i left.1.sessions
              ≡ some (phase_and_run progress.phase progress.run_id last))
            same done.2,
      )

  diagnose-left :
      (ending : Ending)
      → env.graph st ≡ (cs ++ step st' name progress ∷ [], ending)
      → diagnose lib settings env p key s ≡ on_ending lib settings env p row (ending, left.1)
  unfolding invoke
  diagnose-left ending graph =
      diagnose-on_ending lib settings env p row key s st at new opened accepted initial
      ∙ ap
          (λ (g : List Callback × Ending). on_ending lib settings env p row (
            ended lib (ids lib settings env p) g.1 (
              call_all lib (ids lib settings env p) g.0
                (prepared lib settings env p row (Table.get p.session_id s.memory) key s))))
          graph
      ∙ ap (on_ending lib settings env p row)
          (ended-ok lib (ids lib settings env p) ending left left-Stepped.1)

  -- Where a run is cancelled after a completed step, the message it was given cannot be sent again: the
  -- session is set back to its phase and run, but the memory has kept the answers of the run, and the same
  -- answers are refused as already given. The session is open, the call was no repeat and its answers were
  -- accepted, it names no revision, the calls of the graph did not raise, and the state of the last step
  -- holds the first answer.
  pub cancelled_answers :
      (a : UserFeedback) (answers : List UserFeedback) (env' : Environment)
      → env.graph st ≡ (cs ++ step st' name progress ∷ [], cancelled)
      → p.clarification_answers ≡ a ∷ answers
      → p.expected_memory_revision ≡ none
      → truthy (lib.texts.strip a.answer) ≡ true
      → contains (answered_ids progress.user_feedback) a.question_id ≡ true
      → diagnose lib settings env' p none (diagnose lib settings env p key s).1
        ≡ (err Error.clarification_already_answered, (diagnose lib settings env p key s).1)
  cancelled_answers a answers env' graph given no_revision written kept =
      let (row', ran, memory, found) = left-Stepped in
      let f = phase_and_run row.phase row.run_id in
      let closed =
        close_run lib settings env p row.phase "cancelled" none (some "stream_disconnected")
          left.1 in
      let final = record closed { sessions = Table.modify p.session_id f left.1.sessions } in
      let first : diagnose lib settings env p key s ≡ (err Error.cancelled, final) =
        diagnose-left cancelled graph ∙ on_cancelled_lem lib settings env p row left.1 row' found in
      rw (first) (
        diagnose_refused lib settings env' p final (f row') (memory_of_step lib name progress)
          Error.clarification_already_answered
          (get-modify_self p.session_id f left.1.sessions row' found) opened memory
          (answered_already lib p name progress a answers given no_revision written kept))

  -- Where the graph raises after a completed step, the session has failed, but
  -- get_session still shows the phase of the last completed step, from the memory. The session is open, the
  -- call was no repeat and its answers were accepted, and the calls of the graph did not raise.
  pub failed_shown :
      (e : Error)
      → env.graph st ≡ (cs ++ step st' name progress ∷ [], raised e)
      → let s' = (diagnose lib settings env p key s).1 in
        (row' : DiagnosisSession) × (Table.get p.session_id s'.sessions ≡ some row')
        × (row'.phase ≡ DiagnosisPhase.failed)
        × (get_session p.session_id s'
            ≡ ok (remembered p.session_id (memory_of_step lib name progress)))
        × ((remembered p.session_id (memory_of_step lib name progress)).phase ≡ progress.phase)
  unfolding get_session memory_payload on_raised
  failed_shown e graph =
      let (row', ran, kept, found) = left-Stepped in
      let f = phase_and_run DiagnosisPhase.failed env.new_run in
      let closed =
        close_run lib settings env p DiagnosisPhase.failed "failed" none (some "workflow_exception")
          left.1 in
      let final = record closed { sessions = Table.modify p.session_id f left.1.sessions } in
      let found' = get-modify_self p.session_id f left.1.sessions row' found in
      rw
        (
          diagnose-left (raised e) graph,
          on_raised,
          update_session-ok p.session_id f closed row' found,
        )
        (
          f row',
          found',
          refl,
          get_session-remembered p.session_id final (f row') (memory_of_step lib name progress)
              found' kept,
          refl,
        )
