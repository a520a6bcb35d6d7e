-- ===== src/Sessions/Prepare.antt =====
-- The way of `diagnose` of src/energy_agent/agent/execution_service.py up to the graph: what is in the store
-- when the graph starts.
use energy_agent_diagnosis.Common.{
  String, Option, some, false, List, [], ◌∷◌, ◌≡◌, refl, ap, ◌∙◌, if-elim, if◌then◌else◌,
}
use energy_agent_diagnosis.Common.Errors.{ok}
use energy_agent_diagnosis.Common.Table
use energy_agent_diagnosis.Common.Table.{get-add, get-modify}
use energy_agent_diagnosis.Agent.Workflow.{DiagnosisPhase}
use energy_agent_diagnosis.Sessions.State.{UserFeedback, SessionMemory, DiagnosisState}
use energy_agent_diagnosis.Sessions.Store.{
  DiagnosisSession, Store, update_session-ok, phase_and_run, create_run,
}
use energy_agent_diagnosis.Sessions.Requests.{Library, Settings, DiagnosisChatRequest}
use energy_agent_diagnosis.Sessions.Memory.{initial_state}
use energy_agent_diagnosis.Sessions.Clarify.{check_answers}
use energy_agent_diagnosis.Sessions.Run.{invoke}
use energy_agent_diagnosis.Sessions.Diagnose.{
  Environment, append_answers, message_event, ids, on_ending, new_run_of, prepare, start_graph,
  execute, start, diagnose, mode_of, replayed, existing, by_phase,
}

-- A phase in which a run may start.
pub data IsOpen : DiagnosisPhase → Type 0 where
  at_init : IsOpen DiagnosisPhase.init
  planned : IsOpen DiagnosisPhase.plan_ready
  fetching : IsOpen DiagnosisPhase.data_fetching
  evident : IsOpen DiagnosisPhase.evidence_ready
  waiting : IsOpen DiagnosisPhase.need_user_input
  drafted : IsOpen DiagnosisPhase.draft_ready
  under_review : IsOpen DiagnosisPhase.reviewing

pub by_phase-IsOpen {ℓ} :
    {A : Type ℓ} {phase : DiagnosisPhase} → IsOpen phase → (f c o : A) → by_phase phase f c o ≡ o
by_phase-IsOpen at_init f c o = refl
by_phase-IsOpen planned f c o = refl
by_phase-IsOpen fetching f c o = refl
by_phase-IsOpen evident f c o = refl
by_phase-IsOpen waiting f c o = refl
by_phase-IsOpen drafted f c o = refl
by_phase-IsOpen under_review f c o = refl

module _ (lib : Library) (settings : Settings) (env : Environment) (p : DiagnosisChatRequest) where
  -- The answers are written to the timeline only.
  pub append_answers_lem :
      (answers : List UserFeedback) (s : Store)
      → append_answers lib settings env p answers s
        ≡ record s { timeline = (append_answers lib settings env p answers s).timeline }
  unfolding append_answers
  append_answers_lem [] s = refl
  append_answers_lem (a ∷ answers) s = append_answers_lem answers _

  -- The store in which the graph starts.
  abbrev pub prepared : DiagnosisSession → Option SessionMemory → Option String → Store → Store
  prepared row memory key s =
      let created =
        create_run env.new_run (new_run_of lib settings env p row memory key)
          (message_event lib settings env p) s in
      let updated = record created {
        sessions =
            Table.modify p.session_id (phase_and_run DiagnosisPhase.init env.new_run) s.sessions;
      } in
      if settings.has_timeline
      then append_answers lib settings env p p.clarification_answers updated
      else updated

  module _ (row : DiagnosisSession) (memory : Option SessionMemory) (key : Option String)
      (s : Store) (at : Table.get p.session_id s.sessions ≡ some row) where
    prepare-ok : prepare lib settings env p row memory key s ≡ (ok tt, prepared row memory key s)
    unfolding prepare
    prepare-ok =
        let created =
          create_run env.new_run (new_run_of lib settings env p row memory key)
            (message_event lib settings env p) s in
        rw
          (
            prepare,
            update_session-ok p.session_id (phase_and_run DiagnosisPhase.init env.new_run) created
                row at,
          )
          refl

  -- A call that is no repeat, of a session that is open, with answers that are accepted, comes to the graph.
  pub diagnose-start_graph :
      (row : DiagnosisSession) (key : Option String) (s : Store)
      → Table.get p.session_id s.sessions ≡ some row
      → replayed lib settings env p (existing lib settings env p key s) ≡ ok false
      → IsOpen row.phase
      → check_answers lib.texts.strip p (Table.get p.session_id s.memory) ≡ ok tt
      → diagnose lib settings env p key s
        ≡ start_graph lib settings env p row
            (initial_state row
              (Table.get p.session_id s.memory)
              p
              (mode_of p)
              env.new_run
              env.trace_id)
            (ok tt, prepared row (Table.get p.session_id s.memory) key s)
  unfolding diagnose start execute
  diagnose-start_graph row key s at new opened accepted =
      let memory = Table.get p.session_id s.memory in
      let prepare_first = prepare-ok row memory key s at in
      rw (diagnose, at, new, start, by_phase-IsOpen opened, accepted, execute, prepare_first) refl

  pub diagnose-on_ending :
      (row : DiagnosisSession) (key : Option String) (s : Store) (st : DiagnosisState)
      → Table.get p.session_id s.sessions ≡ some row
      → replayed lib settings env p (existing lib settings env p key s) ≡ ok false
      → IsOpen row.phase
      → check_answers lib.texts.strip p (Table.get p.session_id s.memory) ≡ ok tt
      → initial_state row (Table.get p.session_id s.memory) p (mode_of p) env.new_run env.trace_id
        ≡ ok st
      → diagnose lib settings env p key s
        ≡ on_ending lib settings env p row (
            invoke lib
              (ids lib settings env p)
              (env.graph st).0
              (env.graph st).1
              (prepared row (Table.get p.session_id s.memory) key s))
  diagnose-on_ending row key s st at new opened accepted initial =
      let memory = Table.get p.session_id s.memory in
      diagnose-start_graph row key s at new opened accepted
      ∙ ap (λ i. start_graph lib settings env p row i (ok tt, prepared row memory key s)) initial

  pub prepared_sessions :
      (row : DiagnosisSession) (memory : Option SessionMemory) (key : Option String) (s : Store)
      → (prepared row memory key s).sessions
        ≡ Table.modify p.session_id (phase_and_run DiagnosisPhase.init env.new_run) s.sessions
  prepared_sessions row memory key s =
      if-elim
        (λ (s' : Store).
          s'.sessions
          ≡ Table.modify p.session_id (phase_and_run DiagnosisPhase.init env.new_run) s.sessions)
        settings.has_timeline _ _
        (λ _. ap (λ (s' : Store). s'.sessions) (append_answers_lem p.clarification_answers _))
        (λ _. refl)

  pub prepared_runs :
      (row : DiagnosisSession) (memory : Option SessionMemory) (key : Option String) (s : Store)
      → (prepared row memory key s).runs
        ≡ Table.add env.new_run (new_run_of lib settings env p row memory key) s.runs
  prepared_runs row memory key s =
      if-elim
        (λ (s' : Store).
          s'.runs ≡ Table.add env.new_run (new_run_of lib settings env p row memory key) s.runs)
        settings.has_timeline _ _
        (λ _. ap (λ (s' : Store). s'.runs) (append_answers_lem p.clarification_answers _))
        (λ _. refl)
