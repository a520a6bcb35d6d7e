-- ===== src/Sessions/Messages.antt =====
-- A message of src/energy_agent/agent/execution_service.py changes the row of its own session only.
use energy_agent_diagnosis.Common.{
  String, Option, not, sym, ◌==◌, string_eq, Every, if-elim, option-elim,
}
use mathlib.Core.Path.{subst}
use energy_agent_diagnosis.Common.Errors.{Outcome, ok, err, Error, outcome-elim}
use energy_agent_diagnosis.Common.Table
use energy_agent_diagnosis.Common.Table.{Table, get-add}
use energy_agent_diagnosis.Agent.Workflow.{DiagnosisPhase}
use energy_agent_diagnosis.Sessions.State.{DiagnosisState, SessionMemory, is_valid}
use energy_agent_diagnosis.Sessions.Store.{DiagnosisSession, Store}
use energy_agent_diagnosis.Sessions.Requests.{
  Library, Settings, DiagnosisChatRequest, DiagnosisResponse,
}
use energy_agent_diagnosis.Sessions.Run.{Ending, finished_with, cancelled, raised}
use energy_agent_diagnosis.Sessions.Diagnose.{
  Environment, ids, diagnose, start, execute, prepare, explain_previous, by_phase, raise_after,
  checked_execute, start_graph, on_ending, on_cancelled, on_raised, on_finished, mode_of,
  latest_saved, replayed, existing,
}
use energy_agent_diagnosis.Sessions.Touches.{
  Touches, OfSession, Leaves, leaves, update_session-Leaves, and_then-Leaves, invoke-Leaves,
}
use energy_agent_diagnosis.Sessions.Endings.{record_outcome_sessions}
use energy_agent_diagnosis.Sessions.Prepare.{append_answers_lem}

by_phase-elim {ℓ ℓ'} :
    {A : Type ℓ} (P : A → Type ℓ') (phase : DiagnosisPhase) (f c o : A)
    → P f
    → P c
    → P o
    → P (by_phase phase f c o)
by_phase-elim P DiagnosisPhase.failed f c o pf pc po = pf
by_phase-elim P DiagnosisPhase.completed f c o pf pc po = pc
by_phase-elim P DiagnosisPhase.init f c o pf pc po = po
by_phase-elim P DiagnosisPhase.plan_ready f c o pf pc po = po
by_phase-elim P DiagnosisPhase.data_fetching f c o pf pc po = po
by_phase-elim P DiagnosisPhase.evidence_ready f c o pf pc po = po
by_phase-elim P DiagnosisPhase.need_user_input f c o pf pc po = po
by_phase-elim P DiagnosisPhase.draft_ready f c o pf pc po = po
by_phase-elim P DiagnosisPhase.reviewing f c o pf pc po = po

-- An explanation leaves the table of sessions alone.
pub explain_previous_sessions :
    (lib : Library) (settings : Settings) (env : Environment) (p : DiagnosisChatRequest)
    (P : Table DiagnosisSession → Type 0) (memory : Option SessionMemory) (key : Option String)
    (s : Store)
    → P s.sessions
    → P (explain_previous lib settings env p memory key s).1.sessions
unfolding explain_previous
explain_previous_sessions lib settings env p P memory key s h =
    option-elim (λ (r : Outcome DiagnosisResponse × Store). P r.1.sessions)
      (latest_saved lib settings env p memory s) _ _ h
      (λ r. if-elim (λ (s' : Store). P s'.sessions) settings.has_timeline _ _ (λ _. h) (λ _. h))

module _ (lib : Library) (settings : Settings) (env : Environment) (p : DiagnosisChatRequest)
    {t : Table DiagnosisSession} where
  raise_after-Leaves :
      {A : Type 0} (e : Error) {r : Outcome (Unit {0}) × Store}
      → Leaves p.session_id t r
      → Leaves p.session_id t (raise_after {A = A} e r)
  raise_after-Leaves e (leaves {a = ok done} path) = leaves path
  raise_after-Leaves e (leaves {a = err e'} path) = leaves path

  on_finished-Leaves :
      (st : DiagnosisState) (s : Store)
      → Touches p.session_id t s.sessions
      → Leaves p.session_id t (on_finished lib settings env p st s)
  unfolding on_finished
  on_finished-Leaves st s path =
      if-elim (Leaves p.session_id t) (not (is_valid st)) _ _ (λ _. leaves path)
        (λ _. and_then-Leaves _ (update_session-Leaves _ _ path) (λ s' path'. leaves (
          subst (Touches p.session_id t)
            (sym (record_outcome_sessions lib settings env p st st.final_response s')) path')))

  on_ending-Leaves :
      (row : DiagnosisSession) {r : Ending × Store}
      → Leaves p.session_id t r
      → Leaves p.session_id t (on_ending lib settings env p row r)
  unfolding on_cancelled on_raised
  on_ending-Leaves row (leaves {a = finished_with st} {s = s} path) = on_finished-Leaves st s path
  on_ending-Leaves row (leaves {a = cancelled} path) =
      raise_after-Leaves _ (update_session-Leaves _ _ path)
  on_ending-Leaves row (leaves {a = raised e} path) =
      raise_after-Leaves _ (update_session-Leaves _ _ path)

  prepare-Leaves :
      (row : DiagnosisSession) (memory : Option SessionMemory) (key : Option String) (s : Store)
      → Touches p.session_id t s.sessions
      → Leaves p.session_id t (prepare lib settings env p row memory key s)
  unfolding prepare
  prepare-Leaves row memory key s path =
      and_then-Leaves _ (update_session-Leaves _ _ path) (λ s' path'. leaves (
        if-elim (λ (s'' : Store). Touches p.session_id t s''.sessions) settings.has_timeline _ _
          (λ _.
            subst (λ (s'' : Store). Touches p.session_id t s''.sessions)
              (sym (append_answers_lem lib settings env p p.clarification_answers s')) path')
          (λ _. path')))

  module _ (own : (st : DiagnosisState) → Every (OfSession p.session_id) (env.graph st).0) where
    start_graph-Leaves :
        (row : DiagnosisSession) (initial : Outcome DiagnosisState) {r : Outcome (Unit {0}) × Store}
        → Leaves p.session_id t r
        → Leaves p.session_id t (start_graph lib settings env p row initial r)
    start_graph-Leaves row initial (leaves {a = err e} path) = leaves path
    start_graph-Leaves row (err e) (leaves {a = ok done} path) = leaves path
    start_graph-Leaves row (ok st) (leaves {a = ok done} {s = s} path) = on_ending-Leaves row (
        invoke-Leaves lib (ids lib settings env p) (env.graph st).0 (env.graph st).1 s (own st)
          path)

    checked_execute-Leaves :
        (checked : Outcome (Unit {0})) (row : DiagnosisSession) (memory : Option SessionMemory)
        (key : Option String) (s : Store)
        → Touches p.session_id t s.sessions
        → Leaves p.session_id t (checked_execute lib settings env p checked row memory key s)
    unfolding execute
    checked_execute-Leaves (err e) row memory key s path = leaves path
    checked_execute-Leaves (ok done) row memory key s path =
        start_graph-Leaves row _ (prepare-Leaves row memory key s path)

    pub diagnose-Leaves :
        (key : Option String) (s : Store)
        → Touches p.session_id t s.sessions
        → Leaves p.session_id t (diagnose lib settings env p key s)
    unfolding diagnose start
    diagnose-Leaves key s path =
        option-elim (Leaves p.session_id t) (Table.get p.session_id s.sessions) _ _ (leaves path)
          (λ row.
            outcome-elim (Leaves p.session_id t)
              (replayed lib settings env p (existing lib settings env p key s)) _ _
              (λ e. leaves path)
              (λ again.
                if-elim (Leaves p.session_id t) again _ _ (λ _. leaves path)
                  (λ _.
                    by_phase-elim (Leaves p.session_id t) row.phase _ _ _ (leaves path)
                      (if-elim (Leaves p.session_id t) (mode_of p == "explain_previous_result") _ _
                        (λ _. leaves (
                          explain_previous_sessions lib settings env p (Touches p.session_id t)
                            (Table.get p.session_id s.memory) key s path))
                        (λ _. leaves path))
                      (checked_execute-Leaves _ row _ key s path))))
