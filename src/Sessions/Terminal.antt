-- ===== src/Sessions/Terminal.antt =====
-- Sessions that are over, under any calls of src/energy_agent/agent/execution_service.py.
use energy_agent_diagnosis.Common.{
  ℕ, String, Option, none, some, not, List, ◌≡◌, refl, sym, ap, ◌∙◌, arith, eq_iff, ◌==◌, string_eq,
  Every, nil, cons, inl, inr, Bool-cases, if-elim, option-elim,
}
use mathlib.Core.Path.{subst}
use energy_agent_diagnosis.Common.Errors.{Outcome, outcome-elim}
use energy_agent_diagnosis.Common.Table
use energy_agent_diagnosis.Common.Table.{Table, get-add}
use energy_agent_diagnosis.Agent.Workflow.{DiagnosisPhase}
use energy_agent_diagnosis.Cases.Service.Requests.{Actor}
use energy_agent_diagnosis.Sessions.State.{DiagnosisState}
use energy_agent_diagnosis.Sessions.Store.{DiagnosisSession, Store}
use energy_agent_diagnosis.Sessions.Requests.{
  Library, Settings, DiagnosisChatRequest, DiagnosisResponse, CreateSessionRequest,
  CreateSessionResponse,
}
use energy_agent_diagnosis.Sessions.Create
use energy_agent_diagnosis.Sessions.Create.{
  AlarmKey, audit_of, alarm_of, session_of, existing_run, create_fingerprint, registered, after_hit,
  hit_of, create_session, create_new, repeated, merge, hit, register,
}
use energy_agent_diagnosis.Sessions.Diagnose.{
  Environment, diagnose, start, by_phase, mode_of, replayed, existing,
}
use energy_agent_diagnosis.Sessions.Touches.{untouched, Touches-other, OfSession, Leaves-Touches}
use energy_agent_diagnosis.Sessions.Calls.{Call, apply, apply_all}
use energy_agent_diagnosis.Sessions.Messages.{explain_previous_sessions, diagnose-Leaves}

-- A phase that ends a session.
pub data IsClosed : DiagnosisPhase → Type 0 where
  has_failed : IsClosed DiagnosisPhase.failed
  is_complete : IsClosed DiagnosisPhase.completed

by_phase-IsClosed {ℓ ℓ'} :
    {A : Type ℓ} (P : A → Type ℓ') {phase : DiagnosisPhase} (f c o : A)
    → IsClosed phase
    → P f
    → P c
    → P (by_phase phase f c o)
by_phase-IsClosed P f c o has_failed h h' = h
by_phase-IsClosed P f c o is_complete h h' = h'

-- A call whose graph reports steps of its own session.
pub data Reports : Call → Type 0 where
  creates :
      (env : Create.Environment) (p : CreateSessionRequest) (key : Option String)
      → Reports (Call.create env p key)
  reports :
      (env : Environment) (p : DiagnosisChatRequest) (key : Option String)
      → ((st : DiagnosisState) → Every (OfSession p.session_id) (env.graph st).0)
      → Reports (Call.chat env p key)
  expires : (session_id : String) → Reports (Call.expire session_id)

module _ (lib : Library) (settings : Settings) (env : Create.Environment) (p : CreateSessionRequest)
    (key : Option String) (k : String) (row : DiagnosisSession) where
  abbrev Kept : Outcome CreateSessionResponse × Store → Type 0
  Kept r = Table.get k r.1.sessions ≡ some row

  audit_of_sessions :
      (actor : Option Actor) (action id trace_id : String) (s : Store)
      → (audit_of settings actor action id trace_id s).sessions ≡ s.sessions
  audit_of_sessions none action id trace_id s = refl
  audit_of_sessions (some a) action id trace_id s = ground arith

  registered_sessions :
      (a : Option AlarmKey) (s : Store) → (registered lib settings env a s).sessions ≡ s.sessions
  unfolding register
  registered_sessions none s = refl
  registered_sessions (some a) s = refl

  create_new-keeps :
      (s : Store) → Table.get k s.sessions ≡ some row → Kept (create_new lib settings env p key s)
  unfolding create_new
  create_new-keeps s at =
      ap (Table.get k)
        (audit_of_sessions env.actor "diagnosis.created" env.new_session env.trace_id _)
      ∙ ap (Table.get k) (registered_sessions (alarm_of settings p) _)
      ∙ ground (arith, get-add env.new_session k (session_of p env) s.sessions)

  after_hit-keeps :
      (r : Option (String × ℕ) × Store)
      → Table.get k r.1.sessions ≡ some row
      → Kept (after_hit lib settings env p key r)
  unfolding merge
  after_hit-keeps (none, s) at = create_new-keeps s at
  after_hit-keeps (some (id, hits), s) at =
      option-elim Kept (Table.get id s.sessions) _ _ at (λ found.
        ap (Table.get k) (audit_of_sessions env.actor "diagnosis.alarm_merged" id env.trace_id s)
        ∙ at)

  hit_sessions :
      (a : Option AlarmKey) (s : Store) → (hit_of lib settings env a s).1.sessions ≡ s.sessions
  unfolding hit
  hit_sessions none s = refl
  hit_sessions (some a) s = ground arith

  create_session-keeps :
      (s : Store)
      → Table.get k s.sessions ≡ some row
      → Kept (create_session lib settings env p key s)
  unfolding create_session repeated
  create_session-keeps s at =
      option-elim Kept (existing_run key s) _ _
        (after_hit-keeps _ (ap (Table.get k) (hit_sessions (alarm_of settings p) s) ∙ at))
        (λ found.
          if-elim Kept (not (found.1.request_hash == create_fingerprint lib settings env p)) _ _
            (λ _. at)
            (λ _. option-elim Kept (Table.get found.1.session_id s.sessions) _ _ at (λ _. at)))

module _ (lib : Library) (settings : Settings) {row : DiagnosisSession}
    (closed : IsClosed row.phase) where
  -- A call of a closed session leaves its row alone.
  diagnose_closed :
      (env : Environment) (p : DiagnosisChatRequest) (key : Option String) (s : Store)
      → Table.get p.session_id s.sessions ≡ some row
      → Table.get p.session_id (diagnose lib settings env p key s).1.sessions ≡ some row
  unfolding diagnose start
  diagnose_closed env p key s at =
      let Same =
        λ (r : Outcome DiagnosisResponse × Store). Table.get p.session_id r.1.sessions ≡ some row in
      rw (diagnose, at)
        (outcome-elim Same (replayed lib settings env p (existing lib settings env p key s)) _ _
          (λ e. at)
          (λ again.
            if-elim Same again _ _ (λ _. at)
              (λ _. by_phase-IsClosed Same _ _ _ closed at (
                if-elim Same (mode_of p == "explain_previous_result") _ _
                  (λ _.
                    explain_previous_sessions lib settings env p
                      (λ t. Table.get p.session_id t ≡ some row) (Table.get p.session_id s.memory)
                      key s at)
                  (λ _. at)))))

  diagnose-keeps :
      (k : String) (env : Environment) (p : DiagnosisChatRequest) (key : Option String) (s : Store)
      → ((st : DiagnosisState) → Every (OfSession p.session_id) (env.graph st).0)
      → Table.get k s.sessions ≡ some row
      → Table.get k (diagnose lib settings env p key s).1.sessions ≡ some row
  diagnose-keeps k env p key s own at = elim (Bool-cases (p.session_id == k)) [
    | inl same ↦
        let e : p.session_id ≡ k = (eq_iff p.session_id k).0 same in
        subst (λ j. Table.get j (diagnose lib settings env p key s).1.sessions ≡ some row) e
          (diagnose_closed env p key s (subst (λ j. Table.get j s.sessions ≡ some row) (sym e) at))
    | inr other ↦
        Touches-other k (λ e. ground (arith, other, e, eq_iff p.session_id k))
          (Leaves-Touches (diagnose-Leaves lib settings env p own key s untouched))
        ∙ at
  ]

  apply-keeps :
      (k : String) (c : Call) (s : Store)
      → Reports c
      → Table.get k s.sessions ≡ some row
      → Table.get k (apply lib settings c s).sessions ≡ some row
  unfolding apply
  apply-keeps k _ s (creates env p key) at = create_session-keeps lib settings env p key k row s at
  apply-keeps k _ s (reports env p key own) at = diagnose-keeps k env p key s own at
  apply-keeps k _ s (expires session_id) at = at

  -- A session that is completed or has failed stays exactly as it is under any calls of the service, at any
  -- time: new sessions, messages to it or to others, explanations of its result, and the expiry of memories,
  -- whatever the graphs do. Each graph reports steps of the session that its call is about.
  pub apply_all-IsClosed :
      (k : String) (cs : List Call) (s : Store)
      → Every Reports cs
      → Table.get k s.sessions ≡ some row
      → Table.get k (apply_all lib settings cs s).sessions ≡ some row
  unfolding apply_all
  apply_all-IsClosed k _ s nil at = at
  apply_all-IsClosed k _ s (cons {x = c} {xs = cs} own rest) at =
      apply_all-IsClosed k cs (apply lib settings c s) rest (apply-keeps k c s own at)
