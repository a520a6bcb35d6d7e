-- ===== src/Sessions/Created.antt =====
-- What `create_session` of src/energy_agent/agent/execution_service.py leaves of a new session.
use energy_agent_diagnosis.Common.{
  String, Option, none, some, ◌≡◌, refl, arith, string_eq, eq_refl, false,
}
use energy_agent_diagnosis.Common.Errors.{Outcome, ok}
use energy_agent_diagnosis.Common.Table
use energy_agent_diagnosis.Common.Table.{Table, get-add}
use energy_agent_diagnosis.Agent.Workflow.{DiagnosisPhase}
use energy_agent_diagnosis.Cases.Service.Requests.{Actor}
use energy_agent_diagnosis.Sessions.Store.{Store, get-set_self, save_memory, create_run}
use energy_agent_diagnosis.Sessions.Requests.{
  Library, Settings, CreateSessionRequest, CreateSessionResponse,
}
use energy_agent_diagnosis.Sessions.Create.{
  Environment, AlarmKey, alarm_of, audit_of, session_of, first_run, first_memory, existing_run,
  registered, create_new, create_session, create_fingerprint, register,
}

pub audit_of_lem :
    (settings : Settings) (actor : Option Actor) (action id trace_id : String) (s : Store)
    → audit_of settings actor action id trace_id s
      ≡ record s { audit = (audit_of settings actor action id trace_id s).audit }
audit_of_lem settings none action id trace_id s = refl
audit_of_lem settings (some a) action id trace_id s = ground arith

pub registered_lem :
    (lib : Library) (settings : Settings) (env : Environment) (a : Option AlarmKey) (s : Store)
    → registered lib settings env a s
      ≡ record s { alarms = (registered lib settings env a s).alarms }
unfolding register
registered_lem lib settings env none s = refl
registered_lem lib settings env (some a) s = refl

-- What a session that is created leaves, where its id is new.
pub record IsCreated (lib : Library) (settings : Settings) (env : Environment)
    (p : CreateSessionRequest) (key : Option String) (s s' : Store) : Type 0 where
  pub session : Table.get env.new_session s'.sessions ≡ some (session_of p env)
  pub memory : Table.get env.new_session s'.memory ≡ some (first_memory p env)
  pub runs :
      s'.runs
      ≡ Table.add env.new_run (first_run env key (create_fingerprint lib settings env p)) s.runs

pub create_new-IsCreated :
    (lib : Library) (settings : Settings) (env : Environment) (p : CreateSessionRequest)
    (key : Option String) (s : Store)
    → Table.get env.new_session s.sessions ≡ none
    → IsCreated lib settings env p key s (create_new lib settings env p key s).1
unfolding create_new
create_new-IsCreated lib settings env p key s fresh =
    let added = record s { sessions = Table.add env.new_session (session_of p env) s.sessions } in
    let kept = save_memory (first_memory p env) (
      create_run env.new_run (first_run env key (create_fingerprint lib settings env p)) none
        added) in
    rw
      (
        audit_of_lem settings env.actor "diagnosis.created" env.new_session env.trace_id
            (registered lib settings env (alarm_of settings p) kept),
        registered_lem lib settings env (alarm_of settings p) kept,
      )
      (record {
        session = ground (
          arith,
          fresh,
          eq_refl env.new_session,
          get-add env.new_session env.new_session (session_of p env) s.sessions,
        );
        memory = get-set_self env.new_session (first_memory p env) s.memory;
        runs = refl;
      })

pub create_new_lem :
    (lib : Library) (settings : Settings) (env : Environment) (p : CreateSessionRequest)
    (key : Option String) (s : Store)
    → ◌≡◌ {A = Outcome CreateSessionResponse × Store}
        (
          ok (record {
            session_id = env.new_session;
            run_id = env.new_run;
            phase = DiagnosisPhase.init;
            trace_id = env.trace_id;
            merged = false;
            duplicate_count = 1;
          }),
          (create_new lib settings env p key s).1,
        )
        (create_new lib settings env p key s)
unfolding create_new
create_new_lem lib settings env p key s = refl

pub create_session-no_alarm :
    (lib : Library) (settings : Settings) (env : Environment) (p : CreateSessionRequest)
    (key : Option String) (s : Store)
    → existing_run key s ≡ none
    → alarm_of settings p ≡ none
    → create_session lib settings env p key s ≡ create_new lib settings env p key s
unfolding create_session
create_session-no_alarm lib settings env p key s new no_alarm =
    rw (create_session, new, no_alarm) refl
