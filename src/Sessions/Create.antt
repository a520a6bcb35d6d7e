-- ===== src/Sessions/Create.antt =====
-- `create_session` of src/energy_agent/agent/execution_service.py. A failed assertion is an error.
mod Alarms
mod Rows
unfoldable pub use Alarms.*
unfoldable pub use Rows.*
use Prim.Native.String.{◌++◌ as append}
use energy_agent_diagnosis.Common.{
  ℕ, ◌+◌, String, Option, none, some, Bool, true, false, not, ◌&&◌, [], ◌∷◌, ◌++◌, ◌==◌, string_eq,
  leb, truthy?, if◌then◌else◌,
}
use energy_agent_diagnosis.Common.Errors.{Outcome, ok, err, Error}
use energy_agent_diagnosis.Common.Table
use energy_agent_diagnosis.Agent.Workflow.{DiagnosisPhase}
use energy_agent_diagnosis.Guardrails.Decisions.{RiskLevel, sorted_set}
use energy_agent_diagnosis.Cases.Service.Requests.{Actor}
use energy_agent_diagnosis.Sessions.State.{SessionSource, DeviceDict, AlarmDict, SessionMemory}
use energy_agent_diagnosis.Sessions.Store.{
  DiagnosisSession, DiagnosisRun, AlarmDedup, Store, set, find_idempotent_global, create_run,
  save_memory, write_audit,
}
use energy_agent_diagnosis.Sessions.Requests.{
  Library, Settings, CreateSessionRequest, CreateSessionResponse,
}

abbrev pub audit_of : Settings → Option Actor → String → String → String → Store → Store
audit_of settings none action session_id trace_id s = s
audit_of settings (some actor) action session_id trace_id s =
    if settings.has_audit
    then write_audit
        (record {
          actor_id = actor.actor_id;
          action = action;
          resource_type = "diagnosis";
          resource_id = session_id;
          trace_id = trace_id;
          outcome = "succeeded";
        })
        s
    else s

-- The run of an earlier request under the key.
abbrev pub existing_run : Option String → Store → Option (String × DiagnosisRun)
existing_run none s = none
existing_run (some key) s = if truthy? (some key) then find_idempotent_global key s.runs else none

module _ (lib : Library) (settings : Settings) (env : Environment) where
  abbrev pub create_fingerprint : CreateSessionRequest → String
  create_fingerprint p = lib.sha256 (lib.dumps_create "create_session" p)

  unfoldable pub repeated :
      String → DiagnosisRun → CreateSessionRequest → Store → Outcome CreateSessionResponse × Store
  repeated id run p s =
      if not (run.request_hash == create_fingerprint p)
      then (err Error.idempotency_conflict, s)
      else elim (Table.get run.session_id s.sessions)
          as (λ _. Outcome CreateSessionResponse × Store) [
            | none ↦ (err Error.assertion_error, s)
            | some row ↦ (
              ok (record {
                session_id = run.session_id;
                run_id = id;
                phase = row.phase;
                trace_id = run.trace_id;
                merged = false;
                duplicate_count = 1;
              }),
              s,
            )
          ]

  -- A further alarm of an open session.
  unfoldable pub merge : String → ℕ → Store → Outcome CreateSessionResponse × Store
  merge session_id hits s =
      elim (Table.get session_id s.sessions) as (λ _. Outcome CreateSessionResponse × Store) [
        | none ↦ (err Error.assertion_error, s)
        | some row ↦ (
          ok (record {
            session_id = session_id;
            run_id = row.run_id;
            phase = row.phase;
            trace_id = row.trace_id;
            merged = true;
            duplicate_count = hits;
          }),
          audit_of settings env.actor "diagnosis.alarm_merged" session_id env.trace_id s,
        )
      ]

  abbrev pub registered : Option AlarmKey → Store → Store
  registered none s = s
  registered (some a) s =
      register lib settings env.now a.device_id a.alarm_category a.alarm_id env.new_session s

  unfoldable pub create_new :
      CreateSessionRequest → Option String → Store → Outcome CreateSessionResponse × Store
  create_new p idempotency_key s =
      let added = record s { sessions = Table.add env.new_session (session_of p env) s.sessions } in
      let run =
        create_run env.new_run (first_run env idempotency_key (create_fingerprint p)) none added in
      let kept = registered (alarm_of settings p) (save_memory (first_memory p env) run) in
      (
        ok (record {
          session_id = env.new_session;
          run_id = env.new_run;
          phase = DiagnosisPhase.init;
          trace_id = env.trace_id;
          merged = false;
          duplicate_count = 1;
        }),
        audit_of settings env.actor "diagnosis.created" env.new_session env.trace_id kept,
      )

  abbrev pub hit_of : Option AlarmKey → Store → Option (String × ℕ) × Store
  hit_of none s = (none, s)
  hit_of (some a) s =
      hit lib settings env.now (alarm_dedup_key lib a.device_id a.alarm_category) a.alarm_id s

  abbrev pub after_hit :
      CreateSessionRequest
      → Option String
      → Option (String × ℕ) × Store
      → Outcome CreateSessionResponse × Store
  after_hit p key (none, s) = create_new p key s
  after_hit p key (some (session_id, hits), s) = merge session_id hits s

  unfoldable pub create_session :
      CreateSessionRequest → Option String → Store → Outcome CreateSessionResponse × Store
  unfolding hit
  create_session p idempotency_key s =
      elim (existing_run idempotency_key s) as (λ _. Outcome CreateSessionResponse × Store) [
        | some (id, run) ↦ repeated id run p s
        | none ↦ after_hit p idempotency_key (hit_of (alarm_of settings p) s)
      ]
