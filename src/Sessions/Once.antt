-- ===== src/Sessions/Once.antt =====
-- Repeats of `create_session` of src/energy_agent/agent/execution_service.py under a key.
use energy_agent_diagnosis.Common.{
  String, Option, none, some, [], ◌∷◌, ◌≡◌, refl, ◌∙◌, arith, eq_iff, string_eq, eq_refl, ◌≢◌, Bool,
  true, false, sym, truthy,
}
use energy_agent_diagnosis.Common.Errors.{ok, err, Error}
use energy_agent_diagnosis.Common.Table
use energy_agent_diagnosis.Common.Table.{Table, get-add}
use energy_agent_diagnosis.Sessions.Store.{
  DiagnosisRun, Store, latest, find_idempotent_global, DiagnosisSession, has_key,
}
use energy_agent_diagnosis.Sessions.Requests.{Library, Settings, CreateSessionRequest}
use energy_agent_diagnosis.Sessions.Create.{
  Environment, AlarmKey, alarm_of, session_of, first_run, existing_run, create_new, create_session,
  create_fingerprint, hit_of, hit, repeated,
}
use energy_agent_diagnosis.Sessions.Created.{create_new-IsCreated, create_new_lem}

-- The store is as it was where no open alarm is met.
hit_missed :
    (lib : Library) (settings : Settings) (env : Environment) (a : Option AlarmKey) (s : Store)
    → (hit_of lib settings env a s).0 ≡ none
    → hit_of lib settings env a s ≡ (none, s)
unfolding hit
hit_missed lib settings env none s h = refl
hit_missed lib settings env (some a) s h = ground (arith, h)

create_session-missed :
    (lib : Library) (settings : Settings) (env : Environment) (p : CreateSessionRequest)
    (key : Option String) (s : Store)
    → existing_run key s ≡ none
    → (hit_of lib settings env (alarm_of settings p) s).0 ≡ none
    → create_session lib settings env p key s ≡ create_new lib settings env p key s
unfolding create_session
create_session-missed lib settings env p key s new missed =
    rw (create_session, new, hit_missed lib settings env (alarm_of settings p) s missed) refl

latest-add :
    {A : Type 0} (test : A → Bool) (id : String) (a : A) (t : Table A)
    → test a ≡ true
    → latest test (Table.add id a t) ≡ some (id, a)
unfolding latest
latest-add test id a [] h = ground (arith, h)
latest-add test id a ((j, b) ∷ t) h = rw (latest, latest-add test id a t h) refl

existing_run-add :
    (key : String) (id : String) (run : DiagnosisRun) (s : Store) (t : Table DiagnosisRun)
    → truthy key ≡ true
    → run.idempotency_key ≡ some key
    → s.runs ≡ Table.add id run t
    → existing_run (some key) s ≡ some (id, run)
unfolding find_idempotent_global
existing_run-add key id run s t given keyed runs =
    rw (given, runs, find_idempotent_global)
      (latest-add (λ r. has_key key r.idempotency_key) id run t (rw (keyed) (eq_refl key)))

create_session-repeated :
    (lib : Library) (settings : Settings) (env : Environment) (p : CreateSessionRequest)
    (key : Option String) (s : Store) (id : String) (run : DiagnosisRun)
    → existing_run key s ≡ some (id, run)
    → create_session lib settings env p key s ≡ repeated lib settings env id run p s
unfolding create_session
create_session-repeated lib settings env p key s id run old = rw (create_session, old) refl

repeated-same :
    (lib : Library) (settings : Settings) (env : Environment) (id : String) (run : DiagnosisRun)
    (p : CreateSessionRequest) (s : Store) (row : DiagnosisSession)
    → run.request_hash ≡ create_fingerprint lib settings env p
    → Table.get run.session_id s.sessions ≡ some row
    → repeated lib settings env id run p s ≡ (
      ok (record {
        session_id = run.session_id;
        run_id = id;
        phase = row.phase;
        trace_id = run.trace_id;
        merged = false;
        duplicate_count = 1;
      }),
      s,
    )
unfolding repeated
repeated-same lib settings env id run p s row hash at =
    rw (repeated, (eq_iff run.request_hash (create_fingerprint lib settings env p)).1 hash, at) refl

repeated-other :
    (lib : Library) (settings : Settings) (env : Environment) (id : String) (run : DiagnosisRun)
    (p : CreateSessionRequest) (s : Store)
    → run.request_hash ≢ create_fingerprint lib settings env p
    → repeated lib settings env id run p s ≡ (err Error.idempotency_conflict, s)
unfolding repeated
repeated-other lib settings env id run p s other =
    ground (arith, other, eq_iff run.request_hash (create_fingerprint lib settings env p))

-- A session that is created under a key is created once: the same request under the key gives the same
-- response and changes nothing, whoever sends it and whenever, and a request with another fingerprint under
-- the key raises the conflict and changes nothing. The first request met neither an earlier run under the
-- key nor an open alarm, and its session has a new id.
pub create_session-once :
    (lib : Library) (settings : Settings) (env : Environment) (p : CreateSessionRequest)
    (key : String) (s : Store) (env' : Environment) (q : CreateSessionRequest)
    → truthy key ≡ true
    → existing_run (some key) s ≡ none
    → (hit_of lib settings env (alarm_of settings p) s).0 ≡ none
    → Table.get env.new_session s.sessions ≡ none
    → create_fingerprint lib settings env' q ≢ create_fingerprint lib settings env p
    → let r = create_session lib settings env (p) (some key) s in
      (create_session lib settings env' p (some key) r.1 ≡ r)
      × (create_session lib settings env' q (some key) r.1 ≡ (err Error.idempotency_conflict, r.1))
create_session-once lib settings env p key s env' q given new missed fresh other =
    let first = create_new lib settings env p (some key) s in
    let created = create_new-IsCreated lib settings env p (some key) s fresh in
    let run = first_run env (some key) (create_fingerprint lib settings env p) in
    let old = existing_run-add key env.new_run run first.1 s.runs given refl created.runs in
    rw (create_session-missed lib settings env p (some key) s new missed) (
      create_session-repeated lib settings env' p (some key) first.1 env.new_run run old
          ∙ repeated-same lib settings env' env.new_run run p first.1 (session_of p env) refl
              created.session
          ∙ create_new_lem lib settings env p (some key) s,
      create_session-repeated lib settings env' q (some key) first.1 env.new_run run old
          ∙ repeated-other lib settings env' env.new_run run q first.1 (λ e. other (sym e)),
    )
