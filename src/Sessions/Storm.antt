-- ===== src/Sessions/Storm.antt =====
-- Repeated alarms of one device in `create_session` of src/energy_agent/agent/execution_service.py.
use energy_agent_diagnosis.Common.{
  ℕ, ◌+◌, String, none, some, true, false, List, [], ◌∷◌, ◌≡◌, refl, sym, ap, ◌∙◌, map, length, leb,
  arith,
}
use mathlib.Core.Path.{subst}
use energy_agent_diagnosis.Common.Errors.{ok}
use energy_agent_diagnosis.Common.Table
use energy_agent_diagnosis.Common.Table.{get-modify_self}
use energy_agent_diagnosis.Sessions.Store.{DiagnosisSession, AlarmDedup, Store}
use energy_agent_diagnosis.Sessions.Requests.{Library, Settings, CreateSessionRequest}
use energy_agent_diagnosis.Sessions.Create.{
  Environment, AlarmKey, alarm_of, alarm_dedup_key, audit_of, hit_again, is_open, is_failed, hit,
  merge, create_session,
}
use energy_agent_diagnosis.Sessions.Created.{audit_of_lem}
use energy_agent_diagnosis.Sessions.Calls.{Call, apply, apply_all}

-- The alarm of a session that is open until `e` and has been hit `n` times.
pub record IsOpenAlarm (k session_id : String) (e n : ℕ) (s : Store) : Type 0 where
  pub row : AlarmDedup
  pub at : Table.get k s.alarms ≡ some row
  pub session : row.session_id ≡ session_id
  pub expiry : row.expires_at ≡ e
  pub count : row.hit_count ≡ n

module _ (lib : Library) (settings : Settings) where
  -- A request for the alarm with a key that comes before the time `e`.
  pub record IsRepeat (k : String) (e : ℕ) (env : Environment) (p : CreateSessionRequest)
      : Type 0 where
    pub alarm : AlarmKey
    pub asked : alarm_of settings p ≡ some alarm
    pub same : alarm_dedup_key lib alarm.device_id alarm.alarm_category ≡ k
    pub early : leb e env.now ≡ false

  -- Requests for one alarm, each of which comes within the window that the one before has opened: the
  -- first before `e`, and the last opens a window up to the last time.
  pub data Storm (k : String) : ℕ → List (Environment × CreateSessionRequest) → ℕ → Type 0 where
    over : {e : ℕ} → Storm k e [] e
    again :
        {e e' : ℕ} {env : Environment} {p : CreateSessionRequest}
        {rs : List (Environment × CreateSessionRequest)}
        → IsRepeat k e env p
        → Storm k (env.now + settings.window_seconds) rs e'
        → Storm k e ((env, p) ∷ rs) e'

  hit-is_open :
      (now : ℕ) (k alarm_id : String) (s : Store) (a : AlarmDedup)
      → Table.get k s.alarms ≡ some a
      → is_open now s a ≡ true
      → hit lib settings now k alarm_id s ≡ (
        some (a.session_id, a.hit_count + 1),
        record s { alarms = Table.modify k (hit_again lib settings now alarm_id) s.alarms },
      )
  unfolding hit
  hit-is_open now k alarm_id s a at met = rw (hit, at, met) refl

  create_session-merged :
      (env : Environment) (p : CreateSessionRequest) (s : Store) (a : AlarmKey) (row : AlarmDedup)
      (session : DiagnosisSession)
      → alarm_of settings p ≡ some a
      → Table.get (alarm_dedup_key lib a.device_id a.alarm_category) s.alarms ≡ some row
      → leb row.expires_at env.now ≡ false
      → Table.get row.session_id s.sessions ≡ some session
      → is_failed session.phase ≡ false
      → create_session lib settings env p none s ≡ (
        ok (record {
          session_id = row.session_id;
          run_id = session.run_id;
          phase = session.phase;
          trace_id = session.trace_id;
          merged = true;
          duplicate_count = row.hit_count + 1;
        }),
        audit_of settings env.actor "diagnosis.alarm_merged" row.session_id env.trace_id (record s {
          alarms =
              Table.modify
                (alarm_dedup_key lib a.device_id a.alarm_category)
                (hit_again lib settings env.now a.alarm_id)
                s.alarms;
        }),
      )
  unfolding create_session merge
  create_session-merged env p s a row session asked at early found live =
      let k = alarm_dedup_key lib a.device_id a.alarm_category in
      rw
        (
          create_session,
          asked,
          hit-is_open env.now k a.alarm_id s row at (rw (early, found, live) refl),
          merge,
          found,
        )
        refl

  abbrev pub creations : List (Environment × CreateSessionRequest) → List Call
  creations rs = map (λ r. Call.create r.0 r.1 none) rs

  module _ (k id : String) (session : DiagnosisSession)
      (live : is_failed session.phase ≡ false) where
    create_session-IsOpenAlarm :
        {e n : ℕ} (env : Environment) (p : CreateSessionRequest) (s : Store)
        → IsRepeat k e env p
        → IsOpenAlarm k id e n s
        → Table.get id s.sessions ≡ some session
        → IsOpenAlarm k id
            (env.now + settings.window_seconds)
            (n + 1)
            (create_session lib settings env p none s).1
          × ((create_session lib settings env p none s).1.sessions ≡ s.sessions)
          × ((create_session lib settings env p none s).1.runs ≡ s.runs)
    create_session-IsOpenAlarm env p s r o found =
        let k' = alarm_dedup_key lib r.alarm.device_id r.alarm.alarm_category in
        let at : Table.get k' s.alarms ≡ some o.row = rw (r.same) o.at in
        let f = hit_again lib settings env.now r.alarm.alarm_id in
        let s' = record s { alarms = Table.modify k' f s.alarms } in
        rw
          (
            create_session-merged env p s r.alarm o.row session r.asked at (rw (o.expiry) r.early)
                (rw (o.session) found) live,
            audit_of_lem settings env.actor "diagnosis.alarm_merged" o.row.session_id env.trace_id
                s',
          )
          (
            record {
              row = f o.row;
              at = rw (sym r.same) (get-modify_self k' f s.alarms o.row at);
              session = o.session;
              expiry = refl;
              count = ap (λ i. i + 1) o.count;
            },
            refl,
            refl,
          )

    creations-IsOpenAlarm :
        {e e' n : ℕ} (rs : List (Environment × CreateSessionRequest)) (s : Store)
        → Storm k e rs e'
        → IsOpenAlarm k id e n s
        → Table.get id s.sessions ≡ some session
        → let s' = apply_all lib settings (creations rs) s in
          IsOpenAlarm k id e' (n + length rs) s' × (s'.sessions ≡ s.sessions) × (s'.runs ≡ s.runs)
    unfolding apply apply_all
    creations-IsOpenAlarm {e} {e'} {n} _ s over o found =
        (subst (λ i. IsOpenAlarm k id e i s) (omega arith) o, refl, refl)
    creations-IsOpenAlarm {e} {e'} {n} _ s (again {env = env} {p = p} {rs = rs} r rest) o found =
        let (o', kept, runs) = create_session-IsOpenAlarm env p s r o found in
        let s' = (create_session lib settings env p none s).1 in
        let (last, kept', runs') =
          creations-IsOpenAlarm rs s' rest o' (ap (Table.get id) kept ∙ found) in
        (
          subst (λ i. IsOpenAlarm k id e' i (apply_all lib settings (creations rs) s'))
              (omega arith) last,
          kept' ∙ kept,
          runs' ∙ runs,
        )

    -- A storm of alarms makes no session: the requests for the alarm of an open session, each within the
    -- window that the one before has opened, add neither a session nor a run and leave the sessions as they
    -- are; a further one of them is answered with the session, its phase and its run, as merged, with the
    -- count of all hits. The session has not failed, and the requests have no key.
    pub create_session-Storm :
        {e e' n : ℕ} (rs : List (Environment × CreateSessionRequest)) (s : Store)
        (env : Environment) (p : CreateSessionRequest)
        → Storm k e rs e'
        → IsRepeat k e' env p
        → IsOpenAlarm k id e n s
        → Table.get id s.sessions ≡ some session
        → let s' = apply_all lib settings (creations rs) s in
          let r = create_session lib settings env p none s' in
          (r.0
            ≡ ok (record {
              session_id = id;
              run_id = session.run_id;
              phase = session.phase;
              trace_id = session.trace_id;
              merged = true;
              duplicate_count = n + length rs + 1;
            }))
          × (r.1.sessions ≡ s.sessions)
          × (r.1.runs ≡ s.runs)
    create_session-Storm rs s env p many r o found =
        let (o', kept, runs) = creations-IsOpenAlarm rs s many o found in
        let s' = apply_all lib settings (creations rs) s in
        let found' = ap (Table.get id) kept ∙ found in
        let (last, kept', runs') = create_session-IsOpenAlarm env p s' r o' found' in
        let k' = alarm_dedup_key lib r.alarm.device_id r.alarm.alarm_category in
        let at : Table.get k' s'.alarms ≡ some o'.row = rw (r.same) o'.at in
        (
          ap (λ i. i.0)
                (create_session-merged env p s' r.alarm o'.row session r.asked at
                  (rw (o'.expiry) r.early) (rw (o'.session) found') live)
              ∙ rw (o'.session, o'.count) refl,
          kept' ∙ kept,
          runs' ∙ runs,
        )
