-- ===== src/Sessions/Store.antt =====
-- What a diagnosis session leaves: the tables of src/energy_agent/persistence/models.py with the methods of
-- persistence/repositories (diagnosis_session.py, diagnosis_run.py, diagnosis_step_log.py), and the memory of
-- memory/session_store.py. Rows are in the order of their creation.
use energy_agent_diagnosis.Common.{
  ℕ, ◌+◌, String, Option, none, some, Bool, false, ◌&&◌, List, [], ◌∷◌, ◌++◌, ◌==◌, string_eq, ◌≡◌,
  refl, arith, eq_iff, eq_refl, if◌then◌else◌,
}
use energy_agent_diagnosis.Common.Errors.{Outcome, ok, err, Error}
use energy_agent_diagnosis.Common.Table
use energy_agent_diagnosis.Common.Table.{Table}
use energy_agent_diagnosis.Agent.Workflow.{DiagnosisPhase}
use energy_agent_diagnosis.Guardrails.Decisions.{RiskLevel, GuardrailStatus}
use energy_agent_diagnosis.Persistence.Cases.{TimelineEvent, AuditEvent}
use energy_agent_diagnosis.Cases.Service.Timeline.{max_sequence}
use energy_agent_diagnosis.Cases.Service.Timeline
use energy_agent_diagnosis.Sessions.State.{SessionSource, StructuredDiagnosisResult, SessionMemory}

-- `DiagnosisSessionModel`
pub record DiagnosisSession : Type 0 where
  pub source : SessionSource
  pub site_id : Option String
  pub device_id : Option String
  pub alarm_id : Option String
  pub alarm_name : Option String
  pub phase : DiagnosisPhase
  pub final_summary : Option String
  pub risk_level : RiskLevel
  pub trace_id : String
  pub run_id : String
  pub created_by : Option String

-- `DiagnosisRunModel`
pub record DiagnosisRun : Type 0 where
  pub session_id : String
  pub trace_id : String
  pub idempotency_key : Option String
  pub request_hash : String
  pub phase : DiagnosisPhase
  pub status : String
  pub parent_run_id : Option String
  pub run_type : String
  pub diagnosis_template_id : Option String
  pub diagnosis_template_version : Option String
  pub alarm_category : Option String
  pub guardrail_status : Option GuardrailStatus
  pub failure_category : Option String

-- `DiagnosisResultModel`
pub record ResultRow : Type 0 where
  pub session_id : String
  pub result : StructuredDiagnosisResult

-- `DiagnosisStepLogModel`, without its snapshots.
pub record StepLog : Type 0 where
  pub session_id : String
  pub run_id : String
  pub trace_id : String
  pub step_name : String
  pub step_status : String
  pub error_code : Option String

-- `DiagnosisAlarmDedupModel`
pub record AlarmDedup : Type 0 where
  pub device_id : String
  pub alarm_category : String
  pub session_id : String
  pub alarm_ids : List String
  pub expires_at : ℕ
  pub hit_count : ℕ

pub record Store : Type 0 where
  pub sessions : Table DiagnosisSession
  pub runs : Table DiagnosisRun
  pub results : Table ResultRow
  pub step_logs : List StepLog
  pub timeline : List TimelineEvent
  pub audit : List AuditEvent
  pub memory : Table SessionMemory
  pub alarms : Table AlarmDedup

-- `client.set`: the value of a key is replaced.
module _ {ℓ} {A : Type ℓ} where
  unfoldable pub set : String → A → Table A → Table A
  set k a [] = (k, a) ∷ []
  set k a ((j, b) ∷ t) = if j == k then (k, a) ∷ t else (j, b) ∷ set k a t

  -- The expiry of a key.
  unfoldable pub remove : String → Table A → Table A
  remove k [] = []
  remove k ((j, b) ∷ t) = let rest = remove k t in if j == k then rest else (j, b) ∷ rest

  pub get-set :
      (k j : String) (a : A) (t : Table A)
      → Table.get j (set k a t) ≡ (if k == j then some a else Table.get j t)
  unfolding Table.get set
  get-set k j a [] = ground arith
  get-set k j a ((i, b) ∷ t) = ground (arith, eq_iff k j, eq_iff i k, eq_iff i j, get-set k j a t)

  pub get-set_self : (k : String) (a : A) (t : Table A) → Table.get k (set k a t) ≡ some a
  get-set_self k a t = rw (get-set, eq_refl) refl

-- What follows a call that may raise.
abbrev pub and_then :
    {A : Type 0} → Outcome (Unit {0}) × Store → (Store → Outcome A × Store) → Outcome A × Store
and_then (err e, s) f = (err e, s)
and_then (ok done, s) f = f s

-- `DiagnosisSessionRepository.update`
unfoldable pub update_session :
    String → (DiagnosisSession → DiagnosisSession) → Store → Outcome (Unit {0}) × Store
update_session session_id f s =
    elim (Table.get session_id s.sessions) as (λ _. Outcome (Unit {0}) × Store) [
      | none ↦ (err Error.resource_not_found, s)
      | some row ↦ (ok tt, record s { sessions = Table.modify session_id f s.sessions })
    ]

pub update_session-ok :
    (session_id : String) (f : DiagnosisSession → DiagnosisSession) (s : Store)
    (row : DiagnosisSession)
    → Table.get session_id s.sessions ≡ some row
    → update_session session_id f s
      ≡ (ok tt, record s { sessions = Table.modify session_id f s.sessions })
unfolding update_session
update_session-ok session_id f s row at = rw (update_session, at) refl

abbrev pub phase_and_run : DiagnosisPhase → String → DiagnosisSession → DiagnosisSession
phase_and_run phase run_id row = record row { phase = phase; run_id = run_id }

-- The event of a run takes the next number of its session.
abbrev pub with_event :
    Option (ℕ → TimelineEvent) → String → List TimelineEvent → List TimelineEvent
with_event none session_id es = es
with_event (some event) session_id es = es ++ event (max_sequence session_id es + 1) ∷ []

-- `DiagnosisRunRepository.create`
abbrev pub create_run : String → DiagnosisRun → Option (ℕ → TimelineEvent) → Store → Store
create_run id run event s = record s {
  runs = Table.add id run s.runs;
  timeline = with_event event run.session_id s.timeline;
}

abbrev pub has_key : String → Option String → Bool
has_key key none = false
has_key key (some k) = k == key

-- The runs of a session with a key, then `scalar_one_or_none`.
unfoldable pub runs_with_key : String → String → Table DiagnosisRun → Table DiagnosisRun
runs_with_key session_id key [] = []
runs_with_key session_id key ((id, r) ∷ t) =
    let rest = runs_with_key session_id key t in
    if r.session_id == session_id && has_key key r.idempotency_key then (id, r) ∷ rest else rest

abbrev pub one_or_none : Table DiagnosisRun → Outcome (Option (String × DiagnosisRun))
one_or_none [] = ok none
one_or_none (r ∷ []) = ok (some r)
one_or_none (r ∷ r' ∷ rs) = err Error.dependency_unavailable

unfoldable pub find_idempotent :
    String → String → Table DiagnosisRun → Outcome (Option (String × DiagnosisRun))
unfolding runs_with_key
find_idempotent session_id key t = one_or_none (runs_with_key session_id key t)

-- The newest row that passes a test: `order_by(created_at.desc()).limit(1)`.
module _ {ℓ} {A : Type ℓ} where
  unfoldable pub latest : (A → Bool) → Table A → Option (String × A)
  latest p [] = none
  latest p ((id, a) ∷ t) = elim (latest p t) as (λ _. Option (String × A)) [
    | some newer ↦ some newer
    | none ↦ if p a then some (id, a) else none
  ]

unfoldable pub find_idempotent_global : String → Table DiagnosisRun → Option (String × DiagnosisRun)
find_idempotent_global key t = latest (λ r. has_key key r.idempotency_key) t

unfoldable pub latest_run : String → Table DiagnosisRun → Option (String × DiagnosisRun)
latest_run session_id t = latest (λ r. r.session_id == session_id) t

unfoldable pub latest_result : String → Table ResultRow → Option (String × ResultRow)
latest_result session_id t = latest (λ r. r.session_id == session_id) t

-- A run that is not there is left alone.
abbrev pub modify_run : String → (DiagnosisRun → DiagnosisRun) → Store → Store
modify_run run_id f s = record s { runs = Table.modify run_id f s.runs }

abbrev pub finished : DiagnosisPhase → String → DiagnosisRun → DiagnosisRun
finished phase status r = record r { phase = phase; status = status }

abbrev pub templated : Option String → Option String → Option String → DiagnosisRun → DiagnosisRun
templated template version category r = record r {
  diagnosis_template_id = template;
  diagnosis_template_version = version;
  alarm_category = category;
}

abbrev pub hardened : Option GuardrailStatus → Option String → DiagnosisRun → DiagnosisRun
hardened status category r = record r { guardrail_status = status; failure_category = category }

-- `DiagnosisResultRepository.upsert`
abbrev pub upsert_result : String → ResultRow → Store → Store
upsert_result run_id row s = record s { results = set run_id row s.results }

abbrev pub log : StepLog → Store → Store
log l s = record s { step_logs = s.step_logs ++ l ∷ [] }

abbrev pub save_memory : SessionMemory → Store → Store
save_memory m s = record s { memory = set m.session_id m s.memory }

abbrev pub append_event : (ℕ → TimelineEvent) → Store → Store
append_event event s = record s { timeline = Timeline.append event s.timeline }

abbrev pub write_audit : AuditEvent → Store → Store
write_audit e s = record s { audit = s.audit ++ e ∷ [] }
