-- ===== src/Cases/Service/Review.antt =====
-- src/energy_agent/cases/application.py: `patch`, `submit`, `review_case` and `disable`. A patch gives a
-- value or leaves the field as it is; a `null` for a field that the table requires is left out.
use energy_agent_diagnosis.Common.{
  String, Option, none, some, Bool, true, false, not, ◌&&◌, List, [], ◌∷◌, ◌==◌, string_eq, truthy?,
  if◌then◌else◌,
}
use energy_agent_diagnosis.Common.Errors.{Outcome, ok, err, Error, Action}
use energy_agent_diagnosis.Persistence.Index.{IndexOperation}
use energy_agent_diagnosis.Persistence.Cases.{CaseStatus, CaseIndexStatus, indexed, DiagnosisCase}
use energy_agent_diagnosis.Persistence.Database.{Database}
use energy_agent_diagnosis.Cases.Repository.{update_draft}
use energy_agent_diagnosis.Cases.Transition.{Transition, transition}
use energy_agent_diagnosis.Cases.Service.Requests.{
  Library, Settings, Actor, Environment, role_name, is_privileged, is_sync, is_empty, evidence_ids,
  missing_case_fields, get, queued_request, audited,
}
use energy_agent_diagnosis.Cases.Service.Indexing.{index_case, retire, retired, supersede}

-- `CasePatchRequest`; `none` is a field that the request does not set.
pub record CasePatchRequest : Type 0 where
  pub device_type : Option (Option String)
  pub device_model : Option (Option String)
  pub manufacturer : Option (Option String)
  pub alarm_name : Option (Option String)
  pub symptom_summary : Option (Option String)
  pub timeseries_features : Option (Option String)
  pub root_cause : Option String
  pub resolution_steps : Option (List String)
  pub safety_notes : Option (List String)
  pub evidence_refs : Option (List String)

abbrev pub or_kept : {A : Type 0} → Option A → A → A
or_kept none a = a
or_kept (some b) a = b

abbrev pub patched : CasePatchRequest → DiagnosisCase → DiagnosisCase
patched p c = record c {
  device_type = or_kept p.device_type c.device_type;
  device_model = or_kept p.device_model c.device_model;
  manufacturer = or_kept p.manufacturer c.manufacturer;
  alarm_name = or_kept p.alarm_name c.alarm_name;
  symptom_summary = or_kept p.symptom_summary c.symptom_summary;
  timeseries_features = or_kept p.timeseries_features c.timeseries_features;
  root_cause = or_kept p.root_cause c.root_cause;
  resolution_steps = or_kept p.resolution_steps c.resolution_steps;
  safety_notes = or_kept p.safety_notes c.safety_notes;
  evidence_refs = or_kept p.evidence_refs c.evidence_refs;
}

pub data Decision : Type 0 where
  approve reject : Decision

-- The decision's text, state and action.
abbrev pub decision_name : Decision → String
decision_name approve = "approve"
decision_name reject = "reject"

abbrev pub decided : Decision → CaseStatus
decided approve = CaseStatus.approved
decided reject = CaseStatus.rejected

abbrev pub decision_action : Decision → String
decision_action approve = "case.approved"
decision_action reject = "case.rejected"

abbrev pub is_approve : Decision → Bool
is_approve approve = true
is_approve reject = false

-- `index_status == INDEXED`
abbrev pub is_indexed : CaseIndexStatus → Bool
is_indexed indexed = true
is_indexed _ = false

module _ (lib : Library) (settings : Settings) (env : Environment) (actor : Actor) where
  -- `patch`
  unfoldable pub patch : String → CasePatchRequest → Action Database DiagnosisCase
  patch case_id p db =
      audited env actor "case.updated"
        (update_draft case_id (patched p) actor.actor_id (is_privileged actor.actor_role) db)

  -- After a transition: a replay is not audited again.
  unfoldable pub audited_once :
      String → Outcome (DiagnosisCase × Bool) × Database → Outcome DiagnosisCase × Database
  audited_once action (err e, db) = (err e, db)
  audited_once action (ok (c, replayed), db) =
      if replayed then (ok c, db) else audited env actor action (ok c, db)

  abbrev pub submitting : String → Option String → Transition
  submitting case_id idempotency_key = record {
    expected = CaseStatus.draft;
    target = CaseStatus.pending_review;
    actor_id = actor.actor_id;
    actor_role = role_name actor.actor_role;
    action = "case.submitted";
    trace_id = env.trace_id;
    request_hash = lib.fingerprint "case.submit" (("case_id", some case_id) ∷ []);
    idempotency_key = idempotency_key;
    comment = none;
    updates = λ c. c;
    index_request = none;
  }

  unfoldable pub submit_found :
      String → Option String → DiagnosisCase → Action Database DiagnosisCase
  submit_found case_id idempotency_key c db =
      if not (c.created_by == actor.actor_id) && not (is_privileged actor.actor_role)
      then (err Error.case_not_editable, db)
      else if not (is_empty (missing_case_fields c (evidence_ids (env.latest c.source_session_id))))
      then (err Error.case_not_ready, db)
      else audited_once "case.submitted" (
          transition settings.has_index env.new_job case_id (submitting case_id idempotency_key) db)

  -- `submit`
  unfoldable pub submit : String → Option String → Action Database DiagnosisCase
  submit case_id idempotency_key db =
      elim (get case_id db) as (λ _. Outcome DiagnosisCase × Database) [
        | err e ↦ (err e, db)
        | ok c ↦ submit_found case_id idempotency_key c db
      ]

  -- The assignments of a review; an approval with a job also queues the case.
  abbrev pub reviewed : Decision → Option String → DiagnosisCase → DiagnosisCase
  reviewed d comment c = record c {
    reviewer = some actor.actor_id;
    review_comment = comment;
    index_status =
        if is_approve d && not (is_sync settings.index_execution_mode)
        then CaseIndexStatus.queued
        else c.index_status;
    is_active =
        if is_approve d && not (is_sync settings.index_execution_mode) then false else c.is_active;
  }

  abbrev pub reviewing :
      String → Decision → Option String → Option String → DiagnosisCase → Transition
  reviewing case_id d comment idempotency_key current = record {
    expected = CaseStatus.pending_review;
    target = decided d;
    actor_id = actor.actor_id;
    actor_role = role_name actor.actor_role;
    action = decision_action d;
    trace_id = env.trace_id;
    request_hash = lib.fingerprint "case.review" (
        ("case_id", some case_id)
        ∷ ("decision", some (decision_name d))
        ∷ ("comment", comment)
        ∷ []);
    idempotency_key = idempotency_key;
    comment = comment;
    updates = reviewed d comment;
    index_request =
        if is_approve d
        then queued_request lib settings env current IndexOperation.upsert
        else none;
  }

  -- An approved case is indexed, and then replaces the case that it supersedes, where there is one.
  unfoldable pub replace : Outcome DiagnosisCase × Database → Outcome DiagnosisCase × Database
  replace (err e, db) = (err e, db)
  replace (ok c, db) = elim c.supersedes_case_id as (λ _. Outcome DiagnosisCase × Database) [
    | none ↦ (ok c, db)
    | some old_id ↦
        let (old, db') = supersede lib settings env actor old_id db in
        if is_indexed c.index_status && truthy? (some old_id)
        then elim old as (λ _. Outcome DiagnosisCase × Database) [
          | err e ↦ (err e, db')
          | ok _ ↦ (ok c, db')
        ]
        else (ok c, db)
  ]

  unfoldable pub publish : Decision → DiagnosisCase → Action Database DiagnosisCase
  publish approve c db = replace (
      if is_sync settings.index_execution_mode
      then index_case lib settings env actor "case" c db
      else (ok c, db))
  publish reject c db = (ok c, db)

  unfoldable pub after_review :
      Decision → Outcome (DiagnosisCase × Bool) × Database → Outcome DiagnosisCase × Database
  after_review d (err e, db) = (err e, db)
  after_review d (ok (c, replayed), db) =
      let published = publish d c db in
      if replayed then (ok c, db) else audited env actor (decision_action d) published

  unfoldable pub review_found :
      String
      → Decision
      → Option String
      → Option String
      → DiagnosisCase
      → Action Database DiagnosisCase
  review_found case_id d comment idempotency_key c db =
      if c.created_by == actor.actor_id
      then (err Error.self_review_forbidden, db)
      else after_review d (
          transition settings.has_index env.new_job case_id
            (reviewing case_id d comment idempotency_key c) db)

  -- `review_case`
  unfoldable pub review_case :
      String → Decision → Option String → Option String → Action Database DiagnosisCase
  review_case case_id d comment idempotency_key db =
      elim (get case_id db) as (λ _. Outcome DiagnosisCase × Database) [
        | err e ↦ (err e, db)
        | ok c ↦ review_found case_id d comment idempotency_key c db
      ]

  abbrev pub disabling : String → String → Option String → DiagnosisCase → Transition
  disabling case_id reason idempotency_key current = record {
    expected = CaseStatus.approved;
    target = CaseStatus.disabled;
    actor_id = actor.actor_id;
    actor_role = role_name actor.actor_role;
    action = "case.disabled";
    trace_id = env.trace_id;
    request_hash =
        lib.fingerprint "case.disable" (("case_id", some case_id) ∷ ("reason", some reason) ∷ []);
    idempotency_key = idempotency_key;
    comment = some reason;
    updates = retire lib settings env actor;
    index_request = queued_request lib settings env current IndexOperation.tombstone;
  }

  unfoldable pub disable_found :
      String → String → Option String → DiagnosisCase → Action Database DiagnosisCase
  disable_found case_id reason idempotency_key current db =
      retired lib settings env actor "case.disable" "case.disabled" (
        transition settings.has_index env.new_job case_id
          (disabling case_id reason idempotency_key current) db)

  -- `disable`
  unfoldable pub disable : String → String → Option String → Action Database DiagnosisCase
  disable case_id reason idempotency_key db =
      elim (get case_id db) as (λ _. Outcome DiagnosisCase × Database) [
        | err e ↦ (err e, db)
        | ok current ↦ disable_found case_id reason idempotency_key current db
      ]
