-- ===== src/Cases/Service/Diagnosis.antt =====
-- src/energy_agent/cases/application.py: `review_diagnosis` and `_create_draft`, with the `append` of
-- persistence/repositories/diagnosis_review.py. The validation of the tool's input before the review is
-- written, which refuses some actors, is left out: the model takes any of them.
use Prim.Native.String.{◌++◌ as append}
use energy_agent_diagnosis.Common.{
  String, Option, none, some, Bool, true, false, not, ◌&&◌, List, [], ◌∷◌, ◌++◌, ◌==◌, string_eq,
  any, contains, truthy?, if◌then◌else◌,
}
use energy_agent_diagnosis.Common.Errors.{Outcome, ok, err, Error, Action}
use energy_agent_diagnosis.Common.Table
use energy_agent_diagnosis.Agent.Workflow.{DiagnosisPhase}
use energy_agent_diagnosis.Persistence.Cases.{
  CaseStatus, CaseIndexStatus, DiagnosisCase, DiagnosisReviewResult, confirmed, rejected,
  needs_more_info, DiagnosisReview, DiagnosisSession, TimelineEventType, review_submitted,
  case_created,
}
use energy_agent_diagnosis.Persistence.Database.{Database, write_audit}
use energy_agent_diagnosis.Cases.Repository.{get_by_review, create, next_version}
use energy_agent_diagnosis.Cases.Service.Timeline
use energy_agent_diagnosis.Cases.Service.Timeline.{event_of}
use energy_agent_diagnosis.Cases.Service.Requests.{
  Library, Settings, Actor, Environment, EvidenceItem, DiagnosisResult, evidence_ids, audit_case,
}

-- `DiagnosisReviewRequest`; `fields` is the request as the fingerprint takes it.
pub record DiagnosisReviewRequest : Type 0 where
  pub review_result : DiagnosisReviewResult
  pub root_cause : Option String
  pub resolution_steps : List String
  pub evidence_refs : List String
  pub source_ticket_id : Option String
  pub override_reason : Option String
  pub fields : List (String × Option String)

abbrev pub action_of : DiagnosisReviewResult → String
action_of confirmed = "diagnosis.review.confirmed"
action_of rejected = "diagnosis.review.rejected"
action_of needs_more_info = "diagnosis.review.needs_more_info"

abbrev pub is_confirmed : DiagnosisReviewResult → Bool
is_confirmed confirmed = true
is_confirmed _ = false

abbrev pub is_reviewable : DiagnosisPhase → Bool
is_reviewable DiagnosisPhase.completed = true
is_reviewable DiagnosisPhase.need_user_input = true
is_reviewable _ = false

-- `payload.root_cause not in candidates`
abbrev pub is_candidate : Option String → List String → Bool
is_candidate none causes = false
is_candidate (some cause) causes = contains causes cause

-- The review of a session under a key.
abbrev pub has_review_key : String → String → DiagnosisReview → Bool
has_review_key session_id key r =
    r.session_id == session_id && elim r.idempotency_key [ none ↦ false | some k ↦ k == key ]

unfoldable pub find_review : String → Option String → List DiagnosisReview → Option DiagnosisReview
find_review session_id none rs = none
find_review session_id (some key) [] = none
find_review session_id (some key) (r ∷ rs) =
    let rest = find_review session_id (some key) rs in
    if has_review_key session_id key r then some r else rest

-- `DiagnosisReviewRepository.append`: an empty key is not looked up, and the table refuses it twice.
unfoldable pub append_review : DiagnosisReview → Action Database DiagnosisReview
append_review r db =
    elim (find_review r.session_id r.idempotency_key db.reviews)
      as (λ _. Outcome DiagnosisReview × Database) [
        | none ↦ (ok r, record db { reviews = db.reviews ++ r ∷ [] })
        | some old ↦
            if not (truthy? r.idempotency_key)
            then (err Error.integrity_error, db)
            else if old.request_hash == r.request_hash
            then (ok old, db)
            else (err Error.idempotency_conflict, db)
      ]

-- The first evidence of a source.
unfoldable pub first_of : String → List EvidenceItem → Option EvidenceItem
first_of source_type [] = none
first_of source_type (e ∷ es) =
    let rest = first_of source_type es in if e.source_type == source_type then some e else rest

-- A field of what may be missing.
abbrev pub of_item : (EvidenceItem → Option String) → Option EvidenceItem → Option String
of_item f none = none
of_item f (some e) = f e

module _ (lib : Library) (settings : Settings) (env : Environment) (actor : Actor) where
  abbrev pub draft_of :
      String
      → String
      → DiagnosisReviewRequest
      → DiagnosisResult
      → DiagnosisSession
      → String
      → Database
      → DiagnosisCase
  draft_of session_id review_id p result session root_cause db = record {
    case_id = env.new_case;
    source_session_id = session_id;
    source_run_id = result.run_id;
    source_review_id = review_id;
    source_ticket_id = p.source_ticket_id;
    device_type = of_item (λ e. e.device_type) (first_of "device" result.evidence);
    device_model = of_item (λ e. e.device_model) (first_of "device" result.evidence);
    manufacturer = of_item (λ e. e.manufacturer) (first_of "device" result.evidence);
    alarm_name = session.alarm_name;
    symptom_summary = some result.summary;
    timeseries_features = of_item (λ e. some e.summary) (first_of "timeseries" result.evidence);
    root_cause = root_cause;
    resolution_steps = p.resolution_steps;
    safety_notes = result.safety_notes;
    evidence_refs = p.evidence_refs;
    review_status = CaseStatus.draft;
    reviewer = none;
    review_comment = none;
    case_version = next_version session_id db;
    embedding_text = none;
    index_status = CaseIndexStatus.pending;
    index_error_code = none;
    is_active = false;
    supersedes_case_id = none;
    index_job_id = none;
    created_by = actor.actor_id;
  }

  -- The audit of a case that was created.
  abbrev pub audit_created : Outcome DiagnosisCase × Database → Outcome DiagnosisCase × Database
  audit_created (err e, db) = (err e, db)
  audit_created (ok c, db) = (ok c, audit_case env actor "case.created" c db)

  -- `_create_draft`
  unfoldable pub create_draft :
      String → String → DiagnosisReviewRequest → DiagnosisResult → Action Database DiagnosisCase
  create_draft session_id review_id p result db =
      elim (Table.get session_id db.sessions) as (λ _. Outcome DiagnosisCase × Database) [
        | none ↦ (err Error.assertion_error, db)
        | some session ↦ elim p.root_cause as (λ _. Outcome DiagnosisCase × Database) [
          | none ↦ (err Error.assertion_error, db)
          | some cause ↦
              audit_created (create (draft_of session_id review_id p result session cause db) db)
        ]
      ]

  abbrev pub with_status : DiagnosisReviewResult → DiagnosisSession → DiagnosisSession
  with_status r s = record s { latest_review_status = some r }

  abbrev pub asks_more : DiagnosisSession → DiagnosisSession
  asks_more s = record s {
    phase = DiagnosisPhase.need_user_input;
    latest_review_status = some needs_more_info;
  }

  -- The case of the review, made unless the review has one already.
  unfoldable pub confirmed_case :
      String
      → String
      → DiagnosisReviewRequest
      → DiagnosisResult
      → Action Database (Option DiagnosisCase)
  confirmed_case session_id review_id p result db =
      elim (get_by_review review_id db) as (λ _. Outcome (Option DiagnosisCase) × Database) [
        | err e ↦ (err e, db)
        | ok (some c) ↦ (ok (some c), db)
        | ok none ↦
            let (c, db') = create_draft session_id review_id p result db in
            elim c as (λ _. Outcome (Option DiagnosisCase) × Database) [
              | err e ↦ (err e, db')
              | ok d ↦ (ok (some d), db')
            ]
      ]

  -- What a stored review does to its session and its case.
  unfoldable pub apply_review :
      DiagnosisReviewResult
      → String
      → String
      → DiagnosisReviewRequest
      → DiagnosisResult
      → Action Database (Option DiagnosisCase)
  apply_review confirmed session_id review_id p result db =
      confirmed_case session_id review_id p result db
  apply_review needs_more_info session_id review_id p result db =
      (ok none, record db { sessions = Table.modify session_id asks_more db.sessions })
  apply_review rejected session_id review_id p result db =
      (ok none, record db { sessions = Table.modify session_id (with_status rejected) db.sessions })

  abbrev pub add_timeline : String → TimelineEventType → String → String → Database → Database
  add_timeline session_id event_type key run_id db = record db {
    timeline =
        Timeline.append
          (event_of lib.sha256 session_id event_type key (some run_id) (some actor.actor_id))
          db.timeline;
  }

  abbrev pub audit_review : String → DiagnosisReviewResult → Database → Database
  audit_review session_id r = write_audit (record {
    actor_id = actor.actor_id;
    action = action_of r;
    resource_type = "diagnosis";
    resource_id = session_id;
    trace_id = env.trace_id;
    outcome = "succeeded";
  })

  -- The end of a review: the audit, the timeline, and the ids of the review and of its case.
  unfoldable pub reviewed_diagnosis :
      String
      → String
      → String
      → DiagnosisReviewResult
      → Outcome (Option DiagnosisCase) × Database
      → Outcome (String × Option String) × Database
  reviewed_diagnosis session_id run_id review_id r (err e, db) = (err e, db)
  reviewed_diagnosis session_id run_id review_id r (ok none, db) =
      let db' = audit_review session_id r db in
      (
        ok (review_id, none),
        if settings.has_timeline
            then add_timeline session_id review_submitted review_id run_id db'
            else db',
      )
  reviewed_diagnosis session_id run_id review_id r (ok (some c), db) =
      let db' = audit_review session_id r db in
      (
        ok (review_id, some c.case_id),
        if settings.has_timeline
            then add_timeline session_id case_created c.case_id run_id
                (add_timeline session_id review_submitted review_id run_id db')
            else db',
      )

  abbrev pub review_of :
      String → DiagnosisReviewRequest → Option String → DiagnosisResult → DiagnosisReview
  review_of session_id p idempotency_key result = record {
    review_id = env.new_review;
    session_id = session_id;
    run_id = result.run_id;
    actor_id = actor.actor_id;
    review_result = p.review_result;
    idempotency_key = idempotency_key;
    request_hash = lib.fingerprint (append "diagnosis_review:" session_id) p.fields;
  }

  unfoldable pub review_stored :
      String
      → DiagnosisReviewRequest
      → DiagnosisResult
      → Outcome DiagnosisReview × Database
      → Outcome (String × Option String) × Database
  review_stored session_id p result (err e, db) = (err e, db)
  review_stored session_id p result (ok r, db) =
      reviewed_diagnosis session_id result.run_id r.review_id p.review_result
        (apply_review p.review_result session_id r.review_id p result db)

  unfoldable pub review_session :
      String
      → DiagnosisReviewRequest
      → Option String
      → Option DiagnosisSession
      → Option DiagnosisResult
      → Action Database (String × Option String)
  review_session session_id p idempotency_key (some session) (some result) db =
      if not (is_reviewable session.phase)
      then (err Error.session_not_reviewable, db)
      else if any (λ ref. not (contains (evidence_ids (some result)) ref)) p.evidence_refs
      then (err Error.invalid_evidence_reference, db)
      else if is_confirmed p.review_result
          && not (is_candidate p.root_cause result.candidate_causes)
          && not (truthy? p.override_reason)
      then (err Error.root_cause_override_reason_required, db)
      else review_stored session_id p result
          (append_review (review_of session_id p idempotency_key result) db)
  review_session session_id p idempotency_key _ _ db = (err Error.session_not_reviewable, db)

  -- `review_diagnosis`: the ids of the review and of its case.
  unfoldable pub review_diagnosis :
      String → DiagnosisReviewRequest → Option String → Action Database (String × Option String)
  review_diagnosis session_id p idempotency_key db =
      review_session session_id p idempotency_key (Table.get session_id db.sessions)
        (env.latest session_id) db
