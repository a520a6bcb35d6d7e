-- ===== src/Cases/Service/Revision.antt =====
-- src/energy_agent/cases/application.py: `revision` and `reindex`, whose repeats under a key are looked up
-- before their guards.
use energy_agent_diagnosis.Common.{
  String, Option, none, some, Bool, true, false, not, ◌&&◌, List, ◌∷◌, [], ◌==◌, string_eq, truthy?,
  if◌then◌else◌,
}
use energy_agent_diagnosis.Common.Errors.{Outcome, ok, err, Error, Action}
use energy_agent_diagnosis.Persistence.Index.{IndexOperation}
use energy_agent_diagnosis.Persistence.Cases.{
  CaseStatus, status_eq, approved, rejected, disabled, superseded, CaseIndexStatus, pending, failed,
  degraded, DiagnosisCase, CaseReviewEvent,
}
use energy_agent_diagnosis.Persistence.Database.{Database}
use energy_agent_diagnosis.Cases.Repository
use energy_agent_diagnosis.Cases.Repository.{append_event, create, next_version}
use energy_agent_diagnosis.Cases.Transition.{queue_index, earlier}
use energy_agent_diagnosis.Cases.Service.Requests.{
  Library, Settings, Actor, Environment, role_name, is_sync, get, index_request, audit_case,
  audited,
}
use energy_agent_diagnosis.Cases.Service.Indexing.{index_case, tombstone}
use energy_agent_diagnosis.Cases.Service.Review.{CasePatchRequest, patched, submit}

abbrev pub is_revisable : CaseStatus → Bool
is_revisable approved = true
is_revisable rejected = true
is_revisable _ = false

abbrev pub is_withdrawn : CaseStatus → Bool
is_withdrawn disabled = true
is_withdrawn superseded = true
is_withdrawn _ = false

-- The index statuses that a reindexing repairs.
abbrev pub is_repairable : CaseIndexStatus → Bool
is_repairable pending = true
is_repairable failed = true
is_repairable degraded = true
is_repairable _ = false

abbrev pub retry_upsert : DiagnosisCase → Bool
retry_upsert c = c.review_status == approved && is_repairable c.index_status

abbrev pub retry_tombstone : DiagnosisCase → Bool
retry_tombstone c = is_withdrawn c.review_status && is_repairable c.index_status

module _ (lib : Library) (settings : Settings) (env : Environment) (actor : Actor) where
  -- An event that leaves the state of its case.
  abbrev pub event_at :
      String → String → Option String → Option String → String → CaseStatus → CaseReviewEvent
  event_at case_id action comment idempotency_key hash status = record {
    case_id = case_id;
    actor_id = actor.actor_id;
    actor_role = role_name actor.actor_role;
    action = action;
    from_status = status;
    to_status = status;
    comment = comment;
    idempotency_key = idempotency_key;
    request_hash = hash;
    trace_id = env.trace_id;
  }

  -- The values of a revision of a case.
  abbrev pub revision_of : CasePatchRequest → DiagnosisCase → Database → DiagnosisCase
  revision_of p original db = record (patched p original) {
    case_id = env.new_case;
    case_version = next_version original.source_session_id db;
    review_status = CaseStatus.draft;
    reviewer = none;
    review_comment = none;
    embedding_text = none;
    index_status = CaseIndexStatus.pending;
    index_error_code = none;
    is_active = false;
    supersedes_case_id = some original.case_id;
    index_job_id = none;
    created_by = actor.actor_id;
  }

  -- After the event of a revision is added.
  unfoldable pub revised :
      Bool
      → Option String
      → DiagnosisCase
      → Outcome (Unit {0}) × Database
      → Outcome DiagnosisCase × Database
  revised submit_for_review idempotency_key c (err e, db) = (err e, db)
  revised submit_for_review idempotency_key c (ok _, db) =
      let db' = audit_case env actor "case.revision_created" c db in
      if submit_for_review
      then submit lib settings env actor c.case_id idempotency_key db'
      else (ok c, db')

  unfoldable pub revise_created :
      String
      → Bool
      → Option String
      → String
      → CaseStatus
      → Outcome DiagnosisCase × Database
      → Outcome DiagnosisCase × Database
  revise_created case_id submit_for_review idempotency_key hash status (err e, db) = (err e, db)
  revise_created case_id submit_for_review idempotency_key hash status (ok c, db) =
      revised submit_for_review idempotency_key c (
        append_event
          (event_at case_id "case.revision_created" (some c.case_id) idempotency_key hash status)
          db)

  unfoldable pub revise :
      String
      → CasePatchRequest
      → Bool
      → Option String
      → String
      → DiagnosisCase
      → Action Database DiagnosisCase
  revise case_id p submit_for_review idempotency_key hash original db =
      if is_revisable original.review_status
      then revise_created case_id submit_for_review idempotency_key hash original.review_status
          (create (revision_of p original db) db)
      else (err Error.case_state_conflict, db)

  -- The case that an earlier revision under the key has made, if it is there.
  abbrev pub earlier_revision : Option String → Database → Option DiagnosisCase
  earlier_revision none db = none
  earlier_revision (some comment) db =
      if truthy? (some comment) then Repository.get comment db else none

  unfoldable pub revise_event :
      String
      → CasePatchRequest
      → Bool
      → Option String
      → String
      → DiagnosisCase
      → Option CaseReviewEvent
      → Action Database DiagnosisCase
  revise_event case_id p submit_for_review idempotency_key hash original none db =
      revise case_id p submit_for_review idempotency_key hash original db
  revise_event case_id p submit_for_review idempotency_key hash original (some e) db =
      if e.request_hash == hash
      then elim (earlier_revision e.comment db) as (λ _. Outcome DiagnosisCase × Database) [
        | none ↦ revise case_id p submit_for_review idempotency_key hash original db
        | some c ↦ (ok c, db)
      ]
      else (err Error.case_state_conflict, db)

  -- `revision`; `fields` is the request as the fingerprint takes it.
  unfoldable pub revision :
      String
      → CasePatchRequest
      → Bool
      → List (String × Option String)
      → Option String
      → Action Database DiagnosisCase
  revision case_id p submit_for_review fields idempotency_key db =
      elim (get case_id db) as (λ _. Outcome DiagnosisCase × Database) [
        | err e ↦ (err e, db)
        | ok original ↦
            revise_event case_id p submit_for_review idempotency_key
              (lib.fingerprint "case.revision" (("case_id", some case_id) ∷ fields)) original
              (earlier case_id idempotency_key db) db
      ]

  unfoldable pub reindex_started :
      DiagnosisCase → Outcome (Unit {0}) × Database → Outcome DiagnosisCase × Database
  reindex_started c (err e, db) = (err e, db)
  reindex_started c (ok _, db) =
      let db' = audit_case env actor "case.reindex_started" c db in
      if retry_tombstone c
      then tombstone lib settings env actor "case.tombstone_retry" c db'
      else index_case lib settings env actor "case.reindex" c db'

  unfoldable pub reindex_fresh :
      String → Option String → String → DiagnosisCase → Action Database DiagnosisCase
  reindex_fresh case_id idempotency_key hash c db =
      let operation = if retry_upsert c then IndexOperation.reindex else IndexOperation.tombstone in
      if not (retry_upsert c) && not (retry_tombstone c)
      then (err Error.case_not_indexed, db)
      else if is_sync settings.index_execution_mode
      then reindex_started c (
          append_event
            (event_at case_id "case.reindex_started" none idempotency_key hash c.review_status) db)
      else audited env actor "case.reindex_queued" (
          queue_index settings.has_index env.new_job case_id
            (index_request lib settings env c operation)
            (event_at case_id "case.reindex_queued" none idempotency_key hash) db)

  unfoldable pub reindex_event :
      String
      → Option String
      → String
      → DiagnosisCase
      → Option CaseReviewEvent
      → Action Database DiagnosisCase
  reindex_event case_id idempotency_key hash c none db =
      reindex_fresh case_id idempotency_key hash c db
  reindex_event case_id idempotency_key hash c (some e) db =
      if e.request_hash == hash then (ok c, db) else (err Error.case_state_conflict, db)

  -- `reindex`
  unfoldable pub reindex : String → Option String → Action Database DiagnosisCase
  reindex case_id idempotency_key db =
      elim (get case_id db) as (λ _. Outcome DiagnosisCase × Database) [
        | err e ↦ (err e, db)
        | ok c ↦
            reindex_event case_id idempotency_key
              (lib.fingerprint "case.reindex" (("case_id", some case_id) ∷ [])) c
              (earlier case_id idempotency_key db) db
      ]
