-- ===== src/Tests/Cases.antt =====
-- The theorems on the transitions of a case, at concrete inputs.
use energy_agent_diagnosis.Indexing.Calls.{Call, apply_all}
use energy_agent_diagnosis.Indexing.Outbox.{waits_for}
use energy_agent_diagnosis.Indexing.Silence.{is_indexed, starts, adds, retries}
use energy_agent_diagnosis.Common.{
  any, arith, eq_iff, cons, nil, List, none, some, true, false, [], ◌∷◌, ◌≡◌, refl, string_eq,
}
use energy_agent_diagnosis.Common.Errors.{Outcome, ok, err, Error}
use energy_agent_diagnosis.Common.Table
use energy_agent_diagnosis.Persistence.Index.{
  EntityType, IndexOperation, IndexJobStatus, IndexJobCreate, IndexJob,
}
use energy_agent_diagnosis.Persistence.Cases.{
  CaseStatus, CaseIndexStatus, DiagnosisCase, CaseReviewEvent,
}
use energy_agent_diagnosis.Persistence.Database.{Database, empty}
use energy_agent_diagnosis.Indexing.Repository.{job_of, find_job, matches, add_job, or_add}
use energy_agent_diagnosis.Cases.Repository.{get, find_event, add_event}
use energy_agent_diagnosis.Cases.Transition.{
  Transition, event_of, add_request, transition, transition_row, transition_event,
  commit_transition, queue_index, queue_row,
}
use energy_agent_diagnosis.Cases.Idempotency.{transition_replay}
use energy_agent_diagnosis.Cases.Repository.{create, next_version, max_version}
use energy_agent_diagnosis.Cases.Versions.{create-next_version}
use energy_agent_diagnosis.Cases.Reindex.{queue_index_existing}

abbrev draft_case : DiagnosisCase
draft_case = record {
  case_id = "case-1";
  source_session_id = "session-1";
  source_run_id = "run-1";
  source_review_id = "review-1";
  source_ticket_id = none;
  device_type = some "inverter";
  device_model = some "SG-320";
  manufacturer = none;
  alarm_name = some "over-temperature";
  symptom_summary = some "hot";
  timeseries_features = none;
  root_cause = "fan";
  resolution_steps = "replace" ∷ [];
  safety_notes = [];
  evidence_refs = "e1" ∷ [];
  review_status = CaseStatus.draft;
  reviewer = none;
  review_comment = none;
  case_version = 1;
  embedding_text = none;
  index_status = CaseIndexStatus.pending;
  index_error_code = none;
  is_active = false;
  supersedes_case_id = none;
  index_job_id = none;
  created_by = "alice";
}

abbrev submit : Transition
submit = record {
  expected = CaseStatus.draft;
  target = CaseStatus.pending_review;
  actor_id = "alice";
  actor_role = "operator";
  action = "case.submitted";
  trace_id = "trace";
  request_hash = "hash-1";
  idempotency_key = some "key-1";
  comment = none;
  updates = λ c. c;
  index_request = none;
}

abbrev drafted : Database
drafted = record empty { cases = ("case-1", draft_case) ∷ [] }

abbrev submitted_case : DiagnosisCase
submitted_case = record draft_case { review_status = CaseStatus.pending_review }

abbrev submitted : Database
submitted = record empty {
  cases = ("case-1", submitted_case) ∷ [];
  events = event_of "case-1" submit CaseStatus.draft ∷ [];
}

submits : transition true "job-1" "case-1" submit drafted ≡ (ok (submitted_case, false), submitted)
unfolding transition transition_row transition_event commit_transition add_request add_event
    find_event get Table.get Table.modify
submits = refl

-- The same key for another request.
abbrev other_request : Transition
other_request = record submit { request_hash = "hash-2" }

transition_replay_example :
    (c : DiagnosisCase) × (get "case-1" submitted ≡ some c)
    × (transition true "job-2" "case-1" other_request submitted
        ≡ (err Error.case_state_conflict, submitted))
transition_replay_example =
    transition_replay true "case-1" "key-1" "job-1" "job-2" submit other_request drafted submitted
      (submitted_case, false) refl refl refl submits

abbrev reindex : IndexJobCreate
reindex = record {
  entity_type = EntityType.diagnosis_case;
  entity_id = "case-1";
  entity_version = "1";
  operation = IndexOperation.reindex;
  trace_id = "trace";
  correlation_id = "correlation";
  causation_id = "cause";
  max_attempts = 3;
}

-- The job of an earlier reindexing, which is over.
abbrev indexed_job : IndexJob
indexed_job = record (job_of reindex) { status = IndexJobStatus.indexed; attempt_count = 1 }

abbrev indexed_case : DiagnosisCase
indexed_case = record draft_case {
  review_status = CaseStatus.approved;
  index_status = CaseIndexStatus.indexed;
}

abbrev indexed_before : Database
indexed_before = record empty {
  cases = ("case-1", indexed_case) ∷ [];
  jobs = ("job-1", indexed_job) ∷ [];
}

abbrev requeued : CaseStatus → CaseReviewEvent
requeued status = event_of "case-1" submit status

abbrev queued_case : DiagnosisCase
queued_case = record indexed_case {
  index_status = CaseIndexStatus.queued;
  index_job_id = some "job-1";
}

abbrev requeue : Outcome DiagnosisCase × Database
requeue = queue_index true "job-2" "case-1" reindex requeued indexed_before

finds : find_job reindex indexed_before.jobs ≡ some ("job-1", indexed_job)
unfolding find_job matches
finds = refl

requeues :
    queue_index true "job-2" "case-1" reindex requeued indexed_before ≡ (ok queued_case, requeue.1)
unfolding queue_index queue_row add_job or_add find_job matches add_event find_event get Table.get
requeues = refl

no_message : any (waits_for "job-1") indexed_before.outbox ≡ false
no_message = refl

job_found : Table.get "job-1" indexed_before.jobs ≡ some indexed_job
unfolding Table.get
job_found = refl

-- The repository is asked for the work of the job once more.
abbrev afterwards : List Call
afterwards = Call.start "job-1" ∷ Call.add_job "job-3" reindex ∷ Call.retry "job-1" "trace" ∷ []

queue_index_existing_example :
    (queued_case.index_job_id ≡ some "job-1")
    × ((row : DiagnosisCase) × (get "case-1" requeue.1 ≡ some row)
        × (row.index_status ≡ CaseIndexStatus.queued)
        × (row.is_active ≡ false))
    × (requeue.1.jobs ≡ indexed_before.jobs)
    × (requeue.1.outbox ≡ indexed_before.outbox)
    × (any (waits_for "job-1") (apply_all afterwards requeue.1).outbox ≡ false)
queue_index_existing_example =
    queue_index_existing "job-2" "case-1" reindex requeued "job-1" indexed_job indexed_before
      requeue.1 queued_case afterwards finds job_found is_indexed no_message requeues
      (cons (starts "job-1") (
        cons (adds reindex (λ e. ground (arith, e, eq_iff "job-3" "job-1")))
          (cons (retries "job-1" "trace") nil)))

create-next_version_example : create draft_case empty ≡ (ok draft_case, drafted)
unfolding next_version max_version Table.get
create-next_version_example = create-next_version draft_case empty refl
