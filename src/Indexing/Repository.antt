-- ===== src/Indexing/Repository.antt =====
-- src/energy_agent/indexing/repository.py: the jobs and the outbox of `IndexRepository`. A method is
-- one transaction, and `new_id` is the id that the call draws.
use energy_agent_diagnosis.Common.{
  ℕ, ◌+◌, String, Option, none, some, Bool, true, false, ◌&&◌, List, [], ◌∷◌, ◌==◌, string_eq,
  nat_eq, ltb, keep, take, if◌then◌else◌, ◌≡◌,
}
use energy_agent_diagnosis.Common.Errors.{Outcome, ok, err, Error}
use energy_agent_diagnosis.Common.Table
use energy_agent_diagnosis.Common.Table.{Table}
use energy_agent_diagnosis.Persistence.Index.{
  entity_eq, operation_eq, IndexJobStatus, OutboxPublishStatus, IndexJobCreate, IndexJobMessage,
  IndexJob, OutboxRow, is_pending_row,
}
use energy_agent_diagnosis.Persistence.Database.{Database, add_outbox}

-- `IndexJobRecord.validate_attempts`: a row with more attempts than its maximum is no record.
abbrev pub job_record : IndexJob → Outcome IndexJob
job_record j = if ltb j.max_attempts j.attempt_count then err Error.validation_error else ok j

-- The unique key of a job.
unfoldable pub matches : IndexJobCreate → IndexJob → Bool
matches r j =
    j.entity_type == r.entity_type
    && j.entity_id == r.entity_id
    && j.entity_version == r.entity_version
    && j.operation == r.operation

unfoldable pub find_job : IndexJobCreate → Table IndexJob → Option (String × IndexJob)
find_job r [] = none
find_job r ((k, j) ∷ t) = let rest = find_job r t in if matches r j then some (k, j) else rest

abbrev pub message_of : String → IndexJobCreate → IndexJobMessage
message_of job_id r = record {
  job_id = job_id;
  entity_type = r.entity_type;
  entity_id = r.entity_id;
  entity_version = r.entity_version;
  operation = r.operation;
  trace_id = r.trace_id;
  correlation_id = r.correlation_id;
  causation_id = r.causation_id;
}

abbrev pub job_of : IndexJobCreate → IndexJob
job_of r = record {
  entity_type = r.entity_type;
  entity_id = r.entity_id;
  entity_version = r.entity_version;
  operation = r.operation;
  status = IndexJobStatus.pending;
  attempt_count = 0;
  max_attempts = r.max_attempts;
  trace_id = r.trace_id;
  correlation_id = r.correlation_id;
  causation_id = r.causation_id;
  last_error_code = none;
  last_error_message = none;
  next_attempt_at = none;
}

abbrev pub outbox_row : String → String → IndexJobMessage → ℕ → OutboxRow
outbox_row job_id event_type payload id = record {
  id = id;
  job_id = job_id;
  event_type = event_type;
  payload = payload;
  publish_status = OutboxPublishStatus.pending;
  publish_attempts = 0;
  last_error_code = none;
}

-- `_add_job` once the existing job is looked up.
unfoldable pub add_new : String → IndexJobCreate → Database → Database
add_new new_id r db =
    add_outbox (outbox_row new_id "index.job.requested.v1" (message_of new_id r))
      (record db { jobs = Table.add new_id (job_of r) db.jobs })

unfoldable pub or_add :
    String
    → IndexJobCreate
    → Database
    → Option (String × IndexJob)
    → Outcome (String × IndexJob) × Database
or_add new_id r db none = (ok (new_id, job_of r), add_new new_id r db)
or_add new_id r db (some (k, j)) = (elim (job_record j) [ ok j' ↦ ok (k, j') | err e ↦ err e ], db)

unfoldable pub add_job : String → IndexJobCreate → Database → Outcome (String × IndexJob) × Database
unfolding or_add
add_job new_id r db = or_add new_id r db (find_job r db.jobs)

pub add_job-find_job :
    (new_id : String) (r : IndexJobCreate) (db : Database) (k : String) (j : IndexJob)
    → find_job r db.jobs ≡ some (k, j)
    → add_job new_id r db ≡ ((elim (job_record j) [ ok j' ↦ ok (k, j') | err e ↦ err e ]), db)
unfolding add_job or_add
add_job-find_job new_id r db k j h = rw (h)

-- The rows that are pending, by id, as many as `limit`.
unfoldable pub pending_outbox : ℕ → Database → List OutboxRow
pending_outbox limit db = take limit (keep is_pending_row db.outbox)

-- A change of the outbox row of an id.
unfoldable pub modify_row : ℕ → (OutboxRow → OutboxRow) → List OutboxRow → List OutboxRow
modify_row id f [] = []
modify_row id f (r ∷ rs) = if r.id == id then f r ∷ rs else r ∷ modify_row id f rs

abbrev pub publish_row : OutboxRow → OutboxRow
publish_row r =
    if is_pending_row r
    then record r {
      publish_status = OutboxPublishStatus.published;
      publish_attempts = r.publish_attempts + 1;
    }
    else r

abbrev pub is_pending_job : IndexJob → Bool
is_pending_job j = elim j.status [ IndexJobStatus.pending ↦ true | _ ↦ false ]

abbrev pub queue_job : IndexJob → IndexJob
queue_job j = if is_pending_job j then record j { status = IndexJobStatus.queued } else j

unfoldable pub mark_published : ℕ → String → Database → Database
mark_published outbox_id job_id db = record db {
  outbox = modify_row outbox_id publish_row db.outbox;
  jobs = Table.modify job_id queue_job db.jobs;
}

unfoldable pub mark_publish_failed : ℕ → String → Database → Database
mark_publish_failed outbox_id error_code db = record db {
  outbox =
      modify_row outbox_id
        (λ r. record r {
          publish_attempts = r.publish_attempts + 1;
          last_error_code = some error_code;
        })
        db.outbox;
}
