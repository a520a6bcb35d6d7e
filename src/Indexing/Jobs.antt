-- ===== src/Indexing/Jobs.antt =====
-- src/energy_agent/indexing/repository.py: how `IndexRepository` starts, finishes, fails and retries a
-- job. `now` is the reading of the clock, in milliseconds; the cut of an error's text to its column is
-- left out.
use energy_agent_diagnosis.Common.{
  ℕ, ◌+◌, String, Option, none, some, Bool, true, false, ◌&&◌, List, [], ◌∷◌, ◌==◌, string_eq,
  nat_eq, if◌then◌else◌,
}
use energy_agent_diagnosis.Common.Errors.{Outcome, ok, err}
use energy_agent_diagnosis.Common.Table
use energy_agent_diagnosis.Common.Table.{Table}
use energy_agent_diagnosis.Persistence.Index.{
  manual_document, maintenance_ticket, diagnosis_case, template_graph, entity_eq, operation_eq,
  IndexJobStatus, IndexJobMessage, IndexJob,
}
use energy_agent_diagnosis.Persistence.Cases.{CaseIndexStatus, MaintenanceTicket, ManualDocument}
use energy_agent_diagnosis.Persistence.Database.{Database, add_outbox}
use energy_agent_diagnosis.Indexing.Repository.{job_record, outbox_row}

-- The statuses that a delivery does not leave again.
abbrev pub is_terminal : IndexJobStatus → Bool
is_terminal IndexJobStatus.indexed = true
is_terminal IndexJobStatus.degraded = true
is_terminal IndexJobStatus.tombstoned = true
is_terminal IndexJobStatus.stale = true
is_terminal _ = false

abbrev pub started : IndexJob → IndexJob
started j = record j { status = IndexJobStatus.running; attempt_count = j.attempt_count + 1 }

-- A record that cannot be built raises, and the transaction is rolled back.
unfoldable pub start_job :
    String → Database → Option IndexJob → Outcome (Option IndexJob) × Database
start_job job_id db none = (ok none, db)
start_job job_id db (some j) =
    if is_terminal j.status
    then (elim (job_record j) [ ok j' ↦ ok (some j') | err e ↦ err e ], db)
    else elim (job_record (started j)) [
      | ok j' ↦ (ok (some j'), record db { jobs = Table.modify job_id started db.jobs })
      | err e ↦ (err e, db)
    ]

unfoldable pub start : String → Database → Outcome (Option IndexJob) × Database
unfolding start_job
start job_id db = start_job job_id db (Table.get job_id db.jobs)

unfoldable pub finish : String → IndexJobStatus → Database → Database
finish job_id status db = record db {
  jobs =
      Table.modify job_id
        (λ j. record j { status = status; last_error_code = none; last_error_message = none })
        db.jobs;
}

-- The documents of an id and a generation, marked as failed.
unfoldable pub fail_document : String → String → String → List ManualDocument → List ManualDocument
fail_document doc_id generation error_code [] = []
fail_document doc_id generation error_code (d ∷ ds) =
    (if d.doc_id == doc_id && d.index_generation == generation
      then record d { index_status = CaseIndexStatus.failed; index_error_code = some error_code }
      else d)
    ∷ fail_document doc_id generation error_code ds

-- The entity of a job that is given up, marked as failed.
unfoldable pub fail_entity : IndexJob → String → Database → Database
fail_entity j error_code db = elim j.entity_type [
  | diagnosis_case ↦ record db {
    cases =
        Table.modify j.entity_id
          (λ c. record c {
            index_status = CaseIndexStatus.failed;
            index_error_code = some error_code;
            is_active = false;
          })
          db.cases;
  }
  | maintenance_ticket ↦ record db {
    tickets =
        Table.modify j.entity_id
          (λ (t : MaintenanceTicket). record t {
            index_status = CaseIndexStatus.failed;
            index_error_code = some error_code;
          })
          db.tickets;
  }
  | manual_document ↦ record db {
    documents = fail_document j.entity_id j.entity_version error_code db.documents;
  }
  | template_graph ↦ db
]

abbrev pub queued_again : String → String → ℕ → IndexJob → IndexJob
queued_again error_code message at j = record j {
  status = IndexJobStatus.queued;
  last_error_code = some error_code;
  last_error_message = some message;
  next_attempt_at = some at;
}

abbrev pub given_up : String → String → IndexJob → IndexJob
given_up error_code message j = record j {
  status = IndexJobStatus.failed;
  last_error_code = some error_code;
  last_error_message = some message;
  next_attempt_at = none;
}

-- `delay` is the retry delay in milliseconds, none for a job that is given up.
unfoldable pub fail_job :
    String → String → String → Option ℕ → ℕ → Database → Option IndexJob → Database
fail_job job_id error_code message delay now db none = db
fail_job job_id error_code message (some ms) now db (some j) = record db {
  jobs = Table.modify job_id (queued_again error_code message (now + ms)) db.jobs;
}
fail_job job_id error_code message none now db (some j) = record (fail_entity j error_code db) {
  jobs = Table.modify job_id (given_up error_code message) db.jobs;
}

unfoldable pub fail : String → String → String → Option ℕ → ℕ → Database → Database
unfolding fail_job
fail job_id error_code message delay now db =
    fail_job job_id error_code message delay now db (Table.get job_id db.jobs)

abbrev pub is_failed_job : IndexJob → Bool
is_failed_job j = elim j.status [ IndexJobStatus.failed ↦ true | _ ↦ false ]

abbrev pub restarted : IndexJob → IndexJob
restarted j = record j {
  status = IndexJobStatus.pending;
  attempt_count = 0;
  last_error_code = none;
  last_error_message = none;
}

abbrev pub retry_message : String → String → IndexJob → IndexJobMessage
retry_message job_id trace_id j = record {
  job_id = job_id;
  entity_type = j.entity_type;
  entity_id = j.entity_id;
  entity_version = j.entity_version;
  operation = j.operation;
  trace_id = trace_id;
  correlation_id = j.correlation_id;
  causation_id = job_id;
}

unfoldable pub retry_job : String → String → Database → Option IndexJob → Option IndexJob × Database
retry_job job_id trace_id db none = (none, db)
retry_job job_id trace_id db (some j) =
    if is_failed_job j
    then (
      some (restarted j),
      add_outbox (outbox_row job_id "index.job.retried.v1" (retry_message job_id trace_id j))
          (record db { jobs = Table.modify job_id restarted db.jobs }),
    )
    else (none, db)

-- The record of a restarted job has no attempts, so it can always be built.
unfoldable pub retry : String → String → Database → Option IndexJob × Database
unfolding retry_job
retry job_id trace_id db = retry_job job_id trace_id db (Table.get job_id db.jobs)
