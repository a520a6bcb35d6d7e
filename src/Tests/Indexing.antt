-- ===== src/Tests/Indexing.antt =====
-- The theorems on index jobs, the outbox and the worker, at concrete inputs.
use energy_agent_diagnosis.Common.{
  ℕ, suc, ◌+◌, ◌*◌, ◌≤◌, none, some, true, List, [], ◌∷◌, ◌≡◌, refl, arith,
}
use energy_agent_diagnosis.Common.Errors.{err, Error}
use energy_agent_diagnosis.Common.Table
use energy_agent_diagnosis.Persistence.Index.{
  EntityType, IndexOperation, IndexJobStatus, IndexJobCreate, IndexJobMessage, IndexJob,
}
use energy_agent_diagnosis.Persistence.Database.{Database, empty}
use energy_agent_diagnosis.Indexing.Repository.{
  job_of, add_job, add_new, find_job, or_add, message_of, pending_outbox,
}
use energy_agent_diagnosis.Indexing.Jobs.{start}
use energy_agent_diagnosis.Indexing.Calls.{Call, apply, apply_all}
use energy_agent_diagnosis.Indexing.Attempts.{start_exhausted}
use energy_agent_diagnosis.Indexing.Tries.{tries, retries, tries_bounded}
use energy_agent_diagnosis.Indexing.Outbox.{IsCovered, outbox_covers}
use energy_agent_diagnosis.Indexing.Consumer.Deliveries.{deliver, HasTried, dead_letter_after_max}
use energy_agent_diagnosis.Indexing.Publisher.{publish_once, Own, publish_once-IsCovered}

abbrev upsert : IndexJobCreate
upsert = record {
  entity_type = EntityType.diagnosis_case;
  entity_id = "case-1";
  entity_version = "1";
  operation = IndexOperation.upsert;
  trace_id = "trace";
  correlation_id = "correlation";
  causation_id = "cause";
  max_attempts = 3;
}

abbrev event : IndexJobMessage
event = message_of "job-1" upsert

abbrev with_job : IndexJob → Database
with_job j = record empty { jobs = ("job-1", j) ∷ [] }

abbrev running : ℕ → IndexJob
running n = record (job_of upsert) { status = IndexJobStatus.running; attempt_count = n }

empty-IsCovered : IsCovered empty
unfolding Table.get
empty-IsCovered k j e p = absurd (ground (arith, e))

abbrev redelivered : List Call
redelivered =
    Call.start "job-1"
    ∷ Call.fail "job-1" "PROVIDER" "down" (some 5) 100
    ∷ Call.start "job-1"
    ∷ Call.fail "job-1" "PROVIDER" "down" none 200
    ∷ Call.retry "job-1" "trace"
    ∷ Call.start "job-1"
    ∷ []

tries_bounded_example :
    tries "job-1" redelivered (with_job (running 1)) + 1 ≤ 3 * suc (retries "job-1" redelivered)
unfolding Table.get
tries_bounded_example =
    tries_bounded "job-1" redelivered (with_job (running 1)) (running 1) refl (omega arith)

start_exhausted_example :
    start "job-1" (with_job (running 3)) ≡ (err Error.validation_error, with_job (running 3))
unfolding Table.get
start_exhausted_example = start_exhausted "job-1" (with_job (running 3)) (running 3) refl refl refl

abbrev requests : List Call
requests =
    Call.add_job "job-1" upsert ∷ Call.mark_publish_failed 1 "BROKER" ∷ Call.start "job-1" ∷ []

outbox_covers_example : IsCovered (apply_all requests empty)
outbox_covers_example = outbox_covers requests empty (tt, (tt, (tt, tt))) empty-IsCovered

abbrev indexed : IndexJob
indexed = record (running 1) { status = IndexJobStatus.indexed }

dead_letter_after_max_example :
    (j : IndexJob) × (Table.get "job-1"
        (deliver "PROVIDER" "down" 5 100 event 3 (with_job (running 0))).jobs
      ≡ some j)
    × HasTried (running 0) 3 j
unfolding Table.get
dead_letter_after_max_example =
    dead_letter_after_max "PROVIDER" "down" 5 100 3 event (with_job (running 0)) (running 0) refl
      refl (omega arith)

abbrev queued_once : Database
queued_once = (add_job "job-1" upsert empty).1

queued_once-IsCovered : IsCovered queued_once
unfolding apply_all apply
queued_once-IsCovered =
    outbox_covers (Call.add_job "job-1" upsert ∷ []) empty (tt, tt) empty-IsCovered

queued_once-Own : Own (pending_outbox 10 queued_once) queued_once.outbox
unfolding add_job add_new or_add find_job pending_outbox
queued_once-Own = (refl, tt)

publish_once-IsCovered_example : IsCovered (publish_once (λ r. true) 10 queued_once).1
publish_once-IsCovered_example =
    publish_once-IsCovered (λ r. true) 10 queued_once queued_once-Own queued_once-IsCovered
