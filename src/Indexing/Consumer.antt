-- ===== src/Indexing/Consumer.antt =====
-- src/energy_agent/indexing/service.py: `IndexConsumer.consume`. What the handler of an event does is
-- its argument, an outcome and the tables that it leaves. The broker is assumed to take what the
-- worker publishes; metrics and traces are left out.
pub mod Deliveries
use energy_agent_diagnosis.Common.{
  ℕ, ◌+◌, String, Option, none, some, Bool, true, false, not, ◌||◌, List, [], ◌∷◌, ◌++◌, leb,
  if◌then◌else◌,
}
use energy_agent_diagnosis.Common.Errors.{Outcome, ok, err, Error}
use energy_agent_diagnosis.Persistence.Index.{
  EntityType, diagnosis_case, IndexJobStatus, IndexJobMessage, IndexJob,
}
use energy_agent_diagnosis.Persistence.Cases.{AuditEvent}
use energy_agent_diagnosis.Persistence.Database.{Database, write_audit}
use energy_agent_diagnosis.Indexing.Jobs.{is_terminal, start, finish, fail}

-- `HandlerResult`, `StaleIndexEventError`, `PermanentIndexError` with its code, and any other exception
-- with its code, by default `INDEX_PROVIDER_UNAVAILABLE`; `text` is the exception's class name.
pub data Handled : Type 0 where
  result : IndexJobStatus → Bool → Handled
  stale : Handled
  permanent : String → Handled
  provider : String → String → Handled

-- What the worker does with the message, beside the tables.
pub data Effect : Type 0 where
  reject ack : Effect
  publish_retry publish_dead : IndexJobMessage → Effect
  publish_dead_raw : Effect

abbrev pub should_dead_letter : ℕ → ℕ → Bool → Bool
should_dead_letter attempt_count max_attempts retryable =
    not retryable || leb max_attempts attempt_count

-- `_audit`: its own failures are only logged.
abbrev pub audit_of : IndexJobMessage → String → String → AuditEvent
audit_of event action outcome = record {
  actor_id = "service:index-worker";
  action = action;
  resource_type = "index_job";
  resource_id = event.job_id;
  trace_id = event.trace_id;
  outcome = outcome;
}

abbrev pub is_degraded : IndexJobStatus → Bool
is_degraded IndexJobStatus.degraded = true
is_degraded _ = false

abbrev pub is_tombstoned : IndexJobStatus → Bool
is_tombstoned IndexJobStatus.tombstoned = true
is_tombstoned _ = false

abbrev pub is_case : EntityType → Bool
is_case diagnosis_case = true
is_case _ = false

-- The audits of a success, and of its graph projection where the entity is a case.
unfoldable pub audit_result : IndexJobMessage → IndexJobStatus → Bool → Database → Database
audit_result event status graph_degraded db =
    let indexed =
      write_audit
        (audit_of event (if is_degraded status then "index.degraded" else "index.succeeded")
          "succeeded")
        db in
    if is_case event.entity_type
    then write_audit
        (audit_of event
          (if is_tombstoned status
            then "graph.tombstoned"
            else if graph_degraded
            then "graph.degraded"
            else "graph.projected")
          "succeeded")
        indexed
    else indexed

-- The handling of an exception: `dead` says that the job is given up.
unfoldable pub give_up_or_retry :
    Bool → String → String → ℕ → ℕ → IndexJobMessage → Database → List Effect × Database
give_up_or_retry true code text delay now event db = (
  publish_dead event ∷ ack ∷ [],
  write_audit (audit_of event "index.dead_lettered" "failed") (
      write_audit (audit_of event "index.failed" "failed")
        (fail event.job_id code text none now db)),
)
give_up_or_retry false code text delay now event db = (
  publish_retry event ∷ ack ∷ [],
  write_audit (audit_of event "index.retried" "retrying")
      (fail event.job_id code text (some delay) now db),
)

-- After the handler.
unfoldable pub conclude :
    ℕ → ℕ → IndexJobMessage → IndexJob → Handled → Database → List Effect × Database
conclude delay now event job (result status graph_degraded) db =
    (ack ∷ [], audit_result event status graph_degraded (finish event.job_id status db))
conclude delay now event job stale db = (ack ∷ [], finish event.job_id IndexJobStatus.stale db)
conclude delay now event job (permanent code) db =
    give_up_or_retry (should_dead_letter job.attempt_count job.max_attempts false) code
      "PermanentIndexError" delay now event db
conclude delay now event job (provider code text) db =
    give_up_or_retry (should_dead_letter job.attempt_count job.max_attempts true) code text delay
      now event db

-- After the start of the job, by the record that it gave.
unfoldable pub work :
    (Database → Handled × Database)
    → ℕ
    → ℕ
    → IndexJobMessage
    → Outcome (Option IndexJob)
    → Database
    → Outcome (List Effect) × Database
work handle delay now event (err e) db = (err e, db)
work handle delay now event (ok none) db = (ok (publish_dead_raw ∷ ack ∷ []), db)
work handle delay now event (ok (some job)) db =
    if is_terminal job.status
    then (ok (ack ∷ []), db)
    else let (handled, db') =
        handle (write_audit (audit_of event "index.started" "succeeded") db) in
      let (effects, db'') = conclude delay now event job handled db' in (ok effects, db'')

-- The body of a message is none where it is no valid event.
unfoldable pub consume :
    (IndexJobMessage → Database → Handled × Database)
    → ℕ
    → ℕ
    → Option IndexJobMessage
    → Database
    → Outcome (List Effect) × Database
consume handle delay now none db = (ok (reject ∷ []), db)
consume handle delay now (some event) db =
    let (job, db') = start event.job_id db in work (handle event) delay now event job db'
