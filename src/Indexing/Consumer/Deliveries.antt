-- ===== src/Indexing/Consumer/Deliveries.antt =====
-- The deliveries of one event to the worker of src/energy_agent/indexing/service.py.
use energy_agent_diagnosis.Common.{
  ℕ, zero, suc, ◌+◌, ◌≤◌, ◌<◌, ◌≡◌, String, some, [], ◌∷◌, arith, true, false, leb, ltb,
  if◌then◌else◌,
}
use energy_agent_diagnosis.Common.Errors.{ok}
use energy_agent_diagnosis.Common.Table
use energy_agent_diagnosis.Common.Table.{get-modify_self}
use energy_agent_diagnosis.Persistence.Index.{IndexJobStatus, IndexJobMessage, IndexJob}
use energy_agent_diagnosis.Persistence.Database.{Database}
use energy_agent_diagnosis.Indexing.Jobs.{
  is_terminal, started, start, start_job, fail, fail_job, queued_again, given_up,
}
use energy_agent_diagnosis.Indexing.Consumer.{
  Handled, provider, ack, publish_retry, publish_dead, consume, work, conclude, give_up_or_retry,
}

-- A delivery for a job that is over (indexed, degraded, tombstoned or stale), with no more attempts
-- than its maximum, is acknowledged, and changes nothing, whatever the handler would do.
replay_ignored :
    (handle : IndexJobMessage → Database → Handled × Database) (delay now : ℕ)
    (event : IndexJobMessage) (db : Database) (j : IndexJob)
    → Table.get event.job_id db.jobs ≡ some j
    → is_terminal j.status ≡ true
    → j.attempt_count ≤ j.max_attempts
    → consume handle delay now (some event) db ≡ (ok (ack ∷ []), db)
unfolding consume work start start_job
replay_ignored handle delay now event db j row over fits = ground arith

-- A handler that always fails for a reason that may pass.
abbrev pub failing : String → String → IndexJobMessage → Database → Handled × Database
failing code text event db = (provider code text, db)

-- What one such delivery makes of a job's row.
abbrev pub tried : String → String → ℕ → ℕ → IndexJob → IndexJob
tried code text delay now j =
    if leb j.max_attempts (j.attempt_count + 1)
    then given_up code text (started j)
    else queued_again code text (now + delay) (started j)

-- A delivery that fails for a reason that may pass counts one attempt. While attempts are left it
-- queues the job again, with the time of the next try, and publishes the event for a retry; on the
-- last attempt it fails the job and publishes the event to the dead letters. It is acknowledged.
failing_delivery :
    (code text : String) (delay now : ℕ) (event : IndexJobMessage) (db : Database) (j : IndexJob)
    → Table.get event.job_id db.jobs ≡ some j
    → is_terminal j.status ≡ false
    → j.attempt_count < j.max_attempts
    → ((consume (failing code text) delay now (some event) db).0
        ≡ ok (
            (if leb j.max_attempts (j.attempt_count + 1)
              then publish_dead event
              else publish_retry event)
            ∷ ack
            ∷ []))
      × (Table.get event.job_id (consume (failing code text) delay now (some event) db).1.jobs
          ≡ some (tried code text delay now j))
unfolding consume work start start_job conclude give_up_or_retry fail fail_job
failing_delivery code text delay now event db j row live left =
    let kept = get-modify_self event.job_id started db.jobs j row in
    let again = queued_again code text (now + delay) in
    let over = given_up code text in
    let running = Table.modify event.job_id started db.jobs in
    ground (
      arith,
      kept,
      get-modify_self event.job_id again running (started j) kept,
      get-modify_self event.job_id over running (started j) kept,
    )

-- The same event, delivered `n` times to a handler that always fails.
unfoldable pub deliver : String → String → ℕ → ℕ → IndexJobMessage → ℕ → Database → Database
deliver code text delay now event zero db = db
deliver code text delay now event (suc n) db =
    (consume (failing code text) delay now (some event) (deliver code text delay now event n db)).1

-- The state of a job after `n` failed deliveries: queued while attempts are left, then failed.
pub record HasTried (j : IndexJob) (n : ℕ) (j' : IndexJob) : Type 0 where
  pub attempts : j'.attempt_count ≡ j.attempt_count + n
  pub maximum : j'.max_attempts ≡ j.max_attempts
  pub state : j'.status ≡ (
      if leb n 0
      then j.status
      else if ltb (j.attempt_count + n) j.max_attempts
      then IndexJobStatus.queued
      else IndexJobStatus.failed)

tried-HasTried :
    (code text : String) (delay now n : ℕ) (j j' : IndexJob)
    → HasTried j n j'
    → HasTried j (suc n) (tried code text delay now j')
tried-HasTried code text delay now n j j' h = ground arith

-- A job that is not over, and whose handler fails at each delivery for a reason that may pass, is
-- queued after every delivery that leaves attempts, and is failed by the delivery that uses the last
-- one up, never before; each delivery has counted one attempt.
pub dead_letter_after_max :
    (code text : String) (delay now n : ℕ) (event : IndexJobMessage) (db : Database) (j : IndexJob)
    → Table.get event.job_id db.jobs ≡ some j
    → is_terminal j.status ≡ false
    → j.attempt_count + n ≤ j.max_attempts
    → (j' : IndexJob) × (Table.get event.job_id (deliver code text delay now event n db).jobs
        ≡ some j')
      × HasTried j n j'
unfolding deliver
dead_letter_after_max code text delay now zero event db j row live left = (j, row, ground arith)
dead_letter_after_max code text delay now (suc n) event db j row live left =
    let (j', row', h) =
      dead_letter_after_max code text delay now n event db j row live (omega arith) in
    let before = deliver code text delay now event n db in
    (
      tried code text delay now j',
      (failing_delivery code text delay now event before j' row' (ground arith) (ground arith)).1,
      tried-HasTried code text delay now n j j' h,
    )
