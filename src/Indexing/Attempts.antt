-- ===== src/Indexing/Attempts.antt =====
-- The start of a job that has used its attempts up (src/energy_agent/indexing/repository.py).
use energy_agent_diagnosis.Common.{◌≡◌, String, some, arith, false}
use energy_agent_diagnosis.Common.Errors.{err, Error}
use energy_agent_diagnosis.Common.Table
use energy_agent_diagnosis.Common.Table.{Table, Holds, Holds-modify, Holds-add}
use energy_agent_diagnosis.Persistence.Index.{IndexJob}
use energy_agent_diagnosis.Persistence.Database.{Database}
use energy_agent_diagnosis.Indexing.Jobs.{start_job, is_terminal, start}

-- A delivery of a job that is not over and has used its attempts up, such as one that the broker
-- repeats because the worker stopped before it acknowledged the last attempt, cannot be started:
-- building its record raises, and the tables stay as they were.
pub start_exhausted :
    (id : String) (db : Database) (j : IndexJob)
    → Table.get id db.jobs ≡ some j
    → is_terminal j.status ≡ false
    → j.attempt_count ≡ j.max_attempts
    → start id db ≡ (err Error.validation_error, db)
unfolding start start_job
start_exhausted id db j row live used = ground arith
