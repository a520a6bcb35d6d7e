-- ===== src/Indexing/Requests.antt =====
-- The requests of index jobs and their unique key (src/energy_agent/indexing/repository.py).
use energy_agent_diagnosis.Common.{
  String, ◌≡◌, none, some, [], ◌∷◌, arith, inl, inr, Option-cases, Bool-cases, true, eq_refl,
}
use energy_agent_diagnosis.Common.Table
use energy_agent_diagnosis.Common.Table.{Table}
use energy_agent_diagnosis.Persistence.Index.{
  IndexJobCreate, IndexJob, entity_beq_iff, operation_beq_iff,
}
use energy_agent_diagnosis.Persistence.Database.{Database}
use energy_agent_diagnosis.Indexing.Repository.{job_of, matches, find_job, add_job, add_new}

matches-job_of : (r : IndexJobCreate) → matches r (job_of r) ≡ true
unfolding matches
matches-job_of r = ground (
  arith,
  eq_refl r.entity_id,
  eq_refl r.entity_version,
  entity_beq_iff r.entity_type r.entity_type,
  operation_beq_iff r.operation r.operation,
)

find_job_found : {A : Type 0} (a : A) → ¬ (some a ≡ none)
find_job_found a h = cc

find_job-add :
    (id : String) (r : IndexJobCreate) (t : Table IndexJob)
    → find_job r t ≡ none
    → find_job r (Table.add id (job_of r) t) ≡ some (id, job_of r)
unfolding find_job
find_job-add id r [] h = rw (matches-job_of r)
find_job-add id r ((k, j) ∷ t) h = elim (Bool-cases (matches r j)) [
  | inl old ↦ absurd (find_job_found (k, j) (rw old at h))
  | inr new ↦ rw new (find_job-add id r t (rw new at h))
]

-- A request that is made twice is one job: the second call gives what the first gave, a record or
-- the error of a record that cannot be built, and changes nothing, whatever id it draws.
add_job_idempotent :
    (id id' : String) (r : IndexJobCreate) (db : Database)
    → add_job id' r (add_job id r db).1 ≡ add_job id r db
unfolding add_job add_new
add_job_idempotent id id' r db = elim (Option-cases (find_job r db.jobs)) [
  | inl e ↦ rw e (rw (find_job-add id r db.jobs e) (ground arith))
  | inr (p, e) ↦ rw (e, e)
]
