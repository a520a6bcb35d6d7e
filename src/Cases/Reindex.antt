-- ===== src/Cases/Reindex.antt =====
-- Queueing an index job of a case whose version has one on record
-- (src/energy_agent/persistence/repositories/cases.py).
use energy_agent_diagnosis.Common.{
  String, List, any, Every, ◌∙◌, some, true, false, ◌≡◌, refl, sym, ap, arith, Option-cases, inl,
  inr,
}
use energy_agent_diagnosis.Common.Errors.{ok, Outcome-cases}
use energy_agent_diagnosis.Common.Table
use energy_agent_diagnosis.Common.Table.{get-modify_self}
use energy_agent_diagnosis.Persistence.Index.{IndexJobCreate, IndexJob}
use energy_agent_diagnosis.Persistence.Cases.{
  CaseStatus, CaseIndexStatus, DiagnosisCase, CaseReviewEvent,
}
use energy_agent_diagnosis.Persistence.Database.{Database}
use energy_agent_diagnosis.Indexing.Repository.{find_job, add_job-find_job, job_record}
use energy_agent_diagnosis.Indexing.Calls.{Call, apply_all}
use energy_agent_diagnosis.Indexing.Outbox.{waits_for}
use energy_agent_diagnosis.Indexing.Silence.{IsOver, IsElsewhere, IsSilent, apply_all-IsSilent}
use energy_agent_diagnosis.Cases.Repository.{get, add_event}
use energy_agent_diagnosis.Cases.Transition.{queue_index, queue_row, queued_for_index}

add_event_keeps :
    (e : CaseReviewEvent) (db db' : Database)
    → add_event e db ≡ ok db'
    → (db'.cases ≡ db.cases) × (db'.jobs ≡ db.jobs) × (db'.outbox ≡ db.outbox)
unfolding add_event
add_event_keeps e db db' h = ground (arith, h)

-- With a job of the same entity, version and operation on record, no job and no outbox row is added, and the
-- case is queued under that job's id.
queue_index_lem :
    (new_id case_id : String) (r : IndexJobCreate) (event : CaseStatus → CaseReviewEvent)
    (job_id : String) (job : IndexJob) (db db' : Database) (c : DiagnosisCase)
    → find_job r db.jobs ≡ some (job_id, job)
    → queue_index true new_id case_id r event db ≡ (ok c, db')
    → (db'.jobs ≡ db.jobs)
      × (db'.outbox ≡ db.outbox)
      × (c.index_job_id ≡ some job_id)
      × (row : DiagnosisCase) × (get case_id db' ≡ some row)
      × (row.index_status ≡ CaseIndexStatus.queued)
      × (row.is_active ≡ false)
unfolding queue_index queue_row get
queue_index_lem new_id case_id r event job_id job db db' c old h =
    elim (Option-cases (get case_id db)) [
      | inl gone ↦ absurd (ground (arith, gone, h))
      | inr (before, row) ↦
          let changed = record db { cases = Table.modify case_id queued_for_index db.cases } in
          let at = get-modify_self case_id queued_for_index db.cases before row in
          elim (Outcome-cases (add_event (event before.review_status) changed)) [
            | inr (e, failed) ↦ absurd (ground (arith, row, failed, h))
            | inl (db1, added) ↦
                let (cases, jobs, outbox) =
                  add_event_keeps (event before.review_status) changed db1 added in
                let known : find_job r db1.jobs ≡ some (job_id, job) = rw jobs old in
                let step = add_job-find_job new_id r db1 job_id job known in
                elim (Outcome-cases (job_record job)) [
                  | inr (e, bad) ↦ absurd (ground (arith, row, added, step, bad, h))
                  | inl (good, fine) ↦
                      let last : db1 ≡ db' = ground (arith, row, added, step, fine, h) in
                      let result : record (queued_for_index before) { index_job_id = some job_id }
                          ≡ c =
                        ground (arith, row, added, step, fine, h) in
                      (
                        rw (sym last) jobs,
                        rw (sym last) outbox,
                        ap (λ x. x.index_job_id) (sym result),
                        queued_for_index before,
                        rw (sym last, cases) at,
                        refl,
                        refl,
                      )
                ]
          ]
    ]

-- Where the job of the same entity, version and operation is over and no outbox row of it is pending,
-- `queue_index` that returns has made the case queued and inactive under that job's id, adds neither a job nor
-- an outbox row, and no message of the job is pending from then on, whatever the repository of the jobs is
-- asked to do: so far as it does not finish or fail the job, which only the delivery of a message of it does,
-- and draws other ids for new jobs.
pub queue_index_existing :
    (new_id case_id : String) (r : IndexJobCreate) (event : CaseStatus → CaseReviewEvent)
    (job_id : String) (job : IndexJob) (db db' : Database) (c : DiagnosisCase) (cs : List Call)
    → find_job r db.jobs ≡ some (job_id, job)
    → Table.get job_id db.jobs ≡ some job
    → IsOver job.status
    → any (waits_for job_id) db.outbox ≡ false
    → queue_index true new_id case_id r event db ≡ (ok c, db')
    → Every (IsElsewhere job_id) cs
    → (c.index_job_id ≡ some job_id)
      × ((row : DiagnosisCase) × (get case_id db' ≡ some row)
          × (row.index_status ≡ CaseIndexStatus.queued)
          × (row.is_active ≡ false))
      × (db'.jobs ≡ db.jobs)
      × (db'.outbox ≡ db.outbox)
      × (any (waits_for job_id) (apply_all cs db').outbox ≡ false)
queue_index_existing new_id case_id r event job_id job db db' c cs old at over silent h elsewhere =
    let (jobs, outbox, id, row, found, status, active) =
      queue_index_lem new_id case_id r event job_id job db db' c old h in
    let start : IsSilent job_id db' = record {
      job = job;
      at = ap (Table.get job_id) jobs ∙ at;
      over = over;
      silent = ap (any (waits_for job_id)) outbox ∙ silent;
    } in
    let last = apply_all-IsSilent job_id cs db' elsewhere start in
    (id, (row, found, status, active), jobs, outbox, last.silent)
