-- ===== src/Indexing/Silence.antt =====
-- Jobs that are over and have no message left to be sent (src/energy_agent/indexing/repository.py).
use mathlib.Core.Path.{subst}
use energy_agent_diagnosis.Common.{
  ℕ, suc, ◌+◌, ◌≡◌, ◌≢◌, ◌∙◌, ap, String, Option, none, some, List, [], ◌∷◌, ◌++◌, arith, true,
  false, ◌==◌, string_eq, nat_eq, any, inl, inr, Option-cases, Bool-cases, ltb, eq_iff, refl, sym,
  Every, nil, cons,
}
use energy_agent_diagnosis.Common.Table
use energy_agent_diagnosis.Common.Table.{Table, get-modify, get-add}
use energy_agent_diagnosis.Persistence.Index.{IndexJobStatus, IndexJobCreate, IndexJob, OutboxRow}
use energy_agent_diagnosis.Persistence.Database.{Database}
use energy_agent_diagnosis.Indexing.Repository.{
  job_of, is_pending_job, find_job, add_job, add_new, queue_job, publish_row, modify_row,
  mark_published, mark_publish_failed, outbox_row, message_of,
}
use energy_agent_diagnosis.Indexing.Jobs.{
  start_job, fail_job, retry_job, started, restarted, is_terminal, is_failed_job, start, finish,
  fail, fail_entity, retry, retry_message, given_up, queued_again,
}
use energy_agent_diagnosis.Indexing.Calls.{Call, apply, apply_all}
use energy_agent_diagnosis.Indexing.Outbox.{waits_for, outbox-fail_entity}

-- The statuses of a job that is over.
pub data IsOver : IndexJobStatus → Type 0 where
  is_indexed : IsOver IndexJobStatus.indexed
  is_degraded : IsOver IndexJobStatus.degraded
  is_tombstoned : IsOver IndexJobStatus.tombstoned
  is_stale : IsOver IndexJobStatus.stale

-- A call of the repository that does not finish or fail the job, as only a delivery of a message about it
-- does, and that draws another id than the job's.
pub data IsElsewhere (id : String) : Call → Type 0 where
  adds : {k : String} (r : IndexJobCreate) → k ≢ id → IsElsewhere id (Call.add_job k r)
  publishes : (n : ℕ) (k : String) → IsElsewhere id (Call.mark_published n k)
  publishes_not : (n : ℕ) (code : String) → IsElsewhere id (Call.mark_publish_failed n code)
  starts : (k : String) → IsElsewhere id (Call.start k)
  finishes : {k : String} (status : IndexJobStatus) → k ≢ id → IsElsewhere id (Call.finish k status)
  fails :
      {k : String} (code message : String) (delay : Option ℕ) (now : ℕ)
      → k ≢ id
      → IsElsewhere id (Call.fail k code message delay now)
  retries : (k trace : String) → IsElsewhere id (Call.retry k trace)

-- A job on record that is over, without a pending row of the outbox.
pub record IsSilent (id : String) (db : Database) : Type 0 where
  pub job : IndexJob
  pub at : Table.get id db.jobs ≡ some job
  pub over : IsOver job.status
  pub silent : any (waits_for id) db.outbox ≡ false

IsOver-is_terminal : {status : IndexJobStatus} → IsOver status → is_terminal status ≡ true
IsOver-is_terminal is_indexed = refl
IsOver-is_terminal is_degraded = refl
IsOver-is_terminal is_tombstoned = refl
IsOver-is_terminal is_stale = refl

is_pending_job-IsOver : (j : IndexJob) → IsOver j.status → is_pending_job j ≡ false
is_pending_job-IsOver j over = let done = IsOver-is_terminal over in ground (arith, done)

is_failed_job-IsOver : (j : IndexJob) → IsOver j.status → is_failed_job j ≡ false
is_failed_job-IsOver j over = let done = IsOver-is_terminal over in ground (arith, done)

module _ (id : String) where
  any-append_other :
      (rows : List OutboxRow) (row : OutboxRow)
      → row.job_id ≢ id
      → any (waits_for id) rows ≡ false
      → any (waits_for id) (rows ++ row ∷ []) ≡ false
  any-append_other [] row other h = ground (arith, other, eq_iff row.job_id id)
  any-append_other (r ∷ rows) row other h =
      let rest : any (waits_for id) rows ≡ false → any (waits_for id) (rows ++ row ∷ []) ≡ false =
        any-append_other rows row other in
      ground (arith, h, rest)

  -- A change of a row that makes none wait.
  any-modify_row :
      (n : ℕ) (f : OutboxRow → OutboxRow) (rows : List OutboxRow)
      → ((r : OutboxRow) → waits_for id r ≡ false → waits_for id (f r) ≡ false)
      → any (waits_for id) rows ≡ false
      → any (waits_for id) (modify_row n f rows) ≡ false
  unfolding modify_row
  any-modify_row n f [] step h = h
  any-modify_row n f (r ∷ rows) step h =
      let rest = any-modify_row n f rows step in
      let here = step r in
      elim (Bool-cases (r.id == n)) [
        | inl same ↦ rw (same) (ground (arith, h, here))
        | inr other ↦ rw (other) (ground (arith, h, rest))
      ]

  -- The job's row is as it was, and so is the outbox.
  jobs-IsSilent :
      (db db' : Database) (s : IsSilent id db)
      → Table.get id db'.jobs ≡ some s.job
      → any (waits_for id) db'.outbox ≡ false
      → IsSilent id db'
  jobs-IsSilent db db' s at silent = record { job = s.job; at = at; over = s.over; silent = silent }

  get-modify_other :
      (k : String) (f : IndexJob → IndexJob) (t : Table IndexJob) (j : IndexJob)
      → k ≢ id
      → Table.get id t ≡ some j
      → Table.get id (Table.modify k f t) ≡ some j
  get-modify_other k f t j other at = ground (arith, at, other, get-modify k id f t, eq_iff k id)

  add_job-IsSilent :
      (k : String) (r : IndexJobCreate) (db : Database)
      → k ≢ id
      → IsSilent id db
      → IsSilent id (add_job k r db).1
  unfolding add_job add_new
  add_job-IsSilent k r db other s = elim (Option-cases (find_job r db.jobs)) [
    | inr (p, found) ↦ rw (add_job, found) s
    | inl gone ↦
        let at = s.at in
        rw (add_job, gone)
          (jobs-IsSilent db (add_new k r db) s (ground (arith, at, get-add k id (job_of r) db.jobs))
            (any-append_other db.outbox
              (outbox_row k "index.job.requested.v1" (message_of k r) db.next_outbox_id) other
              s.silent))
  ]

  mark_published-IsSilent :
      (n : ℕ) (k : String) (db : Database) → IsSilent id db → IsSilent id (mark_published n k db)
  unfolding mark_published
  mark_published-IsSilent n k db s =
      let at = s.at in
      let live = is_pending_job-IsOver s.job s.over in
      jobs-IsSilent db (mark_published n k db) s
        (ground (arith, at, live, get-modify k id queue_job db.jobs))
        (any-modify_row n publish_row db.outbox (λ r h. ground (arith, h)) s.silent)

  start-IsSilent : (k : String) (db : Database) → IsSilent id db → IsSilent id (start k db).1
  unfolding start start_job
  start-IsSilent k db s = elim (Bool-cases (k == id)) [
    | inl same ↦
        let here : id ≡ k = sym ((eq_iff k id).0 same) in
        let over = IsOver-is_terminal s.over in
        subst (λ i. IsSilent id (start i db).1) here (rw (start, s.at, start_job, over) s)
    | inr differs ↦
        let other : k ≢ id = λ e. ground (arith, differs, e, eq_iff k id) in
        elim (Option-cases (Table.get k db.jobs)) [
          | inl gone ↦ rw (start, gone) s
          | inr (row, found) ↦ elim (Bool-cases (is_terminal row.status)) [
            | inl over ↦ rw (start, found, start_job, over) s
            | inr live ↦ elim (Bool-cases (ltb row.max_attempts (row.attempt_count + 1))) [
              | inl used ↦ rw (start, found, start_job, live, used) s
              | inr left ↦
                  rw (start, found, start_job, live, left)
                    (jobs-IsSilent db (record db { jobs = Table.modify k started db.jobs }) s
                      (get-modify_other k started db.jobs s.job other s.at) s.silent)
            ]
          ]
        ]
  ]

  retry-IsSilent :
      (k trace : String) (db : Database) → IsSilent id db → IsSilent id (retry k trace db).1
  unfolding retry retry_job
  retry-IsSilent k trace db s = elim (Option-cases (Table.get k db.jobs)) [
    | inl gone ↦ rw (retry, gone) s
    | inr (row, found) ↦ elim (Bool-cases (is_failed_job row)) [
      | inr live ↦ rw (retry, found, retry_job, live) s
      | inl failed ↦
          let done = is_failed_job-IsOver s.job s.over in
          let at = s.at in
          let other : k ≢ id = λ e.
            let here = ap (λ i. Table.get i db.jobs) e in
            ground (arith, here, found, at, done, failed) in
          let row' =
            outbox_row k "index.job.retried.v1" (retry_message k trace row) db.next_outbox_id in
          rw (retry, found, retry_job, failed)
            (jobs-IsSilent db
              (record db {
                jobs = Table.modify k restarted db.jobs;
                outbox = db.outbox ++ row' ∷ [];
                next_outbox_id = suc db.next_outbox_id;
              })
              s (get-modify_other k restarted db.jobs s.job other at)
              (any-append_other db.outbox row' other s.silent))
    ]
  ]

  fail-IsSilent :
      (k code message : String) (delay : Option ℕ) (now : ℕ) (db : Database)
      → k ≢ id
      → IsSilent id db
      → IsSilent id (fail k code message delay now db)
  unfolding fail fail_job
  fail-IsSilent k code message none now db other s = elim (Option-cases (Table.get k db.jobs)) [
    | inl gone ↦ rw (fail, gone) s
    | inr (row, found) ↦
        rw (fail, found)
          (jobs-IsSilent db
            (record (fail_entity row code db) {
              jobs = Table.modify k (given_up code message) db.jobs;
            })
            s (get-modify_other k (given_up code message) db.jobs s.job other s.at)
            (ap (any (waits_for id)) (outbox-fail_entity row code db) ∙ s.silent))
  ]
  fail-IsSilent k code message (some ms) now db other s =
      elim (Option-cases (Table.get k db.jobs)) [
        | inl gone ↦ rw (fail, gone) s
        | inr (row, found) ↦
            let f = queued_again code message (now + ms) in
            rw (fail, found)
              (jobs-IsSilent db (record db { jobs = Table.modify k f db.jobs }) s
                (get-modify_other k f db.jobs s.job other s.at) s.silent)
      ]

  apply-IsSilent :
      (c : Call) (db : Database) → IsElsewhere id c → IsSilent id db → IsSilent id (apply c db)
  unfolding apply mark_publish_failed finish
  apply-IsSilent _ db (adds {k} r other) s = add_job-IsSilent k r db other s
  apply-IsSilent _ db (publishes n k) s = mark_published-IsSilent n k db s
  apply-IsSilent _ db (publishes_not n code) s =
      jobs-IsSilent db (mark_publish_failed n code db) s s.at
        (any-modify_row n _ db.outbox (λ r h. h) s.silent)
  apply-IsSilent _ db (starts k) s = start-IsSilent k db s
  apply-IsSilent _ db (finishes {k} status other) s =
      jobs-IsSilent db (finish k status db) s (get-modify_other k _ db.jobs s.job other s.at)
        s.silent
  apply-IsSilent _ db (fails {k} code message delay now other) s =
      fail-IsSilent k code message delay now db other s
  apply-IsSilent _ db (retries k trace) s = retry-IsSilent k trace db s

  pub apply_all-IsSilent :
      (cs : List Call) (db : Database)
      → Every (IsElsewhere id) cs
      → IsSilent id db
      → IsSilent id (apply_all cs db)
  unfolding apply_all
  apply_all-IsSilent _ db nil s = s
  apply_all-IsSilent _ db (cons {x = c} {xs = cs} e es) s =
      apply_all-IsSilent cs (apply c db) es (apply-IsSilent c db e s)
