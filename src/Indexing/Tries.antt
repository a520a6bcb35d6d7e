-- ===== src/Indexing/Tries.antt =====
-- How often a job is tried, through the methods of src/energy_agent/indexing/repository.py.
use energy_agent_diagnosis.Common.{
  ℕ, suc, ◌+◌, ◌*◌, ◌≤◌, ◌≡◌, String, Option, none, some, Bool, true, false, List, [], ◌∷◌, arith,
  inl, inr, Option-cases, Bool-cases, ltb, refl, sym, ◌==◌, string_eq, eq_iff, eq_refl,
  if◌then◌else◌,
}
use mathlib.Core.Path.{subst}
use energy_agent_diagnosis.Common.Errors.{Outcome, ok}
use energy_agent_diagnosis.Common.Table
use energy_agent_diagnosis.Common.Table.{Table, get-modify, get-add}
use energy_agent_diagnosis.Persistence.Index.{IndexJobStatus, IndexJobCreate, IndexJob}
use energy_agent_diagnosis.Persistence.Database.{Database}
use energy_agent_diagnosis.Indexing.Repository.{
  job_of, find_job, add_job, add_new, queue_job, mark_published, mark_publish_failed,
}
use energy_agent_diagnosis.Indexing.Jobs.{
  start_job, fail_job, retry_job, started, restarted, is_terminal, is_failed_job, start, finish,
  fail, retry, given_up, queued_again,
}
use energy_agent_diagnosis.Indexing.Calls.{Call, apply}

-- Whether a job of a status is worked on: not if it is over.
abbrev work_of : IndexJobStatus → ℕ
work_of IndexJobStatus.indexed = 0
work_of IndexJobStatus.degraded = 0
work_of IndexJobStatus.tombstoned = 0
work_of IndexJobStatus.stale = 0
work_of _ = 1

-- A start that hands out a job to be worked on.
abbrev handed_out : Outcome (Option IndexJob) → ℕ
handed_out (ok (some j)) = work_of j.status
handed_out _ = 0

-- How often a call hands a job out, and how often calls in sequence do.
unfoldable pub tried : String → Call → Database → ℕ
tried id (Call.start job_id) db = if job_id == id then handed_out (start job_id db).0 else 0
tried id _ db = 0

unfoldable pub tries : String → List Call → Database → ℕ
unfolding tried
tries id [] db = 0
tries id (c ∷ cs) db = tried id c db + tries id cs (apply c db)

-- How often a job is restarted by hand.
abbrev pub is_retry : String → Call → Bool
is_retry id (Call.retry job_id trace) = job_id == id
is_retry id _ = false

abbrev pub retries : String → List Call → ℕ
retries id [] = 0
retries id (c ∷ cs) = let rest = retries id cs in if is_retry id c then suc rest else rest

-- A job after calls that have tried it `n` times.
record HasTried (id : String) (j : IndexJob) (n : ℕ) (jobs : Table IndexJob) : Type 0 where
  job : IndexJob
  at : Table.get id jobs ≡ some job
  limit : job.max_attempts ≡ j.max_attempts
  fits : job.attempt_count ≤ job.max_attempts
  counted : n + j.attempt_count ≤ job.attempt_count

work_of-is_terminal : (status : IndexJobStatus) → is_terminal status ≡ true → work_of status ≡ 0
work_of-is_terminal status over = ground (arith, over)

module _ (id : String) (j : IndexJob) (fits : j.attempt_count ≤ j.max_attempts) where
  -- A change of the rows under a key that keeps the limit and the count.
  modify-HasTried :
      (k : String) (f : IndexJob → IndexJob) (t : Table IndexJob)
      → Table.get id t ≡ some j
      → ((f j).max_attempts ≡ j.max_attempts)
      → ((f j).attempt_count ≡ j.attempt_count)
      → HasTried id j 0 (Table.modify k f t)
  modify-HasTried k f t at limit count = elim (Bool-cases (k == id)) [
    | inl same ↦ record {
      job = f j;
      at = ground (arith, at, same, get-modify k id f t);
      limit = limit;
      fits = omega (arith, limit, count, fits);
      counted = omega (arith, count);
    }
    | inr other ↦ record {
      job = j;
      at = ground (arith, at, other, get-modify k id f t);
      limit = refl;
      fits = fits;
      counted = omega arith;
    }
  ]

  same-HasTried : (t : Table IndexJob) → Table.get id t ≡ some j → HasTried id j 0 t
  same-HasTried t at = record { job = j; at = at; limit = refl; fits = fits; counted = omega arith }

  add_job-HasTried :
      (new_id : String) (r : IndexJobCreate) (db : Database)
      → Table.get id db.jobs ≡ some j
      → HasTried id j 0 (add_job new_id r db).1.jobs
  unfolding add_job add_new
  add_job-HasTried new_id r db at = elim (Option-cases (find_job r db.jobs)) [
    | inl gone ↦
        rw (add_job, gone)
          (same-HasTried (Table.add new_id (job_of r) db.jobs)
            (ground (arith, at, get-add new_id id (job_of r) db.jobs)))
    | inr (p, found) ↦ rw (add_job, found) (same-HasTried db.jobs at)
  ]

  start_other-HasTried :
      (k : String) (db : Database)
      → (k == id) ≡ false
      → Table.get id db.jobs ≡ some j
      → HasTried id j 0 (start k db).1.jobs
  unfolding start start_job
  start_other-HasTried k db other at = elim (Option-cases (Table.get k db.jobs)) [
    | inl gone ↦ rw (start, gone) (same-HasTried db.jobs at)
    | inr (row, found) ↦ elim (Bool-cases (is_terminal row.status)) [
      | inl over ↦ rw (start, found, start_job, over) (same-HasTried db.jobs at)
      | inr live ↦ elim (Bool-cases (ltb row.max_attempts (row.attempt_count + 1))) [
        | inl used ↦ rw (start, found, start_job, live, used) (same-HasTried db.jobs at)
        | inr left ↦
            rw (start, found, start_job, live, left)
              (same-HasTried (Table.modify k started db.jobs)
                (ground (arith, at, other, get-modify k id started db.jobs)))
      ]
    ]
  ]

  start-HasTried :
      (db : Database)
      → Table.get id db.jobs ≡ some j
      → HasTried id j (handed_out (start id db).0) (start id db).1.jobs
  unfolding start start_job
  start-HasTried db at = elim (Bool-cases (is_terminal j.status)) [
    | inl over ↦
        let within : ltb j.max_attempts j.attempt_count ≡ false = ground (arith, fits) in
        rw (start, at, start_job, over, within)
          (subst (λ n. HasTried id j n db.jobs) (sym (work_of-is_terminal j.status over))
            (same-HasTried db.jobs at))
    | inr live ↦ elim (Bool-cases (ltb j.max_attempts (j.attempt_count + 1))) [
      | inl used ↦ rw (start, at, start_job, live, used) (same-HasTried db.jobs at)
      | inr left ↦
          rw (start, at, start_job, live, left)
            (record {
              job = started j;
              at = ground (arith, at, eq_refl id, get-modify id id started db.jobs);
              limit = refl;
              fits = ground (arith, left);
              counted = omega arith;
            })
    ]
  ]

  fail-HasTried :
      (k code message : String) (delay : Option ℕ) (now : ℕ) (db : Database)
      → Table.get id db.jobs ≡ some j
      → HasTried id j 0 (fail k code message delay now db).jobs
  unfolding fail fail_job
  fail-HasTried k code message none now db at = elim (Option-cases (Table.get k db.jobs)) [
    | inl gone ↦ rw (fail, gone) (same-HasTried db.jobs at)
    | inr (row, found) ↦
        rw (fail, found) (modify-HasTried k (given_up code message) db.jobs at refl refl)
  ]
  fail-HasTried k code message (some ms) now db at = elim (Option-cases (Table.get k db.jobs)) [
    | inl gone ↦ rw (fail, gone) (same-HasTried db.jobs at)
    | inr (row, found) ↦
        rw (fail, found)
          (modify-HasTried k (queued_again code message (now + ms)) db.jobs at refl refl)
  ]

  queue_job_keeps :
      (i : IndexJob)
      → ((queue_job i).max_attempts ≡ i.max_attempts)
        × ((queue_job i).attempt_count ≡ i.attempt_count)
  queue_job_keeps i = ground arith

  retry_other-HasTried :
      (k trace : String) (db : Database)
      → (k == id) ≡ false
      → Table.get id db.jobs ≡ some j
      → HasTried id j 0 (retry k trace db).1.jobs
  unfolding retry retry_job
  retry_other-HasTried k trace db other at = elim (Option-cases (Table.get k db.jobs)) [
    | inl gone ↦ rw (retry, gone) (same-HasTried db.jobs at)
    | inr (row, found) ↦ elim (Bool-cases (is_failed_job row)) [
      | inl failed ↦
          rw (retry, found, retry_job, failed)
            (same-HasTried (Table.modify k restarted db.jobs)
              (ground (arith, at, other, get-modify k id restarted db.jobs)))
      | inr live ↦ rw (retry, found, retry_job, live) (same-HasTried db.jobs at)
    ]
  ]

  -- A call that does not restart the job.
  apply-HasTried :
      (c : Call) (db : Database)
      → is_retry id c ≡ false
      → Table.get id db.jobs ≡ some j
      → HasTried id j (tried id c db) (apply c db).jobs
  unfolding apply tried mark_published mark_publish_failed finish
  apply-HasTried (Call.add_job new_id r) db other at = add_job-HasTried new_id r db at
  apply-HasTried (Call.mark_published n k) db other at =
      let keeps = queue_job_keeps j in modify-HasTried k queue_job db.jobs at keeps.0 keeps.1
  apply-HasTried (Call.mark_publish_failed n code) db other at = same-HasTried db.jobs at
  apply-HasTried (Call.start k) db other at = elim (Bool-cases (k == id)) [
    | inl same ↦
        let here : id ≡ k = sym ((eq_iff k id).0 same) in
        rw (same) (
          subst (λ i. HasTried id j (handed_out (start i db).0) (start i db).1.jobs) here
            (start-HasTried db at))
    | inr differs ↦ rw (differs) (start_other-HasTried k db differs at)
  ]
  apply-HasTried (Call.finish k status) db other at = modify-HasTried k _ db.jobs at refl refl
  apply-HasTried (Call.fail k code message delay now) db other at =
      fail-HasTried k code message delay now db at
  apply-HasTried (Call.retry k trace) db other at = retry_other-HasTried k trace db other at

-- A restart of the job sets its count back, or leaves it alone.
retry_self :
    (id trace : String) (db : Database) (j : IndexJob)
    → j.attempt_count ≤ j.max_attempts
    → Table.get id db.jobs ≡ some j
    → (job : IndexJob) × (Table.get id (retry id trace db).1.jobs ≡ some job)
      × (job.max_attempts ≡ j.max_attempts)
      × (job.attempt_count ≤ job.max_attempts)
unfolding retry retry_job
retry_self id trace db j fits at = elim (Bool-cases (is_failed_job j)) [
  | inl failed ↦
      rw (retry, at, retry_job, failed)
        (
          restarted j,
          ground (arith, at, eq_refl id, get-modify id id restarted db.jobs),
          refl,
          omega arith,
        )
  | inr live ↦ rw (retry, at, retry_job, live) (j, at, refl, fits)
]

apply_retry :
    (id : String) (c : Call) (db : Database) (j : IndexJob)
    → is_retry id c ≡ true
    → j.attempt_count ≤ j.max_attempts
    → Table.get id db.jobs ≡ some j
    → (job : IndexJob) × (Table.get id (apply c db).jobs ≡ some job)
      × (job.max_attempts ≡ j.max_attempts)
      × (job.attempt_count ≤ job.max_attempts)
      × (tried id c db ≡ 0)
unfolding apply tried
apply_retry id (Call.retry k trace) db j again fits at =
    let here : id ≡ k = sym ((eq_iff k id).0 again) in
    let (job, found, limit, within) = retry_self id trace db j fits at in
    (
      job,
      subst (λ i. Table.get id (retry i trace db).1.jobs ≡ some job) here found,
      limit,
      within,
      refl,
    )
apply_retry id _ db j again fits at = absurd (ground (arith, again))

-- A job is handed out to be worked on at most as often as its limit, less the attempts it has behind it, and as
-- often as its limit again for each time that it is restarted by hand, whatever the repository is asked to
-- do, in any order. The job is on record, within its limit.
pub tries_bounded :
    (id : String) (cs : List Call) (db : Database) (j : IndexJob)
    → Table.get id db.jobs ≡ some j
    → j.attempt_count ≤ j.max_attempts
    → tries id cs db + j.attempt_count ≤ j.max_attempts * suc (retries id cs)
unfolding tries
tries_bounded id [] db j at fits = omega (arith, fits)
tries_bounded id (c ∷ cs) db j at fits = elim (Bool-cases (is_retry id c)) [
  | inr other ↦
      let more = apply-HasTried id j fits c db other at in
      let rest = tries_bounded id cs (apply c db) more.job more.at more.fits in
      let rest' =
        subst (λ m. tries id cs (apply c db) + more.job.attempt_count ≤ m * suc (retries id cs))
          more.limit rest in
      let counted = more.counted in rw (other) (omega (arith, rest', counted))
  | inl again ↦
      let (job, found, limit, within, none_tried) = apply_retry id c db j again fits at in
      let rest =
        subst (λ m. tries id cs (apply c db) + job.attempt_count ≤ m * suc (retries id cs)) limit
          (tries_bounded id cs (apply c db) job found within) in
      rw (again) (omega (arith, rest, none_tried, fits))
]
