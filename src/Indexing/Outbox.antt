-- ===== src/Indexing/Outbox.antt =====
-- The pending jobs and the pending rows of the outbox (src/energy_agent/indexing/repository.py).
use energy_agent_diagnosis.Common.{
  ℕ, ◌+◌, ◌≡◌, String, Option, none, some, List, [], ◌∷◌, ◌++◌, arith, Bool, true, false, ◌&&◌,
  ◌==◌, string_eq, nat_eq, any, ◌≢◌, inl, inr, Option-cases, Bool-cases, if◌then◌else◌, ltb,
  eq_refl,
}
use energy_agent_diagnosis.Common.Table
use energy_agent_diagnosis.Common.Table.{Table, Holds, Holds-modify, Holds-add, get-modify}
use energy_agent_diagnosis.Persistence.Index.{
  IndexJobStatus, IndexJobCreate, IndexJob, OutboxRow, is_pending_row,
}
use energy_agent_diagnosis.Persistence.Database.{Database}
use energy_agent_diagnosis.Indexing.Repository.{
  job_of, find_job, add_job, add_new, is_pending_job, queue_job, publish_row, modify_row,
  mark_published, mark_publish_failed, outbox_row, message_of,
}
use energy_agent_diagnosis.Indexing.Jobs.{
  start_job, fail_job, retry_job, started, restarted, is_terminal, is_failed_job, start, finish,
  fail, fail_entity, retry, retry_message, given_up,
}
use energy_agent_diagnosis.Indexing.Calls.{Call, apply, apply_all}

-- A pending row of the outbox is for the job.
abbrev pub waits_for : String → OutboxRow → Bool
waits_for k r = is_pending_row r && r.job_id == k

abbrev pub Covers : List OutboxRow → String → IndexJob → Type 0
Covers rows k j = is_pending_job j ≡ true → any (waits_for k) rows ≡ true

abbrev pub IsCovered : Database → Type 0
IsCovered db = Holds (Covers db.outbox) db.jobs

any-append :
    (p : OutboxRow → Bool) (xs ys : List OutboxRow) → any p xs ≡ true → any p (xs ++ ys) ≡ true
any-append p [] ys h = cc
any-append p (x ∷ xs) ys h = ground (arith, any-append p xs ys)

any-append_last :
    (p : OutboxRow → Bool) (xs : List OutboxRow) (y : OutboxRow)
    → p y ≡ true
    → any p (xs ++ y ∷ []) ≡ true
any-append_last p [] y h = ground arith
any-append_last p (x ∷ xs) y h = ground (arith, any-append_last p xs y)

abbrev pub row_at : ℕ → List OutboxRow → Option OutboxRow
row_at id [] = none
row_at id (r ∷ rs) = let rest = row_at id rs in if r.id == id then some r else rest

-- A change that leaves every row's job and pending mark leaves the rows that wait.
any-modify_row_failed :
    (k : String) (id : ℕ) (code : String) (rs : List OutboxRow)
    → any (waits_for k) rs ≡ true
    → any (waits_for k) (
        modify_row id
          (λ r. record r { publish_attempts = r.publish_attempts + 1; last_error_code = some code })
          rs)
      ≡ true
unfolding modify_row
any-modify_row_failed k id code [] h = h
any-modify_row_failed k id code (r ∷ rs) h = ground (arith, any-modify_row_failed k id code rs)

-- Publishing the row of one job leaves the rows that wait for another.
any-modify_row_published :
    (k : String) (id : ℕ) (rs : List OutboxRow)
    → ((r : OutboxRow) → row_at id rs ≡ some r → (r.job_id == k) ≡ false)
    → any (waits_for k) rs ≡ true
    → any (waits_for k) (modify_row id publish_row rs) ≡ true
unfolding modify_row
any-modify_row_published k id [] own h = h
any-modify_row_published k id (r ∷ rs) own h = elim (Bool-cases (r.id == id)) [
  | inl here ↦ rw here (ground (arith, own r (rw here)))
  | inr there ↦
      rw there (ground (arith, any-modify_row_published k id rs (λ s e. own s (rw there e))))
]

-- More rows in the outbox cover the jobs that were covered.
Covers-append :
    (t : Table IndexJob) (rows more : List OutboxRow)
    → Holds (Covers rows) t
    → Holds (Covers (rows ++ more)) t
Covers-append t rows more h k j e p = any-append (waits_for k) rows more (h k j e p)

-- A change of the jobs that comes with a new row that waits for the job changed.
module _ (t : Table IndexJob) (rows : List OutboxRow) (id : String) (row : OutboxRow) where
  Covers-add :
      (j : IndexJob)
      → waits_for id row ≡ true
      → Holds (Covers rows) t
      → Holds (Covers (rows ++ row ∷ [])) (Table.add id j t)
  Covers-add j w h =
      Holds-add (Covers (rows ++ row ∷ [])) id j t (λ _. any-append_last (waits_for id) rows row w)
        (Covers-append t rows (row ∷ []) h)

  Covers-modify :
      (f : IndexJob → IndexJob)
      → waits_for id row ≡ true
      → Holds (Covers rows) t
      → Holds (Covers (rows ++ row ∷ [])) (Table.modify id f t)
  Covers-modify f w h =
      Holds-modify (Covers (rows ++ row ∷ [])) id f t
        (λ a found c _. any-append_last (waits_for id) rows row w)
        (Covers-append t rows (row ∷ []) h)

add_job-IsCovered :
    (id : String) (r : IndexJobCreate) (db : Database)
    → IsCovered db
    → IsCovered (add_job id r db).1
unfolding add_job add_new
add_job-IsCovered id r db h = elim (Option-cases (find_job r db.jobs)) [
  | inl e ↦
      let row = outbox_row id "index.job.requested.v1" (message_of id r) db.next_outbox_id in
      rw e (Covers-add db.jobs db.outbox id row (job_of r) (eq_refl id) h)
  | inr (p, e) ↦ rw e h
]

start_job-IsCovered :
    (id : String) (db : Database) (o : Option IndexJob)
    → IsCovered db
    → IsCovered (start_job id db o).1
unfolding start_job
start_job-IsCovered id db none h = h
start_job-IsCovered id db (some j) h = elim (Bool-cases (is_terminal j.status)) [
  | inl t ↦ rw t h
  | inr t ↦ rw t (elim (Bool-cases (ltb j.max_attempts (j.attempt_count + 1))) [
    | inl over ↦ rw over h
    | inr fits ↦ rw fits (Holds-modify (Covers db.outbox) id started db.jobs (λ a row c p. cc) h)
  ])
]

pub outbox-fail_entity :
    (j : IndexJob) (code : String) (db : Database) → (fail_entity j code db).outbox ≡ db.outbox
unfolding fail_entity
outbox-fail_entity j code db = ground arith

fail_job-IsCovered :
    (id code message : String) (delay : Option ℕ) (now : ℕ) (db : Database) (o : Option IndexJob)
    → IsCovered db
    → IsCovered (fail_job id code message delay now db o)
unfolding fail_job
fail_job-IsCovered id code message delay now db none h = h
fail_job-IsCovered id code message none now db (some j) h =
    rw (outbox-fail_entity j code db)
      (Holds-modify (Covers db.outbox) id (given_up code message) db.jobs (λ a row c p. cc) h)
fail_job-IsCovered id code message (some ms) now db (some j) h =
    Holds-modify (Covers db.outbox) id _ db.jobs (λ a row c p. cc) h

retry_job-IsCovered :
    (id trace : String) (db : Database) (o : Option IndexJob)
    → IsCovered db
    → IsCovered (retry_job id trace db o).1
unfolding retry_job
retry_job-IsCovered id trace db none h = h
retry_job-IsCovered id trace db (some j) h = elim (Bool-cases (is_failed_job j)) [
  | inl f ↦
      let row = outbox_row id "index.job.retried.v1" (retry_message id trace j) db.next_outbox_id in
      rw f (Covers-modify db.jobs db.outbox id row restarted (eq_refl id) h)
  | inr f ↦ rw f h
]

-- What the worker and the publisher respect: a row is published with the id of its own job, and a
-- job is not finished as pending.
abbrev pub Fits : Call → Database → Type 0
Fits (Call.mark_published id job_id) db =
    (r : OutboxRow) → row_at id db.outbox ≡ some r → r.job_id ≡ job_id
Fits (Call.finish job_id status) db = status ≢ IndexJobStatus.pending
Fits _ db = Unit

pub mark_published-IsCovered :
    (n : ℕ) (id : String) (db : Database)
    → Fits (Call.mark_published n id) db
    → IsCovered db
    → IsCovered (mark_published n id db)
unfolding mark_published
mark_published-IsCovered n id db own h k j e p = elim (Bool-cases (id == k)) [
  | inl same ↦ absurd (ground (arith, get-modify id k queue_job db.jobs))
  | inr other ↦
      any-modify_row_published k n db.outbox (λ r at. rw (own r at) other)
        (h k j (rw (get-modify, other) at e) p)
]

pub mark_publish_failed-IsCovered :
    (n : ℕ) (code : String) (db : Database)
    → IsCovered db
    → IsCovered (mark_publish_failed n code db)
unfolding mark_publish_failed
mark_publish_failed-IsCovered n code db h k j e p =
    any-modify_row_failed k n code db.outbox (h k j e p)

apply-IsCovered : (c : Call) (db : Database) → Fits c db → IsCovered db → IsCovered (apply c db)
unfolding apply start finish fail retry
apply-IsCovered (Call.add_job id r) db f h = add_job-IsCovered id r db h
apply-IsCovered (Call.mark_published n id) db f h = mark_published-IsCovered n id db f h
apply-IsCovered (Call.mark_publish_failed n code) db f h = mark_publish_failed-IsCovered n code db h
apply-IsCovered (Call.start id) db f h = start_job-IsCovered id db (Table.get id db.jobs) h
apply-IsCovered (Call.finish id status) db f h =
    Holds-modify (Covers db.outbox) id _ db.jobs (λ a row c p. absurd (f (ground arith))) h
apply-IsCovered (Call.fail id code message delay now) db f h =
    fail_job-IsCovered id code message delay now db (Table.get id db.jobs) h
apply-IsCovered (Call.retry id trace) db f h =
    retry_job-IsCovered id trace db (Table.get id db.jobs) h

abbrev pub AllFit : List Call → Database → Type 0
AllFit [] db = Unit
AllFit (c ∷ cs) db = Fits c db × AllFit cs (apply c db)

-- From tables in which every pending job has a pending outbox row of its own, any calls of the
-- repository that publish a row under its own job, and finish no job as pending, lead to such tables:
-- no job that waits to be published is ever left without a row that the publisher will read.
pub outbox_covers :
    (cs : List Call) (db : Database) → AllFit cs db → IsCovered db → IsCovered (apply_all cs db)
unfolding apply_all
outbox_covers [] db f h = h
outbox_covers (c ∷ cs) db f h = outbox_covers cs (apply c db) f.1 (apply-IsCovered c db f.0 h)
