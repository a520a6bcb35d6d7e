-- ===== src/Indexing/Publisher.antt =====
-- src/energy_agent/indexing/publisher.py: `OutboxPublisher.publish_once`. Whether the broker takes a
-- row's payload is the argument `sends`.
use energy_agent_diagnosis.Common.{
  ℕ, zero, suc, ◌+◌, ◌≡◌, refl, String, Option, none, some, Bool, List, [], ◌∷◌, arith, Bool-cases,
  inl, inr, if◌then◌else◌, keep, take, length, ◌==◌, string_eq, nat_eq, ◌∙◌, length-append, ◌≤◌,
}
use energy_agent_diagnosis.Persistence.Index.{OutboxRow, is_pending_row}
use energy_agent_diagnosis.Persistence.Cases.{AuditEvent}
use energy_agent_diagnosis.Persistence.Database.{Database, write_audit}
use energy_agent_diagnosis.Indexing.Repository.{
  pending_outbox, mark_published, mark_publish_failed, modify_row, publish_row,
}
use energy_agent_diagnosis.Indexing.Outbox.{
  IsCovered, row_at, mark_published-IsCovered, mark_publish_failed-IsCovered,
}

-- `_audit_queued`: its own failures are only logged.
abbrev pub queued_audit : OutboxRow → AuditEvent
queued_audit row = record {
  actor_id = "service:index-worker";
  action = "index.queued";
  resource_type = "index_job";
  resource_id = row.job_id;
  trace_id = row.payload.trace_id;
  outcome = "succeeded";
}

-- One row of the loop.
unfoldable pub publish_row_of : (OutboxRow → Bool) → OutboxRow → Database → Database
publish_row_of sends row db =
    if sends row
    then write_audit (queued_audit row) (mark_published row.id row.job_id db)
    else mark_publish_failed row.id "INDEX_OUTBOX_PUBLISH_FAILED" db

-- The loop over the rows that were read, with the count of those published.
unfoldable pub publish_rows : (OutboxRow → Bool) → List OutboxRow → ℕ → Database → ℕ × Database
publish_rows sends [] published db = (published, db)
publish_rows sends (row ∷ rows) published db =
    publish_rows sends rows (if sends row then published + 1 else published)
      (publish_row_of sends row db)

unfoldable pub publish_once : (OutboxRow → Bool) → ℕ → Database → ℕ × Database
publish_once sends limit db = publish_rows sends (pending_outbox limit db) 0 db

-- The job of the row of an id.
abbrev pub row_job : ℕ → List OutboxRow → Option String
row_job n [] = none
row_job n (r ∷ rs) = let rest = row_job n rs in if r.id == n then some r.job_id else rest

-- Each row in hand still has, under its id, its job.
abbrev pub Own : List OutboxRow → List OutboxRow → Type 0
Own [] outbox = Unit
Own (row ∷ rows) outbox = (row_job row.id outbox ≡ some row.job_id) × Own rows outbox

job-row_at :
    (n : ℕ) (k : String) (rs : List OutboxRow) (r : OutboxRow)
    → row_job n rs ≡ some k
    → row_at n rs ≡ some r
    → r.job_id ≡ k
job-row_at n k [] r h e = cc
job-row_at n k (s ∷ rs) r h e = ground (arith, job-row_at n k rs r)

-- A publisher's pass changes no row's id or job.
row_job-modify_row :
    (n id : ℕ) (f : OutboxRow → OutboxRow) (rs : List OutboxRow)
    → ((r : OutboxRow) → ((f r).job_id ≡ r.job_id) × ((f r).id ≡ r.id))
    → row_job n (modify_row id f rs) ≡ row_job n rs
unfolding modify_row
row_job-modify_row n id f [] same = refl
row_job-modify_row n id f (r ∷ rs) same = ground (arith, same r, row_job-modify_row n id f rs same)

publish_row-same :
    (r : OutboxRow) → ((publish_row r).job_id ≡ r.job_id) × ((publish_row r).id ≡ r.id)
publish_row-same r = ground arith

Own-same :
    (rows a b : List OutboxRow) → ((n : ℕ) → row_job n b ≡ row_job n a) → Own rows a → Own rows b
Own-same [] a b same h = tt
Own-same (r ∷ rows) a b same h = (same r.id ∙ h.0, Own-same rows a b same h.1)

row_job-publish_row_of :
    (sends : OutboxRow → Bool) (row : OutboxRow) (db : Database) (n : ℕ)
    → row_job n (publish_row_of sends row db).outbox ≡ row_job n db.outbox
unfolding publish_row_of mark_published mark_publish_failed
row_job-publish_row_of sends row db n = elim (Bool-cases (sends row)) [
  | inl sent ↦ rw sent (row_job-modify_row n row.id publish_row db.outbox publish_row-same)
  | inr lost ↦ rw lost (row_job-modify_row n row.id _ db.outbox (λ r. (refl, refl)))
]

publish_row_of-IsCovered :
    (sends : OutboxRow → Bool) (row : OutboxRow) (db : Database)
    → row_job row.id db.outbox ≡ some row.job_id
    → IsCovered db
    → IsCovered (publish_row_of sends row db)
unfolding publish_row_of
publish_row_of-IsCovered sends row db own h = elim (Bool-cases (sends row)) [
  | inl sent ↦ rw sent (
      mark_published-IsCovered row.id row.job_id db
        (λ r. job-row_at row.id row.job_id db.outbox r own) h)
  | inr lost ↦ rw lost (mark_publish_failed-IsCovered row.id _ db h)
]

publish_rows-IsCovered :
    (sends : OutboxRow → Bool) (rows : List OutboxRow) (k : ℕ) (db : Database)
    → Own rows db.outbox
    → IsCovered db
    → IsCovered (publish_rows sends rows k db).1
unfolding publish_rows
publish_rows-IsCovered sends [] k db own h = h
publish_rows-IsCovered sends (row ∷ rows) k db own h =
    let db' = publish_row_of sends row db in
    publish_rows-IsCovered sends rows (if sends row then k + 1 else k) db'
      (Own-same rows db.outbox db'.outbox (row_job-publish_row_of sends row db) own.1)
      (publish_row_of-IsCovered sends row db own.0 h)

-- A pass over the outbox, whichever rows the broker takes, keeps every pending job with a pending row,
-- if each row that it reads has its own job under its id.
pub publish_once-IsCovered :
    (sends : OutboxRow → Bool) (limit : ℕ) (db : Database)
    → Own (pending_outbox limit db) db.outbox
    → IsCovered db
    → IsCovered (publish_once sends limit db).1
unfolding publish_once
publish_once-IsCovered sends limit db own h =
    publish_rows-IsCovered sends (pending_outbox limit db) 0 db own h

unfoldable pub count_sent : (OutboxRow → Bool) → List OutboxRow → ℕ
count_sent sends [] = 0
count_sent sends (row ∷ rows) = (if sends row then 1 else 0) + count_sent sends rows

count_sent-take :
    (sends : OutboxRow → Bool) (limit : ℕ) (rows : List OutboxRow)
    → count_sent sends (take limit rows) ≤ limit
unfolding count_sent
count_sent-take sends zero rows = omega arith
count_sent-take sends (suc limit) [] = omega arith
count_sent-take sends (suc limit) (row ∷ rows) = ground (arith, count_sent-take sends limit rows)

publish_rows_count :
    (sends : OutboxRow → Bool) (rows : List OutboxRow) (k : ℕ) (db : Database)
    → ((publish_rows sends rows k db).0 ≡ k + count_sent sends rows)
      × (length (publish_rows sends rows k db).1.audit ≡ length db.audit + count_sent sends rows)
unfolding publish_rows count_sent publish_row_of mark_published mark_publish_failed
publish_rows_count sends [] k db = (omega arith, omega arith)
publish_rows_count sends (row ∷ rows) k db =
    let db' = publish_row_of sends row db in
    let next = if sends row then k + 1 else k in
    ground (
      arith,
      publish_rows_count sends rows next db',
      length-append db.audit (queued_audit row ∷ []),
    )

-- A pass returns how many of the rows that it read the broker took, at most the limit, and writes one
-- audit for each of them.
pub publish_once_count :
    (sends : OutboxRow → Bool) (limit : ℕ) (db : Database)
    → let (published, db') = publish_once sends limit db in
      (published ≡ count_sent sends (pending_outbox limit db))
      × (length db'.audit ≡ length db.audit + published)
      × (published ≤ limit)
unfolding publish_once pending_outbox
publish_once_count sends limit db =
    let (n, a) = publish_rows_count sends (pending_outbox limit db) 0 db in
    (
      omega (arith, n),
      omega (arith, n, a),
      omega (arith, n, count_sent-take sends limit (keep is_pending_row db.outbox)),
    )
