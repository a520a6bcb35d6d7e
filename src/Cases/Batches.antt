-- ===== src/Cases/Batches.antt =====
-- The two ways of src/energy_agent/indexing/handler_runtime.py to index a case: one event at a time (`_case`)
-- and in a batch (`_case_batch`).
use energy_agent_diagnosis.Common.{
  String, none, some, true, false, not, ◌∷◌, [], ◌≡◌, ◌≢◌, refl, arith, ◌==◌, string_eq, eq_iff,
  truthy, inl, inr, Bool-cases, ap, ◌∙◌,
}
use mathlib.Core.Option
use energy_agent_diagnosis.Common.Errors.{ok}
use energy_agent_diagnosis.Common.Table
use energy_agent_diagnosis.Common.Table.{Table, get-modify, get-modify_self}
use energy_agent_diagnosis.Persistence.Index.{IndexJobMessage, IndexJobCreate}
use energy_agent_diagnosis.Persistence.Cases.{approved, DiagnosisCase, status_eq, status_beq_iff}
use energy_agent_diagnosis.Persistence.Database.{Database}
use energy_agent_diagnosis.Indexing.Repository.{find_job, add_job, or_add, add_new, job_of}
use energy_agent_diagnosis.Cases.Service.Requests.{Library}
use energy_agent_diagnosis.Cases.Service.Outcomes.{add_job_cases}
use energy_agent_diagnosis.Cases.Handler.Batch.{batch_rows, index_rows, handle_batch}
use energy_agent_diagnosis.Cases.Handler.{
  Runtime, Handled, superseded_row, tombstone_request, queue_superseded, index_row, replace_old,
  upsert_case, is_tombstone, handle_case, projects,
}

add_job_new :
    (new_id : String) (r : IndexJobCreate) (db : Database)
    → find_job r db.jobs ≡ none
    → add_job new_id r db ≡ (ok (new_id, job_of r), add_new new_id r db)
unfolding add_job or_add
add_job_new new_id r db h = rw (h)

module _ (lib : Library) (r : Runtime) (event : IndexJobMessage) where
  -- A case in another row is not changed by indexing.
  index_row_other :
      (c : DiagnosisCase) (db : Database) (k : String)
      → k ≢ event.entity_id
      → Table.get k (index_row lib r event c db).cases ≡ Table.get k db.cases
  index_row_other c db k other = elim (Bool-cases (projects lib r c)) [
    | inl done ↦ rw (done, get-modify, differs) refl
    | inr fails ↦ rw (fails, get-modify, differs) refl
  ]
    where
      differs : (event.entity_id == k) ≡ false
      differs = ground (arith, other, eq_iff event.entity_id k)

  index_row_jobs : (c : DiagnosisCase) (db : Database) → (index_row lib r event c db).jobs ≡ db.jobs
  index_row_jobs c db = ground arith

  queue_superseded_row :
      (old_id : String) (result : Handled) (db : Database) (old : DiagnosisCase)
      → Table.get old_id db.cases ≡ some old
      → old.review_status ≡ approved
      → find_job (tombstone_request lib r event old) db.jobs ≡ none
      → Table.get old_id (queue_superseded lib r event old_id result db).1.cases
        ≡ some (superseded_row old)
  unfolding queue_superseded add_new
  queue_superseded_row old_id result db old row current new =
      let changed = record db { cases = Table.modify old_id superseded_row db.cases } in
      let added = add_job_new r.new_job (tombstone_request lib r event old) changed new in
      rw (queue_superseded, row, (status_beq_iff old.review_status approved).1 current, added)
        (ap (Table.get old_id) (add_job_cases r.new_job (tombstone_request lib r event old) changed)
          ∙ get-modify_self old_id superseded_row db.cases old row)

  module _ (db : Database) (c old : DiagnosisCase) (old_id : String)
      (row : Table.get event.entity_id db.cases ≡ some c)
      (row_old : Table.get old_id db.cases ≡ some old) (is_approved : c.review_status ≡ approved)
      (old_approved : old.review_status ≡ approved)
      (at_version : lib.str c.case_version ≡ event.entity_version)
      (other : old_id ≢ event.entity_id) (works : r.indexes ≡ true) where
    current : (c.review_status == approved) ≡ true
    current = (status_beq_iff c.review_status approved).1 is_approved

    versions : (lib.str c.case_version == event.entity_version) ≡ true
    versions = (eq_iff _ _).1 at_version

    -- Where an event indexes an approved case that replaces an approved case, the handler of one event
    -- leaves the replaced case superseded, out of use and queued, and the handler of batches leaves it as
    -- it was. The case has the version of the event, which is no tombstone, the two cases have different
    -- ids, the index takes the case, the runtime has its repository, and the replaced case has no job for
    -- its removal yet.
    pub handle_batch-superseded :
        is_tombstone event.operation ≡ false
        → c.supersedes_case_id ≡ some old_id
        → truthy old_id ≡ true
        → r.has_repository ≡ true
        → find_job (tombstone_request lib r event old) db.jobs ≡ none
        → (Table.get old_id (handle_case lib r event db).1.cases ≡ some (superseded_row old))
          × (Option.map (λ p. Table.get old_id p.1.cases) (handle_batch lib r (event ∷ []) db)
              ≡ some (some old))
    unfolding handle_case upsert_case replace_old handle_batch batch_rows index_rows
        queue_superseded
    handle_batch-superseded upsert replaces named stored new =
        let indexed = index_row lib r event c db in
        let kept : Table.get old_id indexed.cases ≡ some old =
          index_row_other c db old_id other ∙ row_old in
        let result = Handled.indexed (not (projects lib r c)) in
        (
          rw
              (
                handle_case, row, versions, upsert, upsert_case, current, works, replace_old,
                replaces, named, stored,
              )
              (queue_superseded_row old_id result indexed old kept old_approved
                (ap (find_job (tombstone_request lib r event old)) (index_row_jobs c db) ∙ new)),
          rw (handle_batch, batch_rows, row, versions, current, works, index_rows) (ap some kept),
        )
