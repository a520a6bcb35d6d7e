-- ===== src/Cases/Handler/Batch.antt =====
-- src/energy_agent/indexing/handler_runtime.py: the handler of the index jobs of several cases (`_case_batch`).
use energy_agent_diagnosis.Common.{
  String, Option, none, some, not, ◌||◌, List, [], ◌∷◌, ◌==◌, string_eq, if◌then◌else◌,
}
use energy_agent_diagnosis.Common.Table
use energy_agent_diagnosis.Persistence.Index.{entity_eq, IndexJobMessage}
use energy_agent_diagnosis.Persistence.Cases.{status_eq, approved, DiagnosisCase}
use energy_agent_diagnosis.Persistence.Database.{Database}
use energy_agent_diagnosis.Cases.Service.Requests.{Library}
use energy_agent_diagnosis.Cases.Handler.{Runtime, Handled, projects, index_row}

module _ (lib : Library) (r : Runtime) where
  -- The cases of a batch, looked up and tested before anything is written.
  unfoldable pub batch_rows :
      List IndexJobMessage → Database → Option (List (IndexJobMessage × DiagnosisCase))
  batch_rows [] db = some []
  batch_rows (e ∷ es) db =
      let rest = batch_rows es db in
      elim (Table.get e.entity_id db.cases)
        as (λ _. Option (List (IndexJobMessage × DiagnosisCase))) [
          | none ↦ none
          | some c ↦
              if not (lib.str c.case_version == e.entity_version)
                || not (c.review_status == approved)
              then none
              else elim rest as (λ _. Option (List (IndexJobMessage × DiagnosisCase))) [
                | none ↦ none
                | some rows ↦ some ((e, c) ∷ rows)
              ]
        ]

  unfoldable pub index_rows : List (IndexJobMessage × DiagnosisCase) → Database → Database
  index_rows [] db = db
  index_rows ((e, c) ∷ rows) db = index_rows rows (index_row lib r e c db)

  -- The result of each job.
  unfoldable pub batch_results : List (IndexJobMessage × DiagnosisCase) → List (String × Handled)
  batch_results [] = []
  batch_results ((e, c) ∷ rows) =
      (e.job_id, Handled.indexed (not (projects lib r c))) ∷ batch_results rows

  -- `_case_batch`; none is an exception, raised before anything is written.
  unfoldable pub handle_batch :
      List IndexJobMessage → Database → Option (List (String × Handled) × Database)
  handle_batch es db =
      elim (batch_rows es db) as (λ _. Option (List (String × Handled) × Database)) [
        | none ↦ none
        | some rows ↦ if r.indexes then some (batch_results rows, index_rows rows db) else none
      ]
