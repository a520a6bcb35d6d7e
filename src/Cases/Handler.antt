-- ===== src/Cases/Handler.antt =====
-- src/energy_agent/indexing/handler_runtime.py: the handler of the index jobs of a case, one event at a time
-- (`_case`).
pub mod Batch
use energy_agent_diagnosis.Common.{
  String, Option, none, some, Bool, true, false, not, ◌&&◌, ◌||◌, List, [], ◌∷◌, ◌==◌, string_eq,
  truthy, if◌then◌else◌,
}
use energy_agent_diagnosis.Common.Errors.{ok, err}
use energy_agent_diagnosis.Common.Table
use energy_agent_diagnosis.Persistence.Index.{
  EntityType, entity_eq, IndexOperation, IndexJobCreate, IndexJobMessage,
}
use energy_agent_diagnosis.Persistence.Cases.{
  CaseStatus, status_eq, approved, disabled, superseded, CaseIndexStatus, DiagnosisCase,
  GraphProjectionStatus, GraphProjection,
}
use energy_agent_diagnosis.Persistence.Database.{Database}
use energy_agent_diagnosis.Indexing.Repository.{add_job}
use energy_agent_diagnosis.Cases.Service.Requests.{Library, join}

-- What a handling meets: whether the embedding, the vector store and the graph do what they are asked, and
-- the id that a new job draws.
pub record Runtime : Type 0 where
  pub indexes : Bool
  pub deletes : Bool
  pub graph_available : Bool
  pub graph_works : Bool
  pub has_repository : Bool
  pub new_job : String

-- `HandlerResult`, whose status is the one of its case, or the exception that the handler raises.
pub data Handled : Type 0 where
  indexed : Bool → Handled
  tombstoned : Bool → Handled
  stale : Handled
  permanent : String → Handled
  failed : Handled

-- The row of a projection under the event's key.
abbrev pub is_projection : IndexJobMessage → GraphProjection → Bool
is_projection event g =
    (g.entity_type == event.entity_type && g.entity_id == event.entity_id)
    && g.entity_version == event.entity_version

unfoldable pub project_rows :
    IndexJobMessage
    → GraphProjectionStatus
    → Option String
    → List GraphProjection
    → List GraphProjection
project_rows event status error_code [] =
    record {
      entity_type = event.entity_type;
      entity_id = event.entity_id;
      entity_version = event.entity_version;
      status = status;
      last_error_code = error_code;
    }
    ∷ []
project_rows event status error_code (g ∷ gs) =
    let rest = project_rows event status error_code gs in
    if is_projection event g
    then record g { status = status; last_error_code = error_code } ∷ gs
    else g ∷ rest

-- `_projection`
abbrev pub projection :
    IndexJobMessage → GraphProjectionStatus → Option String → Database → Database
projection event status error_code db = record db {
  projections = project_rows event status error_code db.projections;
}

-- `_set_case_index`
abbrev pub case_index : CaseIndexStatus → Bool → Option String → DiagnosisCase → DiagnosisCase
case_index status active text c = record c {
  index_status = status;
  index_error_code = none;
  is_active = active;
  embedding_text = elim text [ none ↦ c.embedding_text | some t ↦ some t ];
}

abbrev pub set_case_index : String → CaseIndexStatus → Bool → Option String → Database → Database
set_case_index case_id status active text db = record db {
  cases = Table.modify case_id (case_index status active text) db.cases;
}

abbrev pub superseded_row : DiagnosisCase → DiagnosisCase
superseded_row c = record c {
  review_status = CaseStatus.superseded;
  is_active = false;
  index_status = CaseIndexStatus.queued;
}

-- The values that are not empty.
unfoldable pub present : List (Option String) → List String
present [] = []
present (none ∷ vs) = present vs
present (some v ∷ vs) = let rest = present vs in if truthy v then v ∷ rest else rest

-- `case.embedding_text or ...`
unfoldable pub text_of : DiagnosisCase → String
unfolding present
text_of c =
    let built = join "\n" (
      present (
        c.device_type
        ∷ c.device_model
        ∷ c.alarm_name
        ∷ c.symptom_summary
        ∷ c.timeseries_features
        ∷ some c.root_cause
        ∷ some (join "；" c.resolution_steps)
        ∷ [])) in
    elim c.embedding_text [ none ↦ built | some t ↦ if truthy t then t else built ]

-- `status not in {"DISABLED", "SUPERSEDED"}`
abbrev pub is_withdrawn : CaseStatus → Bool
is_withdrawn disabled = true
is_withdrawn superseded = true
is_withdrawn _ = false

-- The last resolution step that is not blank.
unfoldable pub has_step : Library → List String → Bool
has_step lib [] = false
has_step lib (s ∷ ss) = truthy (lib.strip s) || has_step lib ss

abbrev pub has_text : Library → Option String → Bool
has_text lib none = false
has_text lib (some s) = truthy (lib.strip s)

-- `_project_case_graph`: whether it returns.
abbrev pub projects : Library → Runtime → DiagnosisCase → Bool
projects lib r c =
    (r.graph_available && r.graph_works)
    && (has_text lib c.device_type && has_text lib c.alarm_name)
    && has_step lib c.resolution_steps

abbrev pub is_tombstone : IndexOperation → Bool
is_tombstone IndexOperation.tombstone = true
is_tombstone _ = false

module _ (lib : Library) (r : Runtime) (event : IndexJobMessage) where
  -- The job that takes a replaced case out of the index.
  abbrev pub tombstone_request : DiagnosisCase → IndexJobCreate
  tombstone_request old = record {
    entity_type = EntityType.diagnosis_case;
    entity_id = old.case_id;
    entity_version = lib.str old.case_version;
    operation = IndexOperation.tombstone;
    trace_id = event.trace_id;
    correlation_id = event.correlation_id;
    causation_id = event.job_id;
    max_attempts = 3;
  }

  -- `_queue_superseded_case`: a transaction, which a job that cannot be added rolls back. Only a case that is
  -- approved is replaced.
  unfoldable pub queue_superseded : String → Handled → Database → Handled × Database
  queue_superseded old_id result db =
      elim (Table.get old_id db.cases) as (λ _. Handled × Database) [
        | none ↦ (result, db)
        | some old ↦
            let changed = record db { cases = Table.modify old_id superseded_row db.cases } in
            let (job, db') = add_job r.new_job (tombstone_request old) changed in
            if not (old.review_status == approved)
            then (result, db)
            else elim job as (λ _. Handled × Database) [
              | err e ↦ (Handled.failed, db)
              | ok j ↦ (result, db')
            ]
      ]

  abbrev pub projected_db : DiagnosisCase → Database → Database
  projected_db c db =
      if projects lib r c
      then projection event GraphProjectionStatus.projected none db
      else projection event GraphProjectionStatus.degraded
          (some (if r.graph_available then "GRAPH_PROJECTION_FAILED" else "GRAPH_DISABLED")) db

  -- The graph, then the case.
  abbrev pub index_row : DiagnosisCase → Database → Database
  index_row c db =
      set_case_index event.entity_id
        (if projects lib r c then CaseIndexStatus.indexed else CaseIndexStatus.degraded) true
        (some (text_of c)) (projected_db c db)

  unfoldable pub replace_old : DiagnosisCase → Database → Handled × Database
  replace_old c db =
      let result = Handled.indexed (not (projects lib r c)) in
      elim c.supersedes_case_id as (λ _. Handled × Database) [
        | none ↦ (result, db)
        | some old_id ↦
            let replaced = queue_superseded old_id result db in
            if not (truthy old_id)
            then (result, db)
            else if r.has_repository
            then replaced
            else (Handled.permanent "INDEX_REPOSITORY_UNAVAILABLE", db)
      ]

  unfoldable pub upsert_case : DiagnosisCase → Database → Handled × Database
  upsert_case c db =
      if not (c.review_status == approved)
      then (Handled.stale, db)
      else if not r.indexes
      then (Handled.failed, db)
      else replace_old c (index_row c db)

  unfoldable pub tombstone_case : DiagnosisCase → Database → Handled × Database
  tombstone_case c db =
      let degraded = r.graph_available && not r.graph_works in
      let marked =
        if degraded
        then projection event GraphProjectionStatus.degraded (some "GRAPH_PROJECTION_FAILED") db
        else projection event GraphProjectionStatus.tombstoned none db in
      if c.is_active || not (is_withdrawn c.review_status)
      then (Handled.stale, db)
      else if not r.deletes
      then (Handled.failed, db)
      else (
        Handled.tombstoned degraded,
        set_case_index event.entity_id CaseIndexStatus.tombstoned false none marked,
      )

  -- `_case`
  unfoldable pub handle_case : Database → Handled × Database
  handle_case db = elim (Table.get event.entity_id db.cases) as (λ _. Handled × Database) [
    | none ↦ (Handled.permanent "INDEX_ENTITY_NOT_FOUND", db)
    | some c ↦
        if not (lib.str c.case_version == event.entity_version)
        then (Handled.stale, db)
        else if is_tombstone event.operation
        then tombstone_case c db
        else upsert_case c db
  ]
