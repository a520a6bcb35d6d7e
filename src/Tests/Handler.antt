-- ===== src/Tests/Handler.antt =====
-- The theorem on the two ways to index a case, at concrete inputs.
use mathlib.Core.Option
use energy_agent_diagnosis.Common.{none, some, true, false, [], ◌∷◌, ◌≡◌, refl, eq_iff, arith}
use energy_agent_diagnosis.Common.Table
use energy_agent_diagnosis.Persistence.Index.{EntityType, IndexOperation, IndexJobMessage}
use energy_agent_diagnosis.Persistence.Cases.{CaseStatus, CaseIndexStatus, DiagnosisCase}
use energy_agent_diagnosis.Persistence.Database.{Database, empty}
use energy_agent_diagnosis.Indexing.Repository.{find_job}
use energy_agent_diagnosis.Cases.Service.Requests.{Library}
use energy_agent_diagnosis.Cases.Handler.Batch.{handle_batch}
use energy_agent_diagnosis.Cases.Handler.{Runtime, superseded_row, handle_case}
use energy_agent_diagnosis.Cases.Batches.{handle_batch-superseded}

abbrev library : Library
library = record {
  strip = λ s. s;
  str = λ n. "1";
  sha256 = λ s. s;
  fingerprint = λ scope fields. scope;
}

abbrev runtime : Runtime
runtime = record {
  indexes = true;
  deletes = true;
  graph_available = false;
  graph_works = false;
  has_repository = true;
  new_job = "job-2";
}

abbrev upsert : IndexJobMessage
upsert = record {
  job_id = "job-1";
  entity_type = EntityType.diagnosis_case;
  entity_id = "case-2";
  entity_version = "1";
  operation = IndexOperation.upsert;
  trace_id = "trace";
  correlation_id = "trace";
  causation_id = "trace";
}

abbrev original : DiagnosisCase
original = record {
  case_id = "case-1";
  source_session_id = "session-1";
  source_run_id = "run-1";
  source_review_id = "review-1";
  source_ticket_id = none;
  device_type = some "inverter";
  device_model = some "SG-320";
  manufacturer = none;
  alarm_name = some "over-temperature";
  symptom_summary = some "hot";
  timeseries_features = none;
  root_cause = "fan";
  resolution_steps = "replace" ∷ [];
  safety_notes = [];
  evidence_refs = "e1" ∷ [];
  review_status = CaseStatus.approved;
  reviewer = some "bob";
  review_comment = none;
  case_version = 1;
  embedding_text = none;
  index_status = CaseIndexStatus.indexed;
  index_error_code = none;
  is_active = true;
  supersedes_case_id = none;
  index_job_id = none;
  created_by = "alice";
}

abbrev replacement : DiagnosisCase
replacement = record original {
  case_id = "case-2";
  case_version = 2;
  index_status = CaseIndexStatus.queued;
  is_active = false;
  supersedes_case_id = some "case-1";
}

abbrev approved_cases : Database
approved_cases = record empty { cases = ("case-1", original) ∷ ("case-2", replacement) ∷ [] }

replacement_row : Table.get "case-2" approved_cases.cases ≡ some replacement
unfolding Table.get
replacement_row = refl

original_row : Table.get "case-1" approved_cases.cases ≡ some original
unfolding Table.get
original_row = refl

handle_batch-superseded_example :
    (Table.get "case-1" (handle_case library runtime upsert approved_cases).1.cases
      ≡ some (superseded_row original))
    × (Option.map
          (λ p. Table.get "case-1" p.1.cases)
          (handle_batch library runtime (upsert ∷ []) approved_cases)
        ≡ some (some original))
unfolding find_job
handle_batch-superseded_example =
    handle_batch-superseded library runtime upsert approved_cases replacement original "case-1"
      replacement_row original_row refl refl refl (λ e. ground (arith, e, eq_iff "case-1" "case-2"))
      refl refl refl refl refl refl
