-- ===== src/Tests/Service.antt =====
-- The theorems on the calls of the case service, at concrete inputs.
use energy_agent_diagnosis.Common.{none, some, true, false, List, [], ◌∷◌, ◌≡◌, refl, eq_iff, arith}
use energy_agent_diagnosis.Common.Errors.{Outcome, ok, err, Error}
use energy_agent_diagnosis.Common.Table
use energy_agent_diagnosis.Common.Table.{Table, Holds, get-add}
use energy_agent_diagnosis.Persistence.Index.{EntityType, IndexOperation, IndexJobMessage}
use energy_agent_diagnosis.Cases.Handler.{Runtime}
use energy_agent_diagnosis.Persistence.Cases.{CaseStatus, CaseIndexStatus, DiagnosisCase}
use energy_agent_diagnosis.Persistence.Database.{Database, empty}
use energy_agent_diagnosis.Users.Models.{ActorRole}
use energy_agent_diagnosis.Cases.Repository.{
  create, get_by_review, any_row, next_version, max_version, find_event,
}
use energy_agent_diagnosis.Cases.Service.Requests.{
  Library, Settings, Actor, Environment, EvidenceItem, DiagnosisResult, sync,
}
use energy_agent_diagnosis.Cases.Service.Review.{CasePatchRequest, approve, review_case}
use energy_agent_diagnosis.Cases.Service.Revision.{revision_of}
use energy_agent_diagnosis.Cases.Service.Calls.{Call, apply_all}
use energy_agent_diagnosis.Cases.Service.Lifecycle.{RowHistory, IsSound}
use energy_agent_diagnosis.Cases.Service.Steps.{added, done, stepped, CasesPath-Holds}
use energy_agent_diagnosis.Cases.Service.Refinement.{apply_all-RowHistory, apply_all-IsSound}
use energy_agent_diagnosis.Cases.Service.Conflicts.{create-revision_of, review_case-rejected}

abbrev library : Library
library = record {
  strip = λ s. s;
  str = λ n. "1";
  sha256 = λ s. s;
  fingerprint = λ scope fields. scope;
}

abbrev settings : Settings
settings = record {
  index_execution_mode = sync;
  index_max_attempts = 3;
  has_index = true;
  has_timeline = true;
}

abbrev reading : EvidenceItem
reading = record {
  evidence_id = "e1";
  source_type = "timeseries";
  summary = "rising";
  device_type = none;
  device_model = none;
  manufacturer = none;
}

abbrev result : DiagnosisResult
result = record {
  run_id = "run-1";
  summary = "hot";
  candidate_causes = "fan" ∷ [];
  evidence = reading ∷ [];
  safety_notes = [];
}

abbrev env : Environment
env = record {
  trace_id = "trace";
  new_job = "job-1";
  new_case = "case-2";
  new_review = "review-2";
  latest = λ session. some result;
  indexes = true;
  deletes = true;
}

abbrev alice : Actor
alice = record { actor_id = "alice"; actor_role = ActorRole.operator }

abbrev bob : Actor
bob = record { actor_id = "bob"; actor_role = ActorRole.reviewer }

abbrev draft_case : DiagnosisCase
draft_case = record {
  case_id = "case-1";
  source_session_id = "session-1";
  source_run_id = "run-1";
  source_review_id = "review-1";
  source_ticket_id = none;
  device_type = some "inverter";
  device_model = some "SG-320";
  manufacturer = none;
  alarm_name = some "over-temperature";
  symptom_summary = some "hot";
  timeseries_features = none;
  root_cause = "fan";
  resolution_steps = "replace" ∷ [];
  safety_notes = [];
  evidence_refs = "e1" ∷ [];
  review_status = CaseStatus.draft;
  reviewer = none;
  review_comment = none;
  case_version = 1;
  embedding_text = none;
  index_status = CaseIndexStatus.pending;
  index_error_code = none;
  is_active = false;
  supersedes_case_id = none;
  index_job_id = none;
  created_by = "alice";
}

abbrev drafted : Database
drafted = record empty { cases = Table.add "case-1" draft_case [] }

nothing_yet : Holds IsSound []
unfolding Table.get
nothing_yet k c h = absurd (ground (arith, h))

drafted-IsSound : Holds IsSound drafted.cases
drafted-IsSound = CasesPath-Holds nothing_yet (stepped done (added draft_case refl refl))

abbrev runtime : Runtime
runtime = record {
  indexes = true;
  deletes = true;
  graph_available = false;
  graph_works = false;
  has_repository = true;
  new_job = "job-2";
}

abbrev upsert : IndexJobMessage
upsert = record {
  job_id = "job-1";
  entity_type = EntityType.diagnosis_case;
  entity_id = "case-1";
  entity_version = "1";
  operation = IndexOperation.upsert;
  trace_id = "trace";
  correlation_id = "trace";
  causation_id = "trace";
}

-- A submission, an approval, the work of the index, and the withdrawal of the case.
abbrev calls : List (Environment × Actor × Call)
calls =
    (env, alice, Call.submit "case-1" (some "key-1"))
    ∷ (env, bob, Call.review_case "case-1" approve none (some "key-2"))
    ∷ (env, bob, Call.handle runtime upsert)
    ∷ (env, bob, Call.disable "case-1" "outdated" none)
    ∷ []

apply_all-RowHistory_example :
    RowHistory
      (Table.get "case-1" drafted.cases)
      (Table.get "case-1" (apply_all library settings calls drafted).cases)
apply_all-RowHistory_example =
    apply_all-RowHistory library settings calls drafted "case-1" drafted-IsSound

apply_all-IsSound_example : Holds IsSound (apply_all library settings calls drafted).cases
apply_all-IsSound_example = apply_all-IsSound library settings calls drafted drafted-IsSound

abbrev no_change : CasePatchRequest
no_change = record {
  device_type = none;
  device_model = none;
  manufacturer = none;
  alarm_name = none;
  symptom_summary = none;
  timeseries_features = none;
  root_cause = none;
  resolution_steps = none;
  safety_notes = none;
  evidence_refs = none;
}

abbrev rejected_case : DiagnosisCase
rejected_case = record draft_case { review_status = CaseStatus.rejected; reviewer = some "bob" }

abbrev refused : Database
refused = record empty { cases = Table.add "case-1" rejected_case [] }

abbrev revised_case : DiagnosisCase
revised_case = revision_of library settings env alice no_change rejected_case refused

abbrev revised : Outcome DiagnosisCase × Database
revised = create revised_case refused

refused_row : Table.get "case-1" refused.cases ≡ some rejected_case
unfolding Table.get
refused_row = refl

creates : create revised_case refused ≡ (ok revised_case, revised.1)
unfolding create any_row next_version max_version Table.get
creates = refl

create-revision_of_example : get_by_review "review-1" revised.1 ≡ err Error.multiple_results_found
create-revision_of_example =
    create-revision_of library settings env alice "case-1" no_change rejected_case revised_case
      refused revised.1 refused_row creates

abbrev pending_revision : DiagnosisCase
pending_revision = record draft_case {
  case_id = "case-2";
  case_version = 2;
  review_status = CaseStatus.pending_review;
  supersedes_case_id = some "case-1";
}

abbrev submitted : Database
submitted = record empty { cases = ("case-1", rejected_case) ∷ ("case-2", pending_revision) ∷ [] }

revision_row : Table.get "case-2" submitted.cases ≡ some pending_revision
unfolding Table.get
revision_row = refl

original_row : Table.get "case-1" submitted.cases ≡ some rejected_case
unfolding Table.get
original_row = refl

no_event : find_event "case-1" "supersede:case-1" submitted.events ≡ none
unfolding find_event
no_event = refl

review_case-rejected_example :
    ((review_case library settings env bob "case-2" approve none none submitted).0
      ≡ err Error.case_state_conflict)
    × (row : DiagnosisCase) × (Table.get "case-2"
          (review_case library settings env bob "case-2" approve none none submitted).1.cases
        ≡ some row)
    × (row.review_status ≡ CaseStatus.approved)
    × (row.is_active ≡ true)
review_case-rejected_example =
    review_case-rejected library settings env bob "case-2" "case-1" none pending_revision
      rejected_case submitted refl refl revision_row refl refl
      (λ e. ground (arith, e, eq_iff "alice" "bob")) refl refl
      (λ e. ground (arith, e, eq_iff "case-1" "case-2")) original_row refl no_event
