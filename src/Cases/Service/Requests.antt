-- ===== src/Cases/Service/Requests.antt =====
-- What a call of src/energy_agent/cases/application.py is given, and the texts that it builds. Python's
-- `strip` and `str`, the hash, and the fingerprint of core/idempotency.py are fields of `Library`.
use Prim.Native.String.{◌++◌ as append}
use energy_agent_diagnosis.Common.{
  ℕ, String, Option, none, some, Bool, true, false, not, ◌&&◌, List, [], ◌∷◌, ◌++◌, string_eq, any,
  contains, map, truthy, truthy?, if◌then◌else◌,
}
use energy_agent_diagnosis.Common.Errors.{Outcome, ok, err, Error}
use energy_agent_diagnosis.Persistence.Index.{EntityType, IndexOperation, IndexJobCreate}
use energy_agent_diagnosis.Persistence.Cases.{DiagnosisCase}
use energy_agent_diagnosis.Persistence.Database.{Database, write_audit}
use energy_agent_diagnosis.Users.Models.{ActorRole}
use energy_agent_diagnosis.Cases.Repository

-- `fingerprint` is `request_fingerprint` of a scope and a payload.
pub record Library : Type 0 where
  pub strip : String → String
  pub str : ℕ → String
  pub sha256 : String → String
  pub fingerprint : String → List (String × Option String) → String

pub data ExecutionMode : Type 0 where
  sync rabbitmq : ExecutionMode

abbrev pub is_sync : ExecutionMode → Bool
is_sync sync = true
is_sync rabbitmq = false

-- The service's settings; `has_index` says that its repository has an index repository, `has_timeline` that
-- it has a timeline.
pub record Settings : Type 0 where
  pub index_execution_mode : ExecutionMode
  pub index_max_attempts : ℕ
  pub has_index : Bool
  pub has_timeline : Bool

pub record Actor : Type 0 where
  pub actor_id : String
  pub actor_role : ActorRole

-- An item of a result's evidence, with what its metadata says of a device.
pub record EvidenceItem : Type 0 where
  pub evidence_id : String
  pub source_type : String
  pub summary : String
  pub device_type : Option String
  pub device_model : Option String
  pub manufacturer : Option String

-- `DiagnosisResultRecord`, with the causes of its candidates.
pub record DiagnosisResult : Type 0 where
  pub run_id : String
  pub summary : String
  pub candidate_causes : List String
  pub evidence : List EvidenceItem
  pub safety_notes : List String

-- What a call meets: its trace, the ids that it draws, the latest result of each session, and whether the
-- embedding and the vector store do what they are asked.
pub record Environment : Type 0 where
  pub trace_id : String
  pub new_job : String
  pub new_case : String
  pub new_review : String
  pub latest : String → Option DiagnosisResult
  pub indexes : Bool
  pub deletes : Bool

abbrev pub role_name : ActorRole → String
role_name ActorRole.viewer = "viewer"
role_name ActorRole.operator = "operator"
role_name ActorRole.reviewer = "reviewer"
role_name ActorRole.admin = "admin"

-- `actor_role in {REVIEWER, ADMIN}`
abbrev pub is_privileged : ActorRole → Bool
is_privileged ActorRole.reviewer = true
is_privileged ActorRole.admin = true
is_privileged _ = false

unfoldable pub join : String → List String → String
join sep [] = ""
join sep (x ∷ []) = x
join sep (x ∷ y ∷ xs) = append x (append sep (join sep (y ∷ xs)))

-- The parts that are neither absent nor blank, stripped.
kept_parts : Library → List (Option String) → List String
kept_parts lib [] = []
kept_parts lib (none ∷ ps) = kept_parts lib ps
kept_parts lib (some p ∷ ps) =
    let rest = kept_parts lib ps in
    if truthy p && truthy (lib.strip p) then lib.strip p ∷ rest else rest

unfoldable pub build_embedding_text : Library → DiagnosisCase → String
unfolding join kept_parts
build_embedding_text lib c = join "\n" (
    kept_parts lib (
      c.device_type
      ∷ c.device_model
      ∷ c.alarm_name
      ∷ c.symptom_summary
      ∷ c.timeseries_features
      ∷ some c.root_cause
      ∷ some (join "；" c.resolution_steps)
      ∷ []))

abbrev pub is_empty : List String → Bool
is_empty [] = true
is_empty (x ∷ xs) = false

-- The required fields with no value.
missing_of : List (String × Bool) → List String
missing_of [] = []
missing_of ((name, present) ∷ fs) =
    let rest = missing_of fs in if present then rest else name ∷ rest

unfoldable pub missing_case_fields : DiagnosisCase → List String → List String
unfolding missing_of
missing_case_fields c valid_evidence =
    missing_of (
      ("device_type", truthy? c.device_type)
      ∷ ("device_model", truthy? c.device_model)
      ∷ ("alarm_name", truthy? c.alarm_name)
      ∷ ("symptom_summary", truthy? c.symptom_summary)
      ∷ ("root_cause", truthy c.root_cause)
      ∷ ("resolution_steps", not (is_empty c.resolution_steps))
      ∷ ("evidence_refs", not (is_empty c.evidence_refs))
      ∷ ("created_by", truthy c.created_by)
      ∷ [])
    ++ (if any (λ ref. not (contains valid_evidence ref)) c.evidence_refs
        then "valid_evidence_refs" ∷ []
        else [])

-- The ids of the evidence of a result that may be missing.
abbrev pub evidence_ids : Option DiagnosisResult → List String
evidence_ids none = []
evidence_ids (some r) = map (λ e. e.evidence_id) r.evidence

-- `CaseApplicationService.get`
unfoldable pub get : String → Database → Outcome DiagnosisCase
get case_id db = elim (Repository.get case_id db) [
  | none ↦ err Error.case_not_found
  | some c ↦ ok c
]

module _ (lib : Library) (settings : Settings) (env : Environment) where
  -- `_index_request`
  abbrev pub index_request : DiagnosisCase → IndexOperation → IndexJobCreate
  index_request c operation = record {
    entity_type = EntityType.diagnosis_case;
    entity_id = c.case_id;
    entity_version = lib.str c.case_version;
    operation = operation;
    trace_id = env.trace_id;
    correlation_id = c.source_session_id;
    causation_id = c.source_review_id;
    max_attempts = settings.index_max_attempts;
  }

  -- A request of a job, in the mode that has jobs.
  abbrev pub queued_request : DiagnosisCase → IndexOperation → Option IndexJobCreate
  queued_request c operation =
      if is_sync settings.index_execution_mode then none else some (index_request c operation)

-- `_audit_case`
abbrev pub audit_case : Environment → Actor → String → DiagnosisCase → Database → Database
audit_case env actor action c = write_audit (record {
  actor_id = actor.actor_id;
  action = action;
  resource_type = "case";
  resource_id = c.case_id;
  trace_id = env.trace_id;
  outcome = "succeeded";
})

-- A call that is audited where it gives a case.
abbrev pub audited :
    Environment
    → Actor
    → String
    → Outcome DiagnosisCase × Database
    → Outcome DiagnosisCase × Database
audited env actor action (err e, db) = (err e, db)
audited env actor action (ok c, db) = (ok c, audit_case env actor action c db)
