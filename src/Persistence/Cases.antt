-- ===== src/Persistence/Cases.antt =====
-- The case enumerations of src/energy_agent/contracts/cases.py, and the case, event, ticket, document
-- and audit rows of persistence/models.py. Bookkeeping times are left out.
use energy_agent_diagnosis.Common.{
  ℕ, String, Option, Bool, true, List, ◌≡◌, ◌↔◌, arith, Eq, nat_beq,
}
use energy_agent_diagnosis.Agent.Workflow.{DiagnosisPhase}
use energy_agent_diagnosis.Persistence.Index.{EntityType}

pub data CaseStatus : Type 0 where
  draft pending_review approved rejected disabled superseded : CaseStatus

pub data CaseIndexStatus : Type 0 where
  pending queued running indexed degraded failed tombstoned : CaseIndexStatus

abbrev pub status_code : CaseStatus → ℕ
status_code draft = 0
status_code pending_review = 1
status_code approved = 2
status_code rejected = 3
status_code disabled = 4
status_code superseded = 5

pub status_beq_iff : (a b : CaseStatus) → (nat_beq (status_code a) (status_code b) ≡ true) ↔ (a ≡ b)
status_beq_iff a b = ground arith

instance abbrev pub status_eq : Eq CaseStatus
status_eq = record {
  equal = λ a b. nat_beq (status_code a) (status_code b);
  equal_iff = status_beq_iff;
}

-- `DiagnosisCaseModel` with the `index_job_id` that a service call adds to the record it returns.
-- `graph_projection_status` is set by no modelled code.
pub record DiagnosisCase : Type 0 where
  pub case_id : String
  pub source_session_id : String
  pub source_run_id : String
  pub source_review_id : String
  pub source_ticket_id : Option String
  pub device_type : Option String
  pub device_model : Option String
  pub manufacturer : Option String
  pub alarm_name : Option String
  pub symptom_summary : Option String
  pub timeseries_features : Option String
  pub root_cause : String
  pub resolution_steps : List String
  pub safety_notes : List String
  pub evidence_refs : List String
  pub review_status : CaseStatus
  pub reviewer : Option String
  pub review_comment : Option String
  pub case_version : ℕ
  pub embedding_text : Option String
  pub index_status : CaseIndexStatus
  pub index_error_code : Option String
  pub is_active : Bool
  pub supersedes_case_id : Option String
  pub index_job_id : Option String
  pub created_by : String

-- `CaseReviewEventModel`
pub record CaseReviewEvent : Type 0 where
  pub case_id : String
  pub actor_id : String
  pub actor_role : String
  pub action : String
  pub from_status : CaseStatus
  pub to_status : CaseStatus
  pub comment : Option String
  pub idempotency_key : Option String
  pub request_hash : String
  pub trace_id : String

pub data DiagnosisReviewResult : Type 0 where
  confirmed rejected needs_more_info : DiagnosisReviewResult

-- `DiagnosisReviewModel`: what identifies a review, its repeats and its result.
pub record DiagnosisReview : Type 0 where
  pub review_id : String
  pub session_id : String
  pub run_id : String
  pub actor_id : String
  pub review_result : DiagnosisReviewResult
  pub idempotency_key : Option String
  pub request_hash : String

-- What a review reads and changes of a diagnosis session.
pub record DiagnosisSession : Type 0 where
  pub phase : DiagnosisPhase
  pub alarm_name : Option String
  pub latest_review_status : Option DiagnosisReviewResult

pub data TimelineEventType : Type 0 where
  user_message clarification_question clarification_answer : TimelineEventType
  diagnosis_result review_submitted case_created : TimelineEventType

-- `DiagnosisTimelineEventModel`: what identifies and orders an event, and who caused it.
pub record TimelineEvent : Type 0 where
  pub event_id : String
  pub session_id : String
  pub run_id : Option String
  pub sequence : ℕ
  pub event_type : TimelineEventType
  pub actor_id : Option String

pub data GraphProjectionStatus : Type 0 where
  pending projected degraded failed tombstoned : GraphProjectionStatus

-- `GraphProjectionModel`, with the three columns that are its key.
pub record GraphProjection : Type 0 where
  pub entity_type : EntityType
  pub entity_id : String
  pub entity_version : String
  pub status : GraphProjectionStatus
  pub last_error_code : Option String

-- What indexing changes of a manual document, with the two fields that select it.
pub record ManualDocument : Type 0 where
  pub doc_id : String
  pub index_generation : String
  pub index_status : CaseIndexStatus
  pub index_error_code : Option String

-- What indexing changes of a maintenance ticket.
pub record MaintenanceTicket : Type 0 where
  pub index_status : CaseIndexStatus
  pub index_error_code : Option String

-- `AuditEventModel`, without its snapshot.
pub record AuditEvent : Type 0 where
  pub actor_id : String
  pub action : String
  pub resource_type : String
  pub resource_id : String
  pub trace_id : String
  pub outcome : String
