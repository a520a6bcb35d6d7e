-- ===== src/Persistence/Index.antt =====
-- The enumerations of src/energy_agent/indexing/contracts.py, the jobs and outbox rows of
-- persistence/models.py. Bookkeeping times (created, updated, started, finished) are left out.
use energy_agent_diagnosis.Common.{
  ℕ, String, Option, Bool, true, false, ◌≡◌, ◌↔◌, arith, Eq, nat_beq,
}

pub data EntityType : Type 0 where
  manual_document maintenance_ticket diagnosis_case template_graph : EntityType

pub data IndexOperation : Type 0 where
  upsert reindex tombstone graph_project : IndexOperation

pub data IndexJobStatus : Type 0 where
  pending queued running indexed degraded failed tombstoned stale : IndexJobStatus

pub data OutboxPublishStatus : Type 0 where
  pending published failed : OutboxPublishStatus

abbrev pub entity_code : EntityType → ℕ
entity_code manual_document = 0
entity_code maintenance_ticket = 1
entity_code diagnosis_case = 2
entity_code template_graph = 3

abbrev pub operation_code : IndexOperation → ℕ
operation_code upsert = 0
operation_code reindex = 1
operation_code tombstone = 2
operation_code graph_project = 3

pub entity_beq_iff : (a b : EntityType) → (nat_beq (entity_code a) (entity_code b) ≡ true) ↔ (a ≡ b)
entity_beq_iff a b = ground arith

pub operation_beq_iff :
    (a b : IndexOperation) → (nat_beq (operation_code a) (operation_code b) ≡ true) ↔ (a ≡ b)
operation_beq_iff a b = ground arith

instance abbrev pub entity_eq : Eq EntityType
entity_eq = record {
  equal = λ a b. nat_beq (entity_code a) (entity_code b);
  equal_iff = entity_beq_iff;
}

instance abbrev pub operation_eq : Eq IndexOperation
operation_eq = record {
  equal = λ a b. nat_beq (operation_code a) (operation_code b);
  equal_iff = operation_beq_iff;
}

-- `IndexJobCreate`
pub record IndexJobCreate : Type 0 where
  pub entity_type : EntityType
  pub entity_id : String
  pub entity_version : String
  pub operation : IndexOperation
  pub trace_id : String
  pub correlation_id : String
  pub causation_id : String
  pub max_attempts : ℕ

-- `IndexJobMessage`, the payload of an outbox row and of a broker message.
pub record IndexJobMessage : Type 0 where
  pub job_id : String
  pub entity_type : EntityType
  pub entity_id : String
  pub entity_version : String
  pub operation : IndexOperation
  pub trace_id : String
  pub correlation_id : String
  pub causation_id : String

-- `IndexJobModel`; its key is `job_id`.
pub record IndexJob : Type 0 where
  pub entity_type : EntityType
  pub entity_id : String
  pub entity_version : String
  pub operation : IndexOperation
  pub status : IndexJobStatus
  pub attempt_count : ℕ
  pub max_attempts : ℕ
  pub trace_id : String
  pub correlation_id : String
  pub causation_id : String
  pub last_error_code : Option String
  pub last_error_message : Option String
  pub next_attempt_at : Option ℕ

-- `IndexOutboxModel`
pub record OutboxRow : Type 0 where
  pub id : ℕ
  pub job_id : String
  pub event_type : String
  pub payload : IndexJobMessage
  pub publish_status : OutboxPublishStatus
  pub publish_attempts : ℕ
  pub last_error_code : Option String

abbrev pub is_pending_row : OutboxRow → Bool
is_pending_row r = elim r.publish_status [ pending ↦ true | published ↦ false | failed ↦ false ]
