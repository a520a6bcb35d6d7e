-- ===== src/Persistence/Database.antt =====
-- The tables that the case and index services share (src/energy_agent/persistence/models.py).
use energy_agent_diagnosis.Common.{ℕ, suc, List, [], ◌∷◌, ◌++◌}
use energy_agent_diagnosis.Common.Table.{Table}
use energy_agent_diagnosis.Persistence.Index.{IndexJob, OutboxRow}
use energy_agent_diagnosis.Persistence.Cases.{
  DiagnosisCase, CaseReviewEvent, ManualDocument, MaintenanceTicket, AuditEvent, DiagnosisReview,
  DiagnosisSession, TimelineEvent, GraphProjection,
}

pub record Database : Type 0 where
  pub cases : Table DiagnosisCase
  pub events : List CaseReviewEvent
  pub jobs : Table IndexJob
  pub outbox : List OutboxRow
  pub next_outbox_id : ℕ
  pub tickets : Table MaintenanceTicket
  pub documents : List ManualDocument
  pub audit : List AuditEvent
  pub reviews : List DiagnosisReview
  pub sessions : Table DiagnosisSession
  pub timeline : List TimelineEvent
  pub projections : List GraphProjection

abbrev pub write_audit : AuditEvent → Database → Database
write_audit e db = record db { audit = db.audit ++ e ∷ [] }

-- The database numbers the row.
abbrev pub add_outbox : (ℕ → OutboxRow) → Database → Database
add_outbox row db = record db {
  outbox = db.outbox ++ row db.next_outbox_id ∷ [];
  next_outbox_id = suc db.next_outbox_id;
}

abbrev pub empty : Database
empty = record {
  cases = [];
  events = [];
  jobs = [];
  outbox = [];
  next_outbox_id = 1;
  tickets = [];
  documents = [];
  audit = [];
  reviews = [];
  sessions = [];
  timeline = [];
  projections = [];
}
