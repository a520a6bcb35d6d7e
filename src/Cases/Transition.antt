-- ===== src/Cases/Transition.antt =====
-- src/energy_agent/persistence/repositories/cases.py: the state transitions of a case, and the changes
-- of its index status, each with its event and its index job in one transaction. `has_index` says that
-- the repository has an index repository, and `new_id` is the id that a new job draws.
use energy_agent_diagnosis.Common.{
  String, Option, none, some, Bool, true, false, ◌==◌, string_eq, truthy?, if◌then◌else◌,
}
use energy_agent_diagnosis.Common.Errors.{Outcome, ok, err, Error, Action}
use energy_agent_diagnosis.Common.Table
use energy_agent_diagnosis.Persistence.Index.{IndexJobCreate}
use energy_agent_diagnosis.Persistence.Cases.{
  CaseStatus, status_eq, CaseIndexStatus, DiagnosisCase, CaseReviewEvent,
}
use energy_agent_diagnosis.Persistence.Database.{Database}
use energy_agent_diagnosis.Indexing.Repository.{add_job}
use energy_agent_diagnosis.Cases.Repository.{get, find_event, add_event}

-- The arguments of `transition`; `updates` assigns what its dictionary names.
pub record Transition : Type 0 where
  pub expected : CaseStatus
  pub target : CaseStatus
  pub actor_id : String
  pub actor_role : String
  pub action : String
  pub trace_id : String
  pub request_hash : String
  pub idempotency_key : Option String
  pub comment : Option String
  pub updates : DiagnosisCase → DiagnosisCase
  pub index_request : Option IndexJobCreate

abbrev pub event_of : String → Transition → CaseStatus → CaseReviewEvent
event_of case_id t previous = record {
  case_id = case_id;
  actor_id = t.actor_id;
  actor_role = t.actor_role;
  action = t.action;
  from_status = previous;
  to_status = t.target;
  comment = t.comment;
  idempotency_key = t.idempotency_key;
  request_hash = t.request_hash;
  trace_id = t.trace_id;
}

-- The assignments of a transition to the row.
abbrev pub moved : Transition → DiagnosisCase → DiagnosisCase
moved t c = t.updates (record c { review_status = t.target })

-- The job of a transition, in the same transaction, if it asks for one.
unfoldable pub add_request :
    Bool → String → Option IndexJobCreate → Database → Outcome (Option String) × Database
add_request has_index new_id none db = (ok none, db)
add_request has_index new_id (some r) db =
    let (job, db') = add_job new_id r db in
    if has_index
    then (elim job [ ok (k, _) ↦ ok (some k) | err e ↦ err e ], db')
    else (err Error.runtime_error, db)

-- The rest of `transition` for a case in the expected state: the row, the event, the job. A job that
-- cannot be added rolls all of it back to `before`.
unfoldable pub commit_transition :
    Bool → String → String → Transition → DiagnosisCase → Action Database (DiagnosisCase × Bool)
commit_transition has_index new_id case_id t c before =
    let changed = record before { cases = Table.modify case_id (moved t) before.cases } in
    elim (add_event (event_of case_id t c.review_status) changed) [
      | err e ↦ (err e, before)
      | ok db ↦
          let (job, db') = add_request has_index new_id t.index_request db in
          elim job [
            | err e ↦ (err e, before)
            | ok job_id ↦ (ok (record (moved t c) { index_job_id = job_id }, false), db')
          ]
    ]

-- After the look for an earlier event under the key.
unfoldable pub transition_event :
    Bool
    → String
    → String
    → Transition
    → DiagnosisCase
    → Option CaseReviewEvent
    → Action Database (DiagnosisCase × Bool)
transition_event has_index new_id case_id t c (some e) db =
    if e.request_hash == t.request_hash
    then (ok (c, true), db)
    else (err Error.case_state_conflict, db)
transition_event has_index new_id case_id t c none db =
    if c.review_status == t.expected
    then commit_transition has_index new_id case_id t c db
    else (err Error.case_state_conflict, db)

-- The earlier event of a request: only a key that is not empty is looked up.
abbrev pub earlier : String → Option String → Database → Option CaseReviewEvent
earlier case_id none db = none
earlier case_id (some key) db =
    if truthy? (some key) then find_event case_id key db.events else none

unfoldable pub transition_row :
    Bool
    → String
    → String
    → Transition
    → Option DiagnosisCase
    → Action Database (DiagnosisCase × Bool)
transition_row has_index new_id case_id t none db = (err Error.case_not_found, db)
transition_row has_index new_id case_id t (some c) db =
    transition_event has_index new_id case_id t c (earlier case_id t.idempotency_key db) db

-- `transition`: the case, and whether the call was a replay.
unfoldable pub transition :
    Bool → String → String → Transition → Action Database (DiagnosisCase × Bool)
transition has_index new_id case_id t db =
    transition_row has_index new_id case_id t (get case_id db) db

abbrev pub queued_for_index : DiagnosisCase → DiagnosisCase
queued_for_index c = record c { index_status = CaseIndexStatus.queued; is_active = false }

-- `queue_index`; `event` is its event, given the case's state.
unfoldable pub queue_row :
    String
    → String
    → IndexJobCreate
    → (CaseStatus → CaseReviewEvent)
    → Option DiagnosisCase
    → Action Database DiagnosisCase
queue_row new_id case_id r event none db = (err Error.case_not_found, db)
queue_row new_id case_id r event (some c) db =
    let changed = record db { cases = Table.modify case_id queued_for_index db.cases } in
    elim (add_event (event c.review_status) changed) [
      | err e ↦ (err e, db)
      | ok db' ↦
          let (job, db'') = add_job new_id r db' in
          elim job [
            | err e ↦ (err e, db)
            | ok (job_id, _) ↦
                (ok (record (queued_for_index c) { index_job_id = some job_id }), db'')
          ]
    ]

unfoldable pub queue_index :
    Bool
    → String
    → String
    → IndexJobCreate
    → (CaseStatus → CaseReviewEvent)
    → Action Database DiagnosisCase
queue_index has_index new_id case_id r event db =
    if has_index
    then queue_row new_id case_id r event (get case_id db) db
    else (err Error.runtime_error, db)

-- `set_index`: an error code is always assigned, a text or an activity only where it is given.
abbrev pub indexed_as :
    CaseIndexStatus → Option String → Option String → Option Bool → DiagnosisCase → DiagnosisCase
indexed_as status error_code text active c = record c {
  index_status = status;
  index_error_code = error_code;
  embedding_text = elim text [ none ↦ c.embedding_text | some t ↦ some t ];
  is_active = elim active [ none ↦ c.is_active | some b ↦ b ];
}

unfoldable pub set_index :
    String
    → CaseIndexStatus
    → Option String
    → Option String
    → Option Bool
    → Action Database DiagnosisCase
set_index case_id status error_code text active db = elim (get case_id db) [
  | none ↦ (err Error.case_not_found, db)
  | some c ↦
      let f = indexed_as status error_code text active in
      (ok (f c), record db { cases = Table.modify case_id f db.cases })
]
