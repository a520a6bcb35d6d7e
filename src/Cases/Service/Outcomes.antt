-- ===== src/Cases/Service/Outcomes.antt =====
-- What the writing methods of src/energy_agent/persistence/repositories/cases.py do to the table of
-- cases: the cases of their results.
use energy_agent_diagnosis.Common.{
  String, Option, none, some, Bool, true, false, ◌≡◌, refl, arith, inl, inr, Option-cases,
  Bool-cases, ◌==◌, string_eq, ◌∙◌,
}
use energy_agent_diagnosis.Common.Errors.{Outcome, ok, err, Error, Outcome-cases}
use energy_agent_diagnosis.Common.Table
use energy_agent_diagnosis.Common.Table.{Table}
use energy_agent_diagnosis.Persistence.Index.{IndexJobCreate}
use energy_agent_diagnosis.Persistence.Cases.{
  CaseStatus, status_eq, status_beq_iff, CaseIndexStatus, DiagnosisCase, CaseReviewEvent,
}
use energy_agent_diagnosis.Persistence.Database.{Database}
use energy_agent_diagnosis.Indexing.Repository.{add_job, add_new}
use energy_agent_diagnosis.Cases.Repository.{get, add_event}
use energy_agent_diagnosis.Cases.Transition.{
  Transition, moved, transition, transition_row, transition_event, commit_transition, add_request,
  event_of, queue_index, queue_row, queued_for_index, set_index, indexed_as,
}
use energy_agent_diagnosis.Cases.Idempotency.{add_request_keeps}

pub data Transitioned (case_id : String) (t : Transition) (db : Database)
    : Outcome (DiagnosisCase × Bool) × Database → Type 0 where
  failed : (e : Error) → Transitioned case_id t db (err e, db)
  replayed : (c : DiagnosisCase) → Transitioned case_id t db (ok (c, true), db)
  committed :
      (c : DiagnosisCase) (job : Option String) (db' : Database)
      → Table.get case_id db.cases ≡ some c
      → c.review_status ≡ t.expected
      → db'.cases ≡ Table.modify case_id (moved t) db.cases
      → Transitioned case_id t db (ok (record (moved t c) { index_job_id = job }, false), db')

pub add_event_cases :
    (e : CaseReviewEvent) (db db' : Database) → add_event e db ≡ ok db' → db'.cases ≡ db.cases
unfolding add_event
add_event_cases e db db' h = ground (arith, h)

pub add_job_cases :
    (new_id : String) (r : IndexJobCreate) (db : Database)
    → (add_job new_id r db).1.cases ≡ db.cases
unfolding add_job add_new
add_job_cases new_id r db = ground arith

module _ (has_index : Bool) (new_id case_id : String) (t : Transition) (db : Database) where
  commit-Transitioned :
      (c : DiagnosisCase)
      → Table.get case_id db.cases ≡ some c
      → c.review_status ≡ t.expected
      → Transitioned case_id t db (commit_transition has_index new_id case_id t c db)
  unfolding commit_transition
  commit-Transitioned c row at =
      let changed = record db { cases = Table.modify case_id (moved t) db.cases } in
      elim (Outcome-cases (add_event (event_of case_id t c.review_status) changed)) [
        | inr (x, e) ↦ rw (commit_transition, e) (failed x)
        | inl (db1, e) ↦
            let kept = add_request_keeps has_index new_id t.index_request db1 in
            let same = add_event_cases (event_of case_id t c.review_status) changed db1 e in
            elim (Outcome-cases (add_request has_index new_id t.index_request db1).0) [
              | inr (x, f) ↦ rw (commit_transition, e, f) (failed x)
              | inl (job, f) ↦
                  rw (commit_transition, e, f)
                    (committed c job (add_request has_index new_id t.index_request db1).1 row at
                      (kept.0 ∙ same))
            ]
      ]

  event-Transitioned :
      (c : DiagnosisCase) (o : Option CaseReviewEvent)
      → Table.get case_id db.cases ≡ some c
      → Transitioned case_id t db (transition_event has_index new_id case_id t c o db)
  unfolding transition_event
  event-Transitioned c (some e) row = elim (Bool-cases (e.request_hash == t.request_hash)) [
    | inl q ↦ rw q (replayed c)
    | inr q ↦ rw q (failed Error.case_state_conflict)
  ]
  event-Transitioned c none row = elim (Bool-cases (c.review_status == t.expected)) [
    | inl q ↦ rw q (commit-Transitioned c row ((status_beq_iff c.review_status t.expected).0 q))
    | inr q ↦ rw q (failed Error.case_state_conflict)
  ]

  row-Transitioned :
      (o : Option DiagnosisCase)
      → Table.get case_id db.cases ≡ o
      → Transitioned case_id t db (transition_row has_index new_id case_id t o db)
  unfolding transition_row
  row-Transitioned none e = failed Error.case_not_found
  row-Transitioned (some c) e = event-Transitioned c _ e

  pub transition-Transitioned : Transitioned case_id t db (transition has_index new_id case_id t db)
  unfolding transition get
  transition-Transitioned = row-Transitioned (Table.get case_id db.cases) refl

-- A method that changes the row of one case, or nothing.
pub data Changed {A : Type 0} (case_id : String) (f : DiagnosisCase → DiagnosisCase) (db : Database)
    : Outcome A × Database → Type 0 where
  unchanged : (e : Error) → Changed case_id f db (err e, db)
  changed :
      (c : DiagnosisCase) (a : A) (db' : Database)
      → Table.get case_id db.cases ≡ some c
      → db'.cases ≡ Table.modify case_id f db.cases
      → Changed case_id f db (ok a, db')

module _ (case_id : String) (db : Database) where
  pub set_index-Changed :
      (status : CaseIndexStatus) (code text : Option String) (active : Option Bool)
      → Changed case_id
          (indexed_as status code text active)
          db
          (set_index case_id status code text active db)
  unfolding set_index get
  set_index-Changed status code text active = elim (Option-cases (Table.get case_id db.cases)) [
    | inl gone ↦ rw (set_index, get, gone) (unchanged Error.case_not_found)
    | inr (c, row) ↦ rw (set_index, get, row) (changed c _ _ row refl)
  ]

  queue_row-Changed :
      (new_id : String) (r : IndexJobCreate) (event : CaseStatus → CaseReviewEvent)
      (o : Option DiagnosisCase)
      → Table.get case_id db.cases ≡ o
      → Changed case_id queued_for_index db (queue_row new_id case_id r event o db)
  unfolding queue_row
  queue_row-Changed new_id r event none e = unchanged Error.case_not_found
  queue_row-Changed new_id r event (some c) row =
      let before = record db { cases = Table.modify case_id queued_for_index db.cases } in
      elim (Outcome-cases (add_event (event c.review_status) before)) [
        | inr (x, e) ↦ rw (queue_row, e) (unchanged x)
        | inl (db1, e) ↦
            let same = add_event_cases (event c.review_status) before db1 e in
            elim (Outcome-cases (add_job new_id r db1).0) [
              | inr (x, f) ↦ rw (queue_row, e, f) (unchanged x)
              | inl (job, f) ↦
                  rw (queue_row, e, f) (changed c _ _ row (add_job_cases new_id r db1 ∙ same))
            ]
      ]

  pub queue_index-Changed :
      (has_index : Bool) (new_id : String) (r : IndexJobCreate)
      (event : CaseStatus → CaseReviewEvent)
      → Changed case_id queued_for_index db (queue_index has_index new_id case_id r event db)
  unfolding queue_index get
  queue_index-Changed true new_id r event =
      queue_row-Changed new_id r event (Table.get case_id db.cases) refl
  queue_index-Changed false new_id r event = unchanged Error.runtime_error
