-- ===== src/Cases/Idempotency.antt =====
-- Transitions under an idempotency key, and those that raise
-- (src/energy_agent/persistence/repositories/cases.py).
use energy_agent_diagnosis.Common.{
  String, Option, none, some, Bool, true, List, [], ◌∷◌, ◌++◌, ◌≡◌, refl, sym, arith, ◌==◌,
  string_eq, truthy, inl, inr, Option-cases, Bool-cases, eq_refl, eq_iff, if◌then◌else◌,
}
use energy_agent_diagnosis.Common.Errors.{ok, err, Error, Outcome-cases}
use energy_agent_diagnosis.Common.Table
use energy_agent_diagnosis.Common.Table.{get-modify_self}
use energy_agent_diagnosis.Persistence.Index.{IndexJobCreate}
use energy_agent_diagnosis.Persistence.Cases.{CaseStatus, status_eq, DiagnosisCase, CaseReviewEvent}
use energy_agent_diagnosis.Persistence.Database.{Database}
use energy_agent_diagnosis.Indexing.Repository.{add_job, add_new}
use energy_agent_diagnosis.Cases.Repository.{get, has_key, find_event, add_event}
use energy_agent_diagnosis.Cases.Transition.{
  Transition, event_of, moved, add_request, commit_transition, transition_event, transition_row,
  transition,
}

-- Adding a job changes neither the cases nor their events.
pub add_request_keeps :
    (has_index : Bool) (new_id : String) (r : Option IndexJobCreate) (db : Database)
    → ((add_request has_index new_id r db).1.cases ≡ db.cases)
      × ((add_request has_index new_id r db).1.events ≡ db.events)
unfolding add_request add_job add_new
add_request_keeps has_index new_id none db = (refl, refl)
add_request_keeps has_index new_id (some r) db = ground arith

find_event-append :
    (case_id key : String) (e : CaseReviewEvent) (es : List CaseReviewEvent)
    → find_event case_id key es ≡ none
    → has_key case_id key e ≡ true
    → find_event case_id key (es ++ e ∷ []) ≡ some e
unfolding find_event
find_event-append case_id key e [] h k = rw k
find_event-append case_id key e (x ∷ es) h k = elim (Bool-cases (has_key case_id key x)) [
  | inl old ↦ absurd (ground (arith, old, h))
  | inr new ↦ rw new (find_event-append case_id key e es (rw new at h) k)
]

-- A transition that raises, for whatever reason, leaves the tables as they were.
transition_error_unchanged :
    (has_index : Bool) (new_id case_id : String) (t : Transition) (db : Database) (e : Error)
    → (transition has_index new_id case_id t db).0 ≡ err e
    → (transition has_index new_id case_id t db).1 ≡ db
unfolding transition transition_row transition_event commit_transition
transition_error_unchanged has_index new_id case_id t db e h = ground arith

-- What a case and its key look like after a call.
pub record IsRecorded (case_id key hash : String) (db : Database) : Type 0 where
  pub row : DiagnosisCase
  pub event : CaseReviewEvent
  pub at_case : get case_id db ≡ some row
  pub at_key : find_event case_id key db.events ≡ some event
  pub same_hash : event.request_hash ≡ hash

module _ (has_index : Bool) (new_id case_id key : String) (t : Transition)
    (keyed : t.idempotency_key ≡ some key) (named : truthy key ≡ true) where
  event_has_key : (s : CaseStatus) → has_key case_id key (event_of case_id t s) ≡ true
  event_has_key s = ground (arith, keyed, eq_refl case_id, eq_refl key)

  -- The event that a transition adds is found under its key.
  added_event :
      (s : CaseStatus) (db db' : Database)
      → find_event case_id key db.events ≡ none
      → add_event (event_of case_id t s) db ≡ ok db'
      → (find_event case_id key db'.events ≡ some (event_of case_id t s)) × (db'.cases ≡ db.cases)
  unfolding add_event
  added_event s db db' fresh h =
      let added =
        find_event-append case_id key (event_of case_id t s) db.events fresh (event_has_key s) in
      ground (arith, keyed, added, eq_refl case_id)

  commit-IsRecorded :
      (c : DiagnosisCase) (db db' : Database) (r : DiagnosisCase × Bool)
      → get case_id db ≡ some c
      → find_event case_id key db.events ≡ none
      → commit_transition has_index new_id case_id t c db ≡ (ok r, db')
      → IsRecorded case_id key t.request_hash db'
  unfolding commit_transition get
  commit-IsRecorded c db db' r row fresh h =
      let changed = record db { cases = Table.modify case_id (moved t) db.cases } in
      elim (Outcome-cases (add_event (event_of case_id t c.review_status) changed)) [
        | inl (db1, e) ↦
            let (found, same) = added_event c.review_status changed db1 fresh e in
            let (keeps_cases, keeps_events) =
              add_request_keeps has_index new_id t.index_request db1 in
            let last : (add_request has_index new_id t.index_request db1).1 ≡ db' =
              ground (arith, e, h) in
            record {
              row = moved t c;
              event = event_of case_id t c.review_status;
              at_case =
                  rw (sym last, keeps_cases, same)
                    (get-modify_self case_id (moved t) db.cases c row);
              at_key = rw (sym last, keeps_events) found;
              same_hash = refl;
            }
        | inr (x, e) ↦ absurd (ground (arith, e, h))
      ]

  -- A transition that succeeds, fresh or replayed, leaves its key with its request's hash.
  transition-IsRecorded :
      (db db' : Database) (r : DiagnosisCase × Bool)
      → transition has_index new_id case_id t db ≡ (ok r, db')
      → IsRecorded case_id key t.request_hash db'
  unfolding transition transition_row transition_event
  transition-IsRecorded db db' r h = elim (Option-cases (get case_id db)) [
    | inl gone ↦ absurd (ground (arith, gone, h))
    | inr (c, row) ↦ elim (Option-cases (find_event case_id key db.events)) [
      | inl fresh ↦
          commit-IsRecorded c db db' r row fresh (ground (arith, keyed, named, row, fresh, h))
      | inr (e, known) ↦ elim (Bool-cases (e.request_hash == t.request_hash)) [
        | inl same ↦
            let q : db ≡ db' = ground (arith, keyed, named, row, known, same, h) in
            record {
              row = c;
              event = e;
              at_case = rw (sym q) row;
              at_key = rw (sym q) known;
              same_hash = (eq_iff e.request_hash t.request_hash).0 same;
            }
        | inr other ↦ absurd (ground (arith, keyed, named, row, known, other, h))
      ]
    ]
  ]

-- After a transition under a key that is not empty has succeeded, no call under the same key changes
-- a table, whatever it asks for: the same request gets the case again, marked as a replay, and a
-- request with another hash gets the conflict.
pub transition_replay :
    (has_index : Bool) (case_id key new_id new_id' : String) (t again : Transition)
    (db db' : Database) (r : DiagnosisCase × Bool)
    → t.idempotency_key ≡ some key
    → again.idempotency_key ≡ some key
    → truthy key ≡ true
    → transition has_index new_id case_id t db ≡ (ok r, db')
    → (c : DiagnosisCase) × (get case_id db' ≡ some c)
      × (transition has_index new_id' case_id again db' ≡ (
        (if t.request_hash == again.request_hash
            then ok (c, true)
            else err Error.case_state_conflict),
        db',
      ))
unfolding transition transition_row transition_event
transition_replay has_index case_id key new_id new_id' t again db db' r keyed keyed' named h =
    let recorded = transition-IsRecorded has_index new_id case_id key t keyed named db db' r h in
    (
      recorded.row,
      recorded.at_case,
      ground (arith, keyed', named, recorded.at_case, recorded.at_key, recorded.same_hash),
    )
