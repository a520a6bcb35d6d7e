-- ===== src/Cases/Service/Additions.antt =====
-- `revision` and `reindex` of src/energy_agent/cases/application.py as steps of the table of cases.
use energy_agent_diagnosis.Common.{
  String, Option, none, some, Bool, true, false, not, ◌&&◌, ◌≡◌, refl, sym, arith, string_eq, inl,
  inr, List, Option-cases, Bool-cases,
}
use energy_agent_diagnosis.Common.Errors.{Outcome, ok, err, Outcome-cases}
use energy_agent_diagnosis.Common.Table
use energy_agent_diagnosis.Common.Table.{Table, Holds}
use mathlib.Core.Path.{subst}
use energy_agent_diagnosis.Persistence.Cases.{
  CaseStatus, draft, approved, DiagnosisCase, CaseReviewEvent, status_eq, status_beq_iff,
}
use energy_agent_diagnosis.Persistence.Database.{Database}
use energy_agent_diagnosis.Cases.Repository.{create, append_event, add_event}
use energy_agent_diagnosis.Cases.Transition.{earlier}
use energy_agent_diagnosis.Cases.Service.Requests.{
  Library, Settings, Actor, Environment, get, is_sync,
}
use energy_agent_diagnosis.Cases.Service.Review.{CasePatchRequest}
use energy_agent_diagnosis.Cases.Service.Revision.{
  retry_upsert, retry_tombstone, revision_of, revised, revise_created, revise, earlier_revision,
  revise_event, revision, reindex_started, reindex_fresh, reindex_event, reindex,
}
use energy_agent_diagnosis.Cases.Service.Lifecycle.{IsSound}
use energy_agent_diagnosis.Cases.Service.Steps.{CasesPath, added, done, stepped}
use energy_agent_diagnosis.Cases.Service.Rows.{queued-RowStep}
use energy_agent_diagnosis.Cases.Service.Outcomes.{queue_index-Changed, add_event_cases}
use energy_agent_diagnosis.Cases.Service.Effects.{
  as_path, Reaches, reach, Reaches-if, Reaches-after, Changed-Reaches, audited-Reaches,
  index_case-Reaches, tombstone-Reaches,
}
use energy_agent_diagnosis.Cases.Service.Paths.{get-row, submit-Reaches}

-- A created case is a draft that is not in use.
pub create-Reaches :
    (c : DiagnosisCase) (db : Database)
    → c.review_status ≡ draft
    → c.is_active ≡ false
    → Reaches db.cases (create c db)
unfolding create
create-Reaches c db d i =
    let made : Reaches db.cases (ok c, record db { cases = Table.add c.case_id c db.cases }) =
      reach (stepped done (added c d i)) in
    search (Reaches-if, reach, done, made)

append_event-cases : (e : CaseReviewEvent) (db : Database) → (append_event e db).1.cases ≡ db.cases
unfolding append_event
append_event-cases e db = elim (Outcome-cases (add_event e db)) [
  | inl (db', h) ↦ rw (append_event, h) (add_event_cases e db db' h)
  | inr (x, h) ↦ rw (append_event, h) refl
]

module _ (lib : Library) (settings : Settings) (env : Environment) (actor : Actor)
    {t : Table DiagnosisCase} where
  revised-Reaches :
      (submits : Bool) (key : Option String) (c : DiagnosisCase) (r : Outcome (Unit {0}) × Database)
      → CasesPath t r.1.cases
      → Reaches t (revised lib settings env actor submits key c r)
  unfolding revised
  revised-Reaches submits key c (err e, db) p = reach p
  revised-Reaches false key c (ok _, db) p = reach p
  revised-Reaches true key c (ok _, db) p =
      Reaches-after p (submit-Reaches lib settings env actor _ c.case_id key)

  revise_created-Reaches :
      (k : String) (submits : Bool) (key : Option String) (hash : String) (s : CaseStatus)
      (r : Outcome DiagnosisCase × Database)
      → Reaches t r
      → Reaches t (revise_created lib settings env actor k submits key hash s r)
  unfolding revise_created
  revise_created-Reaches k submits key hash s (err e, db) (reach p) = reach p
  revise_created-Reaches k submits key hash s (ok c, db) (reach p) =
      revised-Reaches submits key c _ (as_path (append_event-cases _ db) p)

module _ (lib : Library) (settings : Settings) (env : Environment) (actor : Actor)
    (db : Database) where
  revise-Reaches :
      (k : String) (p : CasePatchRequest) (submits : Bool) (key : Option String) (hash : String)
      (original : DiagnosisCase)
      → Reaches db.cases (revise lib settings env actor k p submits key hash original db)
  unfolding revise
  revise-Reaches k p submits key hash original =
      let made =
        revise_created-Reaches lib settings env actor k submits key hash original.review_status _
          (create-Reaches (revision_of lib settings env actor p original db) db refl refl) in
      search (Reaches-if, reach, done, made)

  revise_event-Reaches :
      (k : String) (p : CasePatchRequest) (submits : Bool) (key : Option String) (hash : String)
      (original : DiagnosisCase) (o : Option CaseReviewEvent)
      → Reaches db.cases (revise_event lib settings env actor k p submits key hash original o db)
  unfolding revise_event
  revise_event-Reaches k p submits key hash original none =
      revise-Reaches k p submits key hash original
  revise_event-Reaches k p submits key hash original (some e) =
      let again = revise-Reaches k p submits key hash original in
      elim (Option-cases (earlier_revision lib settings env actor e.comment db)) [
        | inl gone ↦ rw (revise_event, gone) (search (Reaches-if, reach, done, again))
        | inr (c, found) ↦ rw (revise_event, found) (search (Reaches-if, reach, done))
      ]

  pub revision-Reaches :
      (k : String) (p : CasePatchRequest) (submits : Bool) (fields : List (String × Option String))
      (key : Option String)
      → Reaches db.cases (revision lib settings env actor k p submits fields key db)
  unfolding revision
  revision-Reaches k p submits fields key = elim (Outcome-cases (get k db)) [
    | inr (x, e) ↦ rw (revision, e) (reach done)
    | inl (c, e) ↦ rw (revision, e) (revise_event-Reaches k p submits key _ c _)
  ]

  reindex_started-Reaches :
      (c : DiagnosisCase) (r : Outcome (Unit {0}) × Database)
      → r.1.cases ≡ db.cases
      → Table.get c.case_id db.cases ≡ some c
      → (retry_tombstone c ≡ false → c.review_status ≡ approved)
      → Reaches db.cases (reindex_started lib settings env actor c r)
  unfolding reindex_started
  reindex_started-Reaches c (err e, db') same row at = reach (as_path same done)
  reindex_started-Reaches c (ok _, db') same row at =
      Reaches-if db.cases (retry_tombstone c) _ _
        (λ _. Reaches-after (as_path same done) (tombstone-Reaches lib settings env actor _ c _))
        (λ no. Reaches-after (as_path same done) (
          index_case-Reaches lib settings env actor _ c _
            (λ x found. let a = at no in ground (arith, found, same, row, a))))

  reindex_fresh-Reaches :
      (k : String) (key : Option String) (hash : String) (c : DiagnosisCase)
      → Holds IsSound db.cases
      → Table.get k db.cases ≡ some c
      → Reaches db.cases (reindex_fresh lib settings env actor k key hash c db)
  unfolding reindex_fresh
  reindex_fresh-Reaches k key hash c sound row =
      let at : Table.get c.case_id db.cases ≡ some c =
        subst (λ i. Table.get i db.cases ≡ some c) (sym ((sound k c row).named)) row in
      elim (Bool-cases (not (retry_upsert c) && not (retry_tombstone c))) [
        | inl neither ↦ rw (reindex_fresh, neither) (reach done)
        | inr one ↦
            let approves : retry_tombstone c ≡ false → c.review_status ≡ approved =
              λ no. ground (arith, one, no, status_beq_iff c.review_status approved) in
            rw (reindex_fresh, one)
              (Reaches-if db.cases (is_sync settings.index_execution_mode) _ _
                (λ _. reindex_started-Reaches c _ (append_event-cases _ db) at approves)
                (λ _. audited-Reaches env actor _ _ (
                  Changed-Reaches k _ db _ (queue_index-Changed k db settings.has_index _ _ _)
                    (λ x _. queued-RowStep x))))
      ]

  pub reindex-Reaches :
      (k : String) (key : Option String)
      → Holds IsSound db.cases
      → Reaches db.cases (reindex lib settings env actor k key db)
  unfolding reindex reindex_event
  reindex-Reaches k key sound = elim (Outcome-cases (get k db)) [
    | inr (x, e) ↦ rw (reindex, e) (reach done)
    | inl (c, e) ↦ elim (Option-cases (earlier k key db)) [
      | inl fresh ↦
          rw (reindex, e, fresh) (reindex_fresh-Reaches k key _ c sound (get-row k db c e))
      | inr (old, known) ↦ rw (reindex, e, known) (search (Reaches-if, reach, done))
    ]
  ]
