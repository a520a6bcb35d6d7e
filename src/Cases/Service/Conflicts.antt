-- ===== src/Cases/Service/Conflicts.antt =====
-- A revision of a case shares its review with it, and replaces it once approved
-- (src/energy_agent/cases/application.py).
use energy_agent_diagnosis.Common.{
  sym, ap, String, Option, none, some, true, false, List, [], ◌∷◌, ◌++◌, ◌≡◌, ◌≢◌, arith, ◌==◌,
  string_eq, eq_iff, truthy, refl, Bool-cases, inl, inr,
}
use energy_agent_diagnosis.Common.Errors.{ok, err, Error}
use energy_agent_diagnosis.Common.Table
use energy_agent_diagnosis.Common.Table.{Table, get-modify, get-modify_self}
use energy_agent_diagnosis.Persistence.Cases.{
  rejected, pending_review, approved, CaseIndexStatus, DiagnosisCase, CaseReviewEvent,
}
use energy_agent_diagnosis.Persistence.Database.{Database}
use energy_agent_diagnosis.Cases.Repository
use energy_agent_diagnosis.Cases.Repository.{
  of_review, one_or_none, get_by_review, create, find_event, add_event,
}
use energy_agent_diagnosis.Cases.Service.Requests.{
  Library, Settings, Actor, Environment, sync, get, build_embedding_text, audit_case,
}
use energy_agent_diagnosis.Cases.Service.Review.{
  CasePatchRequest, review_case, approve, reviewing, review_found, after_review, publish, replace,
}
use energy_agent_diagnosis.Cases.Service.Indexing.{supersede, supersede_found, retired, index_case}
use energy_agent_diagnosis.Cases.Transition.{
  moved, event_of, transition, transition_row, transition_event, commit_transition, add_request,
  set_index, indexed_as,
}
use Prim.Native.String.{◌++◌ as append}
use energy_agent_diagnosis.Cases.Service.Revision.{revision_of}

of_review-found :
    (review_id k : String) (c : DiagnosisCase) (t : Table DiagnosisCase)
    → Table.get k t ≡ some c
    → c.source_review_id ≡ review_id
    → (d : DiagnosisCase) × (ds : List DiagnosisCase) × (of_review review_id t ≡ d ∷ ds)
unfolding of_review Table.get
of_review-found review_id k c [] h e = absurd (ground arith)
of_review-found review_id k c ((j, x) ∷ t) h e =
    let rest : Table.get k t ≡ some c
        → (d : DiagnosisCase) × (ds : List DiagnosisCase) × (of_review review_id t ≡ d ∷ ds) =
      λ at. of_review-found review_id k c t at e in
    elim (Bool-cases (x.source_review_id == review_id)) [
      | inl same ↦ (x, of_review review_id t, rw (of_review, same) refl)
      | inr other ↦
          let at : Table.get k t ≡ some c =
            ground (arith, h, e, other, eq_iff x.source_review_id review_id) in
          let (d, ds, q) = rest at in (d, ds, rw (of_review, other) q)
    ]

of_review-append :
    (review_id k : String) (c : DiagnosisCase) (t : Table DiagnosisCase)
    → c.source_review_id ≡ review_id
    → of_review review_id (t ++ (k, c) ∷ []) ≡ of_review review_id t ++ c ∷ []
unfolding of_review
of_review-append review_id k c [] e = ground (arith, eq_iff c.source_review_id review_id)
of_review-append review_id k c ((j, x) ∷ t) e = ground (arith, of_review-append review_id k c t e)

two_or_more :
    (ds es : List DiagnosisCase) (c : DiagnosisCase)
    → (d : DiagnosisCase) → ds ≡ d ∷ es
    → one_or_none (ds ++ c ∷ []) ≡ err Error.multiple_results_found
two_or_more ds [] c d e = ground (arith, e)
two_or_more ds (x ∷ es) c d e = ground (arith, e)

-- Once a revision of a case has been created, the query for the case of their review raises.
pub create-revision_of :
    (lib : Library) (settings : Settings) (env : Environment) (actor : Actor) (k : String)
    (p : CasePatchRequest) (original made : DiagnosisCase) (db db' : Database)
    → Table.get k db.cases ≡ some original
    → create (revision_of lib settings env actor p original db) db ≡ (ok made, db')
    → get_by_review original.source_review_id db' ≡ err Error.multiple_results_found
unfolding create get_by_review
create-revision_of lib settings env actor k p original made db db' row h =
    let id = original.source_review_id in
    let new = revision_of lib settings env actor p original db in
    let all : db'.cases ≡ db.cases ++ (env.new_case, new) ∷ [] = ground (arith, h) in
    let (d, ds, q) = of_review-found id k original db.cases row refl in
    rw (get_by_review, all, of_review-append id env.new_case new db.cases refl)
      (two_or_more (of_review id db.cases) ds new d q)

find_event-other :
    (k j key : String) (e : CaseReviewEvent) (es : List CaseReviewEvent)
    → e.case_id ≡ j
    → j ≢ k
    → find_event k key es ≡ none
    → find_event k key (es ++ e ∷ []) ≡ none
unfolding find_event
find_event-other k j key e [] at d h = ground (arith, at, d, eq_iff e.case_id k)
find_event-other k j key e (x ∷ es) at d h =
    let rest : find_event k key es ≡ none → find_event k key (es ++ e ∷ []) ≡ none =
      find_event-other k j key e es at d in
    ground (arith, h, rest)

module _ (lib : Library) (settings : Settings) (env : Environment) (actor : Actor) where
  -- The replacement of a case that is not approved raises.
  supersede_conflict :
      (old_id : String) (old : DiagnosisCase) (db : Database)
      → Table.get old_id db.cases ≡ some old
      → old.review_status ≡ rejected
      → find_event old_id (append "supersede:" old_id) db.events ≡ none
      → supersede lib settings env actor old_id db ≡ (err Error.case_state_conflict, db)
  unfolding supersede supersede_found retired transition transition_row transition_event get
      Repository.get
  supersede_conflict old_id old db row refused fresh = ground (arith, row, refused, fresh)

  -- The tables after the transition of an approval without a key or a job.
  abbrev approved_db : String → Option String → DiagnosisCase → Database → Database
  approved_db k comment c db =
      let t = reviewing lib settings env actor k approve comment none c in
      record db {
        cases = Table.modify k (moved t) db.cases;
        events = db.events ++ event_of k t c.review_status ∷ [];
      }

  approves :
      (k : String) (comment : Option String) (c : DiagnosisCase) (db : Database)
      → settings.index_execution_mode ≡ sync
      → Table.get k db.cases ≡ some c
      → c.review_status ≡ pending_review
      → transition settings.has_index env.new_job k
          (reviewing lib settings env actor k approve comment none c)
          db
        ≡ (
          ok (
            record (moved (reviewing lib settings env actor k approve comment none c) c) {
              index_job_id = none;
            },
            false,
          ),
          approved_db k comment c db,
        )
  unfolding transition transition_row transition_event commit_transition add_request add_event
      Repository.get
  approves k comment c db mode row pending = ground (arith, mode, row, pending)

  abbrev indexed_in : DiagnosisCase → DiagnosisCase → DiagnosisCase
  indexed_in c =
      indexed_as CaseIndexStatus.indexed none (some (build_embedding_text lib c)) (some true)

  index_case-works :
      (k : String) (c x : DiagnosisCase) (db : Database)
      → env.indexes ≡ true
      → c.case_id ≡ k
      → Table.get k db.cases ≡ some x
      → index_case lib settings env actor "case" c db ≡ (
        ok (indexed_in c x),
        audit_case env actor
            (append "case" "_succeeded")
            (indexed_in c x)
            (record db { cases = Table.modify k (indexed_in c) db.cases }),
      )
  unfolding index_case set_index Repository.get
  index_case-works k c x db works own row = ground (arith, works, own, row)

  -- In sync mode, with the vector store at work, the approval of a revision of a rejected case is committed
  -- and the case is put to use; then the replacement of the rejected case raises the conflict, which is
  -- what the call gives.
  pub review_case-rejected :
      (k old_id : String) (comment : Option String) (c old : DiagnosisCase) (db : Database)
      → settings.index_execution_mode ≡ sync
      → env.indexes ≡ true
      → Table.get k db.cases ≡ some c
      → c.case_id ≡ k
      → c.review_status ≡ pending_review
      → c.created_by ≢ actor.actor_id
      → c.supersedes_case_id ≡ some old_id
      → truthy old_id ≡ true
      → old_id ≢ k
      → Table.get old_id db.cases ≡ some old
      → old.review_status ≡ rejected
      → find_event old_id (append "supersede:" old_id) db.events ≡ none
      → ((review_case lib settings env actor k approve comment none db).0
          ≡ err Error.case_state_conflict)
        × (row : DiagnosisCase) × (Table.get k
              (review_case lib settings env actor k approve comment none db).1.cases
            ≡ some row)
        × (row.review_status ≡ approved)
        × (row.is_active ≡ true)
  unfolding review_case review_found after_review publish replace get Repository.get
  review_case-rejected k old_id comment c old db is_sync_mode works row own pending other replaces
        named distinct found refused fresh =
      let t = reviewing lib settings env actor k approve comment none c in
      let c1 = record (moved t c) { index_job_id = none } in
      let db1 = approved_db k comment c db in
      let f = indexed_in c1 in
      let moved_row = get-modify_self k (moved t) db.cases c row in
      let indexed_row = get-modify_self k f db1.cases (moved t c) moved_row in
      let db2 =
        audit_case env actor (append "case" "_succeeded") (f (moved t c))
          (record db1 { cases = Table.modify k f db1.cases }) in
      let old_row : Table.get old_id db2.cases ≡ some old = ground (
        arith,
        own,
        found,
        distinct,
        eq_iff k old_id,
        get-modify k old_id (moved t) db.cases,
        get-modify k old_id f db1.cases,
      ) in
      let unseen =
        find_event-other old_id k (append "supersede:" old_id) (event_of k t c.review_status)
          db.events refl (λ e. distinct (sym e)) fresh in
      let conflict = supersede_conflict old_id old db2 old_row refused unseen in
      let works_out = index_case-works k c1 (moved t c) db1 works own moved_row in
      let commits = approves k comment c db is_sync_mode row pending in
      let result : review_case lib settings env actor k approve comment none db
          ≡ (err Error.case_state_conflict, db2) =
        ground (
          arith,
          is_sync_mode,
          row,
          other,
          eq_iff c.created_by actor.actor_id,
          commits,
          works_out,
          replaces,
          named,
          conflict,
        ) in
      (ap (λ r. r.0) result, f (moved t c), rw result indexed_row, refl, refl)
