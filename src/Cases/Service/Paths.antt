-- ===== src/Cases/Service/Paths.antt =====
-- `patch`, `submit`, `review_case` and `disable` of src/energy_agent/cases/application.py as steps of the
-- table of cases.
use energy_agent_diagnosis.Common.{
  String, Option, none, some, Bool, true, false, ◌≡◌, refl, arith, ◌==◌, string_eq, inl, inr,
  Option-cases, eq_iff,
}
use energy_agent_diagnosis.Common.Errors.{Outcome, ok, err, Outcome-cases}
use energy_agent_diagnosis.Common.Table
use energy_agent_diagnosis.Common.Table.{Table, Holds, get-modify_self}
use mathlib.Core.Path.{subst}
use energy_agent_diagnosis.Persistence.Cases.{approved, DiagnosisCase}
use energy_agent_diagnosis.Persistence.Database.{Database}
use energy_agent_diagnosis.Cases.Repository
use energy_agent_diagnosis.Cases.Repository.{update_draft, update_row}
use energy_agent_diagnosis.Cases.Transition.{moved}
use energy_agent_diagnosis.Cases.Service.Requests.{
  Library, Settings, Actor, Environment, get, is_sync, is_privileged,
}
use energy_agent_diagnosis.Cases.Service.Indexing.{index_case, supersede}
use energy_agent_diagnosis.Cases.Service.Review.{
  CasePatchRequest, patched, patch, audited_once, submit, submit_found, submitting, Decision,
  approve, reject, decision_action, reviewing, replace, publish, after_review, review_found,
  review_case, disable, disable_found,
}
use energy_agent_diagnosis.Cases.Service.Lifecycle.{IsSound}
use energy_agent_diagnosis.Cases.Service.Steps.{RowStep, changed, CasesPath, done, stepped, after}
use energy_agent_diagnosis.Cases.Service.Rows.{
  patched-RowStep, submitting-RowStep, reviewing-RowStep, disabling-RowStep,
}
use energy_agent_diagnosis.Cases.Service.Outcomes.{
  Transitioned, failed, replayed, committed, transition-Transitioned,
}
use energy_agent_diagnosis.Cases.Service.Effects.{
  Reaches, reach, Reaches-CasesPath, Reaches-if, Reaches-after, Transitioned-Reaches,
  audited-Reaches, index_case-Reaches, retired-Reaches, supersede-Reaches,
}

update_row-Reaches :
    (k : String) (f : DiagnosisCase → DiagnosisCase) (actor_id : String) (privileged : Bool)
    (db : Database) (o : Option DiagnosisCase)
    → Table.get k db.cases ≡ o
    → ((c : DiagnosisCase) → RowStep c (f c))
    → Reaches db.cases (update_row k f actor_id privileged o db)
unfolding update_row
update_row-Reaches k f actor_id privileged db none e step = reach done
update_row-Reaches k f actor_id privileged db (some c) e step =
    let edited : Reaches db.cases (ok (f c), record db { cases = Table.modify k f db.cases }) =
      reach (stepped done (changed k f c e (step c))) in
    search (Reaches-if, reach, done, edited)

-- What `get` finds is the row of the table.
pub get-row :
    (k : String) (db : Database) (c : DiagnosisCase)
    → get k db ≡ ok c
    → Table.get k db.cases ≡ some c
unfolding get Repository.get
get-row k db c h = ground (arith, h)

module _ (lib : Library) (settings : Settings) (env : Environment) (actor : Actor)
    (db : Database) where
  pub patch-Reaches :
      (k : String) (p : CasePatchRequest) → Reaches db.cases (patch lib settings env actor k p db)
  unfolding patch update_draft Repository.get
  patch-Reaches k p = audited-Reaches env actor "case.updated" _ (
      update_row-Reaches k (patched p) actor.actor_id (is_privileged actor.actor_role) db
        (Table.get k db.cases) refl (patched-RowStep p))

  audited_once-Reaches :
      (action : String) (r : Outcome (DiagnosisCase × Bool) × Database)
      → Reaches db.cases r
      → Reaches db.cases (audited_once lib settings env actor action r)
  unfolding audited_once
  audited_once-Reaches action (err e, db') (reach p) = reach p
  audited_once-Reaches action (ok (c, true), db') (reach p) = reach p
  audited_once-Reaches action (ok (c, false), db') (reach p) = reach p

  submit_found-Reaches :
      (k : String) (key : Option String) (c : DiagnosisCase)
      → Reaches db.cases (submit_found lib settings env actor k key c db)
  unfolding submit_found
  submit_found-Reaches k key c =
      let submitted = audited_once-Reaches "case.submitted" _ (
        Transitioned-Reaches k (submitting lib settings env actor k key) db _
          (transition-Transitioned settings.has_index env.new_job k _ db)
          (λ x row at. submitting-RowStep lib settings env actor k key x at)) in
      search (Reaches-if, reach, done, submitted)

  pub submit-Reaches :
      (k : String) (key : Option String) → Reaches db.cases (submit lib settings env actor k key db)
  unfolding submit
  submit-Reaches k key = elim (Outcome-cases (get k db)) [
    | inr (x, e) ↦ rw (submit, e) (reach done)
    | inl (c, e) ↦ rw (submit, e) (submit_found-Reaches k key c)
  ]

  pub disable-Reaches :
      (k reason : String) (key : Option String)
      → Reaches db.cases (disable lib settings env actor k reason key db)
  unfolding disable disable_found
  disable-Reaches k reason key = elim (Outcome-cases (get k db)) [
    | inr (x, e) ↦ rw (disable, e) (reach done)
    | inl (c, e) ↦
        rw (disable, e)
          (retired-Reaches lib settings env actor _ _ _ (
            Transitioned-Reaches k _ db _
              (transition-Transitioned settings.has_index env.new_job k _ db)
              (λ x row at. disabling-RowStep lib settings env actor k reason key c x at)))
  ]

  -- The replaced case is retired after the approved one is indexed.
  replaced-Reaches :
      (c : DiagnosisCase) (old_id : String) (db' : Database)
      → CasesPath db.cases db'.cases
      → (o : Outcome DiagnosisCase)
      → Reaches db.cases (elim o as (λ _. Outcome DiagnosisCase × Database) [
        | err e ↦ (err e, (supersede lib settings env actor old_id db').1)
        | ok _ ↦ (ok c, (supersede lib settings env actor old_id db').1)
      ])
  replaced-Reaches c old_id db' p (ok _) =
      reach (after p (Reaches-CasesPath (supersede-Reaches lib settings env actor old_id db')))
  replaced-Reaches c old_id db' p (err e) =
      reach (after p (Reaches-CasesPath (supersede-Reaches lib settings env actor old_id db')))

  replace-Reaches :
      (r : Outcome DiagnosisCase × Database)
      → Reaches db.cases r
      → Reaches db.cases (replace lib settings env actor r)
  unfolding replace
  replace-Reaches (err e, db') (reach p) = reach p
  replace-Reaches (ok c, db') (reach p) = elim (Option-cases c.supersedes_case_id) [
    | inl gone ↦ rw (replace, gone) (reach p)
    | inr (old_id, e) ↦
        rw (replace, e)
          (Reaches-if db.cases _ _ (ok c, db')
            (λ _. replaced-Reaches c old_id db' p (supersede lib settings env actor old_id db').0)
            (λ _. reach p))
  ]

  publish-Reaches :
      (d : Decision) (c : DiagnosisCase) (db' : Database)
      → CasesPath db.cases db'.cases
      → ((x : DiagnosisCase)
          → d ≡ approve
          → Table.get c.case_id db'.cases ≡ some x
          → x.review_status ≡ approved)
      → Reaches db.cases (publish lib settings env actor d c db')
  unfolding publish
  publish-Reaches reject c db' p at = reach p
  publish-Reaches approve c db' p at = replace-Reaches _ (
      Reaches-if db.cases (is_sync settings.index_execution_mode)
        (index_case lib settings env actor "case" c db') (ok c, db')
        (λ _.
          Reaches-after p
            (index_case-Reaches lib settings env actor "case" c db' (λ x row. at x refl row)))
        (λ _. reach p))

  after_review-Reaches :
      (k : String) (d : Decision) (comment key : Option String) (current : DiagnosisCase)
      (r : Outcome (DiagnosisCase × Bool) × Database)
      → Transitioned k (reviewing lib settings env actor k d comment key current) db r
      → Holds IsSound db.cases
      → Reaches db.cases r
      → Reaches db.cases (after_review lib settings env actor d r)
  unfolding after_review
  after_review-Reaches k d comment key current _ (failed e) sound (reach p) = reach p
  after_review-Reaches k d comment key current _ (replayed c) sound (reach p) = reach p
  after_review-Reaches k d comment key current _ (committed c job db' row at same) sound (reach p) =
      audited-Reaches env actor (decision_action d) _ (
        publish-Reaches d _ db' p (λ x e found.
          let t = reviewing lib settings env actor k d comment key current in
          let at_key : Table.get k db'.cases ≡ some x =
            subst (λ i. Table.get i db'.cases ≡ some x) ((sound k c row).named) found in
          let moved_row = get-modify_self k (moved t) db.cases c row in
          ground (arith, e, at_key, same, moved_row)))

  pub review_case-Reaches :
      (k : String) (d : Decision) (comment key : Option String)
      → Holds IsSound db.cases
      → Reaches db.cases (review_case lib settings env actor k d comment key db)
  unfolding review_case review_found
  review_case-Reaches k d comment key sound = elim (Outcome-cases (get k db)) [
    | inr (x, e) ↦ rw (review_case, e) (reach done)
    | inl (c, e) ↦
        let t = reviewing lib settings env actor k d comment key c in
        let tr = transition-Transitioned settings.has_index env.new_job k t db in
        rw (review_case, e)
          (Reaches-if db.cases (c.created_by == actor.actor_id) _ _ (λ _. reach done)
            (λ other. after_review-Reaches k d comment key c _ tr sound (
              Transitioned-Reaches k t db _ tr (λ x row at.
                reviewing-RowStep lib settings env actor k d comment key c x at (λ a.
                  ground (
                    arith,
                    get-row k db c e,
                    row,
                    a,
                    other,
                    eq_iff c.created_by actor.actor_id,
                  ))))))
  ]
