-- ===== src/Cases/Service/Effects.antt =====
-- The calls of src/energy_agent/cases/application.py as steps of the table of cases.
use energy_agent_diagnosis.Common.{
  String, Option, some, Bool, true, false, ◌≡◌, sym, if◌then◌else◌, string_eq, inl, inr, if-elim,
}
use energy_agent_diagnosis.Common.Errors.{Outcome, ok, err, Outcome-cases}
use energy_agent_diagnosis.Common.Table
use energy_agent_diagnosis.Common.Table.{Table, Holds, get-modify_self}
use mathlib.Core.Path.{subst}
use energy_agent_diagnosis.Persistence.Cases.{approved, CaseIndexStatus, DiagnosisCase}
use energy_agent_diagnosis.Persistence.Database.{Database}
use energy_agent_diagnosis.Cases.Transition.{Transition, moved, set_index}
use energy_agent_diagnosis.Cases.Service.Requests.{
  Library, Settings, Actor, Environment, get, audited, is_sync,
}
use energy_agent_diagnosis.Cases.Service.Indexing.{
  index_case, tombstone, retired, supersede, supersede_found,
}
use energy_agent_diagnosis.Cases.Service.Steps.{RowStep, changed, CasesPath, done, stepped, after}
use energy_agent_diagnosis.Cases.Service.Rows.{
  inactive-RowStep, active-RowStep, superseding-RowStep,
}
use energy_agent_diagnosis.Cases.Service.Outcomes.{
  Transitioned, failed, replayed, committed, transition-Transitioned, Changed, unchanged,
  set_index-Changed,
}
use energy_agent_diagnosis.Cases.Service.Outcomes

-- The tables after a call: the cases are reached from those of `t`.
pub data Reaches {A : Type 0} (t : Table DiagnosisCase) (r : Outcome A × Database) : Type 0 where
  reach : CasesPath t r.1.cases → Reaches t r

pub Reaches-CasesPath :
    {A : Type 0} {t : Table DiagnosisCase} {r : Outcome A × Database}
    → Reaches t r
    → CasesPath t r.1.cases
Reaches-CasesPath (reach p) = p

pub Reaches-if :
    {A : Type 0} (t : Table DiagnosisCase) (b : Bool) (x y : Outcome A × Database)
    → (b ≡ true → Reaches t x)
    → (b ≡ false → Reaches t y)
    → Reaches t (if b then x else y)
Reaches-if t b x y p q = if-elim (Reaches t) b x y p q

-- A table that is another one is reached from where that one is.
pub as_path : {t t' t'' : Table DiagnosisCase} → t'' ≡ t' → CasesPath t t' → CasesPath t t''
as_path {t} e p = subst (CasesPath t) (sym e) p

pub Reaches-after :
    {A : Type 0} {t t' : Table DiagnosisCase} {r : Outcome A × Database}
    → CasesPath t t'
    → Reaches t' r
    → Reaches t r
Reaches-after p (reach q) = reach (after p q)

pub Changed-Reaches :
    {A : Type 0} (k : String) (f : DiagnosisCase → DiagnosisCase) (db : Database)
    (r : Outcome A × Database)
    → Changed k f db r
    → ((c : DiagnosisCase) → Table.get k db.cases ≡ some c → RowStep c (f c))
    → Reaches db.cases r
Changed-Reaches k f db _ (unchanged e) step = reach done
Changed-Reaches k f db _ (Outcomes.changed c a db' row same) step =
    reach (as_path same (stepped done (changed k f c row (step c row))))

pub Transitioned-Reaches :
    (k : String) (t : Transition) (db : Database) (r : Outcome (DiagnosisCase × Bool) × Database)
    → Transitioned k t db r
    → ((c : DiagnosisCase)
        → Table.get k db.cases ≡ some c
        → c.review_status ≡ t.expected
        → RowStep c (moved t c))
    → Reaches db.cases r
Transitioned-Reaches k t db _ (failed e) step = reach done
Transitioned-Reaches k t db _ (replayed c) step = reach done
Transitioned-Reaches k t db _ (committed c job db' row at same) step =
    reach (as_path same (stepped done (changed k (moved t) c row (step c row at))))

-- An audit leaves the cases.
pub audited-Reaches :
    {t : Table DiagnosisCase} (env : Environment) (actor : Actor) (action : String)
    (r : Outcome DiagnosisCase × Database)
    → Reaches t r
    → Reaches t (audited env actor action r)
audited-Reaches env actor action (err e, db) (reach p) = reach p
audited-Reaches env actor action (ok c, db) (reach p) = reach p

set_inactive-Reaches :
    (k : String) (status : CaseIndexStatus) (code text : Option String) (db : Database)
    → Reaches db.cases (set_index k status code text (some false) db)
set_inactive-Reaches k status code text db =
    Changed-Reaches k _ db _ (set_index-Changed k db status code text (some false))
      (λ x row. inactive-RowStep status code text x)

set_active-Reaches :
    (k : String) (status : CaseIndexStatus) (code text : Option String) (db : Database)
    → ((x : DiagnosisCase) → Table.get k db.cases ≡ some x → x.review_status ≡ approved)
    → Reaches db.cases (set_index k status code text (some true) db)
set_active-Reaches k status code text db at =
    Changed-Reaches k _ db _ (set_index-Changed k db status code text (some true))
      (λ x row. active-RowStep status code text x (at x row))

module _ (lib : Library) (settings : Settings) (env : Environment) (actor : Actor) where
  pub index_case-Reaches :
      (prefix : String) (c : DiagnosisCase) (db : Database)
      → ((x : DiagnosisCase) → Table.get c.case_id db.cases ≡ some x → x.review_status ≡ approved)
      → Reaches db.cases (index_case lib settings env actor prefix c db)
  unfolding index_case
  index_case-Reaches prefix c db at =
      search (Reaches-if, audited-Reaches, set_active-Reaches, set_inactive-Reaches, at)

  pub tombstone-Reaches :
      (prefix : String) (c : DiagnosisCase) (db : Database)
      → Reaches db.cases (tombstone lib settings env actor prefix c db)
  unfolding tombstone
  tombstone-Reaches prefix c db = search (Reaches-if, audited-Reaches, set_inactive-Reaches)

  pub retired-Reaches :
      {t : Table DiagnosisCase} (prefix action : String)
      (r : Outcome (DiagnosisCase × Bool) × Database)
      → Reaches t r
      → Reaches t (retired lib settings env actor prefix action r)
  unfolding retired
  retired-Reaches prefix action (err e, db) (reach p) = reach p
  retired-Reaches {t} prefix action (ok (c, again), db) (reach p) =
      let removed =
        if is_sync settings.index_execution_mode
        then tombstone lib settings env actor prefix c db
        else (ok c, db) in
      let reached : Reaches t removed =
        Reaches-if t (is_sync settings.index_execution_mode) _ (ok c, db)
          (λ _. Reaches-after p (tombstone-Reaches prefix c db)) (λ _. reach p) in
      Reaches-if t again removed (audited env actor action removed) (λ _. reached)
        (λ _. audited-Reaches env actor action removed reached)

  pub supersede-Reaches :
      (case_id : String) (db : Database)
      → Reaches db.cases (supersede lib settings env actor case_id db)
  unfolding supersede supersede_found
  supersede-Reaches case_id db = elim (Outcome-cases (get case_id db)) [
    | inr (x, e) ↦ rw (supersede, e) (reach done)
    | inl (c, e) ↦
        rw (supersede, e)
          (retired-Reaches _ _ _ (
            Transitioned-Reaches case_id _ db _
              (transition-Transitioned settings.has_index env.new_job case_id _ db)
              (λ x row at. superseding-RowStep lib settings env actor case_id c x at)))
  ]
