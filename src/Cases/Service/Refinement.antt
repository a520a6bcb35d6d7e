-- ===== src/Cases/Service/Refinement.antt =====
-- The calls of src/energy_agent/cases/application.py and the index handler of cases, in any order, against the life of a case.
use energy_agent_diagnosis.Common.{String, List, [], ◌∷◌}
use energy_agent_diagnosis.Common.Table
use energy_agent_diagnosis.Common.Table.{Table, Holds}
use energy_agent_diagnosis.Persistence.Database.{Database}
use energy_agent_diagnosis.Cases.Service.Requests.{Library, Settings, Actor, Environment}
use energy_agent_diagnosis.Cases.Service.Lifecycle.{RowHistory, IsSound}
use energy_agent_diagnosis.Cases.Service.Steps.{
  CasesPath, done, after, CasesPath-Holds, CasesPath-RowHistory,
}
use energy_agent_diagnosis.Cases.Service.Effects.{Reaches-CasesPath}
use energy_agent_diagnosis.Cases.Service.Paths.{
  patch-Reaches, submit-Reaches, review_case-Reaches, disable-Reaches,
}
use energy_agent_diagnosis.Cases.Service.Additions.{revision-Reaches, reindex-Reaches}
use energy_agent_diagnosis.Cases.Service.Drafts.{review_diagnosis-Reaches}
use energy_agent_diagnosis.Cases.Handling.{handle_case-CasesPath}
use energy_agent_diagnosis.Cases.Service.Calls.{Call, apply, apply_all}

apply-CasesPath :
    (lib : Library) (settings : Settings) (env : Environment) (actor : Actor) (c : Call)
    (db : Database)
    → Holds IsSound db.cases
    → CasesPath db.cases (apply lib settings env actor c db).cases
unfolding apply
apply-CasesPath lib settings env actor (Call.review_diagnosis s p key) db sound =
    Reaches-CasesPath (review_diagnosis-Reaches lib settings env actor s p key db)
apply-CasesPath lib settings env actor (Call.patch k p) db sound =
    Reaches-CasesPath (patch-Reaches lib settings env actor db k p)
apply-CasesPath lib settings env actor (Call.submit k key) db sound =
    Reaches-CasesPath (submit-Reaches lib settings env actor db k key)
apply-CasesPath lib settings env actor (Call.review_case k d comment key) db sound =
    Reaches-CasesPath (review_case-Reaches lib settings env actor db k d comment key sound)
apply-CasesPath lib settings env actor (Call.disable k reason key) db sound =
    Reaches-CasesPath (disable-Reaches lib settings env actor db k reason key)
apply-CasesPath lib settings env actor (Call.revision k p submits fields key) db sound =
    Reaches-CasesPath (revision-Reaches lib settings env actor db k p submits fields key)
apply-CasesPath lib settings env actor (Call.reindex k key) db sound =
    Reaches-CasesPath (reindex-Reaches lib settings env actor db k key sound)
apply-CasesPath lib settings env actor (Call.handle r event) db sound =
    handle_case-CasesPath lib r event db

module _ (lib : Library) (settings : Settings) where
  all-CasesPath :
      (cs : List (Environment × Actor × Call)) (db : Database)
      → Holds IsSound db.cases
      → CasesPath db.cases (apply_all lib settings cs db).cases
  unfolding apply_all
  all-CasesPath [] db sound = done
  all-CasesPath ((env, actor, c) ∷ cs) db sound =
      let first = apply-CasesPath lib settings env actor c db sound in
      after first
        (all-CasesPath cs (apply lib settings env actor c db) (CasesPath-Holds sound first))

  -- Over any calls of the case service by any actors and any single case events of the index handler, in
  -- any order, whatever the indexing and the graph do and whether a call succeeds or raises, the row of every key follows the life of a case: no row is removed, a row
  -- that is new has come from a draft, and one that was there keeps its creator and has moved only from
  -- draft to review, from review to approved or rejected, and from approved to disabled or superseded.
  -- The rows are sound at the start.
  pub apply_all-RowHistory :
      (cs : List (Environment × Actor × Call)) (db : Database) (k : String)
      → Holds IsSound db.cases
      → RowHistory (Table.get k db.cases) (Table.get k (apply_all lib settings cs db).cases)
  apply_all-RowHistory cs db k sound = CasesPath-RowHistory k (all-CasesPath cs db sound)

  -- Calls of the case service and single case events of the index handler, in any order, keep every row sound: it stands under its own id, a case is in
  -- use only while it is approved, and one that has left the draft and the review was reviewed by someone
  -- other than its creator.
  pub apply_all-IsSound :
      (cs : List (Environment × Actor × Call)) (db : Database)
      → Holds IsSound db.cases
      → Holds IsSound (apply_all lib settings cs db).cases
  apply_all-IsSound cs db sound = CasesPath-Holds sound (all-CasesPath cs db sound)
