-- ===== src/Cases/Service/Calls.antt =====
-- The calls of src/energy_agent/cases/application.py that change a table and the index handler of cases
-- (src/energy_agent/indexing/handler_runtime.py), each with what it meets, and the tables that a sequence
-- of them leaves.
use energy_agent_diagnosis.Common.{String, Option, Bool, List, [], ◌∷◌}
use energy_agent_diagnosis.Persistence.Database.{Database}
use energy_agent_diagnosis.Persistence.Index.{IndexJobMessage}
use energy_agent_diagnosis.Cases.Handler.{Runtime, handle_case}
use energy_agent_diagnosis.Cases.Service.Requests.{Library, Settings, Actor, Environment}
use energy_agent_diagnosis.Cases.Service.Review
use energy_agent_diagnosis.Cases.Service.Review.{CasePatchRequest, Decision}
use energy_agent_diagnosis.Cases.Service.Revision
use energy_agent_diagnosis.Cases.Service.Diagnosis
use energy_agent_diagnosis.Cases.Service.Diagnosis.{DiagnosisReviewRequest}

pub data Call : Type 0 where
  review_diagnosis : String → DiagnosisReviewRequest → Option String → Call
  patch : String → CasePatchRequest → Call
  submit : String → Option String → Call
  review_case : String → Decision → Option String → Option String → Call
  disable : String → String → Option String → Call
  revision : String → CasePatchRequest → Bool → List (String × Option String) → Option String → Call
  reindex : String → Option String → Call
  handle : Runtime → IndexJobMessage → Call

module _ (lib : Library) (settings : Settings) where
  unfoldable pub apply : Environment → Actor → Call → Database → Database
  apply env actor (Call.review_diagnosis s p key) db =
      (Diagnosis.review_diagnosis lib settings env actor s p key db).1
  apply env actor (Call.patch k p) db = (Review.patch lib settings env actor k p db).1
  apply env actor (Call.submit k key) db = (Review.submit lib settings env actor k key db).1
  apply env actor (Call.review_case k d comment key) db =
      (Review.review_case lib settings env actor k d comment key db).1
  apply env actor (Call.disable k reason key) db =
      (Review.disable lib settings env actor k reason key db).1
  apply env actor (Call.revision k p submits fields key) db =
      (Revision.revision lib settings env actor k p submits fields key db).1
  apply env actor (Call.reindex k key) db = (Revision.reindex lib settings env actor k key db).1
  apply env actor (Call.handle r event) db = (handle_case lib r event db).1

  unfoldable pub apply_all : List (Environment × Actor × Call) → Database → Database
  apply_all [] db = db
  apply_all ((env, actor, c) ∷ cs) db = apply_all cs (apply env actor c db)
