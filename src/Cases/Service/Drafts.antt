-- ===== src/Cases/Service/Drafts.antt =====
-- `review_diagnosis` of src/energy_agent/cases/application.py as steps of the table of cases.
use energy_agent_diagnosis.Common.{
  String, Option, none, some, ◌≡◌, refl, arith, inl, inr, Option-cases,
}
use energy_agent_diagnosis.Common.Errors.{Outcome, ok, err, Outcome-cases}
use energy_agent_diagnosis.Common.Table
use energy_agent_diagnosis.Common.Table.{Table}
use energy_agent_diagnosis.Persistence.Cases.{
  DiagnosisCase, DiagnosisReview, DiagnosisSession, DiagnosisReviewResult, confirmed, rejected,
  needs_more_info,
}
use energy_agent_diagnosis.Persistence.Database.{Database}
use energy_agent_diagnosis.Cases.Repository.{get_by_review}
use energy_agent_diagnosis.Cases.Service.Requests.{
  Library, Settings, Actor, Environment, DiagnosisResult,
}
use energy_agent_diagnosis.Cases.Service.Diagnosis.{
  DiagnosisReviewRequest, append_review, find_review, create_draft, audit_created, confirmed_case,
  apply_review, reviewed_diagnosis, review_stored, review_session, review_diagnosis, review_of,
}
use energy_agent_diagnosis.Cases.Service.Steps.{done}
use energy_agent_diagnosis.Cases.Service.Effects.{
  as_path, Reaches, reach, Reaches-CasesPath, Reaches-if, Reaches-after,
}
use energy_agent_diagnosis.Cases.Service.Additions.{create-Reaches}

append_review-cases :
    (r : DiagnosisReview) (db : Database) → (append_review r db).1.cases ≡ db.cases
unfolding append_review
append_review-cases r db =
    elim (Option-cases (find_review r.session_id r.idempotency_key db.reviews)) [
      | inl fresh ↦ rw (append_review, fresh) refl
      | inr (old, known) ↦ rw (append_review, known) (ground arith)
    ]

module _ (lib : Library) (settings : Settings) (env : Environment) (actor : Actor) where
  audit_created-Reaches :
      {t : Table DiagnosisCase} (r : Outcome DiagnosisCase × Database)
      → Reaches t r
      → Reaches t (audit_created lib settings env actor r)
  audit_created-Reaches (err e, db) (reach p) = reach p
  audit_created-Reaches (ok c, db) (reach p) = reach p

  create_draft-Reaches :
      (session_id review_id : String) (p : DiagnosisReviewRequest) (result : DiagnosisResult)
      (db : Database)
      → Reaches db.cases (create_draft lib settings env actor session_id review_id p result db)
  unfolding create_draft
  create_draft-Reaches session_id review_id p result db =
      elim (Option-cases (Table.get session_id db.sessions)) [
        | inl gone ↦ rw (create_draft, gone) (reach done)
        | inr (session, found) ↦ elim (Option-cases p.root_cause) [
          | inl missing ↦ rw (create_draft, found, missing) (reach done)
          | inr (cause, e) ↦
              rw (create_draft, found, e) (audit_created-Reaches _ (create-Reaches _ db refl refl))
        ]
      ]

  confirmed_case-Reaches :
      (session_id review_id : String) (p : DiagnosisReviewRequest) (result : DiagnosisResult)
      (db : Database)
      → Reaches db.cases (confirmed_case lib settings env actor session_id review_id p result db)
  unfolding confirmed_case
  confirmed_case-Reaches session_id review_id p result db =
      let made = create_draft-Reaches session_id review_id p result db in
      let c = (create_draft lib settings env actor session_id review_id p result db).0 in
      elim (Outcome-cases (get_by_review review_id db)) [
        | inr (x, e) ↦ rw (confirmed_case, e) (reach done)
        | inl (some d, e) ↦ rw (confirmed_case, e) (reach done)
        | inl (none, e) ↦ elim (Outcome-cases c) [
          | inl (d, f) ↦ rw (confirmed_case, e, f) (reach (Reaches-CasesPath made))
          | inr (x, f) ↦ rw (confirmed_case, e, f) (reach (Reaches-CasesPath made))
        ]
      ]

  apply_review-Reaches :
      (r : DiagnosisReviewResult) (session_id review_id : String) (p : DiagnosisReviewRequest)
      (result : DiagnosisResult) (db : Database)
      → Reaches db.cases (apply_review lib settings env actor r session_id review_id p result db)
  unfolding apply_review
  apply_review-Reaches confirmed session_id review_id p result db =
      confirmed_case-Reaches session_id review_id p result db
  apply_review-Reaches needs_more_info session_id review_id p result db = reach done
  apply_review-Reaches rejected session_id review_id p result db = reach done

  reviewed_diagnosis-Reaches :
      {t : Table DiagnosisCase} (session_id run_id review_id : String) (d : DiagnosisReviewResult)
      (r : Outcome (Option DiagnosisCase) × Database)
      → Reaches t r
      → Reaches t (reviewed_diagnosis lib settings env actor session_id run_id review_id d r)
  unfolding reviewed_diagnosis
  reviewed_diagnosis-Reaches session_id run_id review_id d (err e, db) (reach p) = reach p
  reviewed_diagnosis-Reaches session_id run_id review_id d (ok none, db) (reach p) =
      reach (as_path (ground arith) p)
  reviewed_diagnosis-Reaches session_id run_id review_id d (ok (some c), db) (reach p) =
      reach (as_path (ground arith) p)

  review_stored-Reaches :
      {t : Table DiagnosisCase} (session_id : String) (p : DiagnosisReviewRequest)
      (result : DiagnosisResult) (r : Outcome DiagnosisReview × Database)
      → r.1.cases ≡ t
      → Reaches t (review_stored lib settings env actor session_id p result r)
  unfolding review_stored
  review_stored-Reaches session_id p result (err e, db) same = reach (as_path same done)
  review_stored-Reaches session_id p result (ok r, db) same =
      reviewed_diagnosis-Reaches session_id result.run_id r.review_id p.review_result _ (
        Reaches-after (as_path same done)
          (apply_review-Reaches p.review_result session_id r.review_id p result db))

  review_session-Reaches :
      (session_id : String) (p : DiagnosisReviewRequest) (key : Option String)
      (session : Option DiagnosisSession) (result : Option DiagnosisResult) (db : Database)
      → Reaches db.cases (review_session lib settings env actor session_id p key session result db)
  unfolding review_session
  review_session-Reaches session_id p key (some session) (some result) db =
      let r = append_review (review_of lib settings env actor session_id p key result) db in
      let stored =
        review_stored-Reaches session_id p result r
          (append_review-cases (review_of lib settings env actor session_id p key result) db) in
      search (Reaches-if, reach, done, stored)
  review_session-Reaches session_id p key none result db = reach done
  review_session-Reaches session_id p key (some session) none db = reach done

  pub review_diagnosis-Reaches :
      (session_id : String) (p : DiagnosisReviewRequest) (key : Option String) (db : Database)
      → Reaches db.cases (review_diagnosis lib settings env actor session_id p key db)
  unfolding review_diagnosis
  review_diagnosis-Reaches session_id p key db =
      review_session-Reaches session_id p key (Table.get session_id db.sessions)
        (env.latest session_id) db
