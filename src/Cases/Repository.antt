-- ===== src/Cases/Repository.antt =====
-- src/energy_agent/persistence/repositories/cases.py: the methods of `CaseRepository` that write, and
-- those that a service reads. A method is one transaction: one that raises changes nothing. The pages
-- and lists of cases, which are queries only, are left out.
use energy_agent_diagnosis.Common.{
  ℕ, ◌+◌, String, Option, none, some, is_some, Bool, false, not, ◌&&◌, ◌||◌, List, [], ◌∷◌, ◌++◌,
  ◌==◌, string_eq, nat_eq, ltb, if◌then◌else◌,
}
use energy_agent_diagnosis.Common.Errors.{Outcome, ok, err, Error, Action}
use energy_agent_diagnosis.Common.Table
use energy_agent_diagnosis.Common.Table.{Table}
use energy_agent_diagnosis.Persistence.Cases.{draft, status_eq, DiagnosisCase, CaseReviewEvent}
use energy_agent_diagnosis.Persistence.Database.{Database}

-- The row of a case, read by a transaction or by `get`.
unfoldable pub get : String → Database → Option DiagnosisCase
get case_id db = Table.get case_id db.cases

-- `uq_case_session_version`
abbrev pub same_version : DiagnosisCase → DiagnosisCase → Bool
same_version a b = a.source_session_id == b.source_session_id && a.case_version == b.case_version

unfoldable pub any_row : (DiagnosisCase → Bool) → Table DiagnosisCase → Bool
any_row p [] = false
any_row p ((k, c) ∷ t) = p c || any_row p t

-- `create`: the keys of the table refuse a case id, or a session's version, that is taken.
unfoldable pub create : DiagnosisCase → Action Database DiagnosisCase
unfolding any_row
create c db =
    if is_some (Table.get c.case_id db.cases) || any_row (same_version c) db.cases
    then (err Error.integrity_error, db)
    else (ok c, record db { cases = Table.add c.case_id c db.cases })

-- `get_by_review`: a query for one row at most, which raises where there are more.
unfoldable pub of_review : String → Table DiagnosisCase → List DiagnosisCase
of_review review_id [] = []
of_review review_id ((k, c) ∷ t) =
    let rest = of_review review_id t in if c.source_review_id == review_id then c ∷ rest else rest

abbrev pub one_or_none : List DiagnosisCase → Outcome (Option DiagnosisCase)
one_or_none [] = ok none
one_or_none (c ∷ []) = ok (some c)
one_or_none (c ∷ d ∷ cs) = err Error.multiple_results_found

unfoldable pub get_by_review : String → Database → Outcome (Option DiagnosisCase)
get_by_review review_id db = one_or_none (of_review review_id db.cases)

-- The event of a case under an idempotency key.
abbrev pub has_key : String → String → CaseReviewEvent → Bool
has_key case_id key e =
    e.case_id == case_id && elim e.idempotency_key [ none ↦ false | some k ↦ k == key ]

unfoldable pub find_event : String → String → List CaseReviewEvent → Option CaseReviewEvent
find_event case_id key [] = none
find_event case_id key (e ∷ es) =
    let rest = find_event case_id key es in if has_key case_id key e then some e else rest

-- An event is added unless its key, where it has one, is taken (`uq_case_event_idempotency`).
unfoldable pub add_event : CaseReviewEvent → Database → Outcome Database
add_event e db =
    if elim e.idempotency_key [
      | none ↦ false
      | some key ↦ is_some (find_event e.case_id key db.events)
    ]
    then err Error.integrity_error
    else ok (record db { events = db.events ++ e ∷ [] })

-- `append_event`
unfoldable pub append_event : CaseReviewEvent → Action Database (Unit {0})
append_event e db = elim (add_event e db) [ ok db' ↦ (ok tt, db') | err x ↦ (err x, db) ]

-- `update_draft`; `patch` assigns the values that the request has set.
unfoldable pub update_row :
    String
    → (DiagnosisCase → DiagnosisCase)
    → String
    → Bool
    → Option DiagnosisCase
    → Action Database DiagnosisCase
update_row case_id patch actor_id privileged none db = (err Error.case_not_found, db)
update_row case_id patch actor_id privileged (some c) db =
    if not (c.review_status == draft)
    then (err Error.case_not_editable, db)
    else if not (c.created_by == actor_id) && not privileged
    then (err Error.case_not_editable, db)
    else (ok (patch c), record db { cases = Table.modify case_id patch db.cases })

unfoldable pub update_draft :
    String → (DiagnosisCase → DiagnosisCase) → String → Bool → Action Database DiagnosisCase
unfolding update_row
update_draft case_id patch actor_id privileged db =
    update_row case_id patch actor_id privileged (get case_id db) db

-- `next_version`: one more than the greatest version of the session's cases.
unfoldable pub max_version : String → Table DiagnosisCase → ℕ
max_version session_id [] = 0
max_version session_id ((k, c) ∷ t) =
    let rest = max_version session_id t in
    if c.source_session_id == session_id
    then (if ltb rest c.case_version then c.case_version else rest)
    else rest

unfoldable pub next_version : String → Database → ℕ
unfolding max_version
next_version session_id db = max_version session_id db.cases + 1
