-- ===== src/Cases/Versions.antt =====
-- The versions of a session's cases (src/energy_agent/persistence/repositories/cases.py).
use energy_agent_diagnosis.Common.{
  ◌<◌, is_some, false, [], ◌∷◌, ◌≡◌, refl, arith, eq_iff, if◌then◌else◌, string_eq, nat_eq,
}
use energy_agent_diagnosis.Common.Errors.{ok, err, Error}
use energy_agent_diagnosis.Common.Table
use energy_agent_diagnosis.Common.Table.{Table}
use energy_agent_diagnosis.Persistence.Cases.{DiagnosisCase}
use energy_agent_diagnosis.Persistence.Database.{Database}
use energy_agent_diagnosis.Cases.Repository.{
  any_row, same_version, max_version, next_version, create,
}

-- No row of the session has a version above the greatest.
any_row-max_version :
    (c : DiagnosisCase) (t : Table DiagnosisCase)
    → max_version c.source_session_id t < c.case_version
    → any_row (same_version c) t ≡ false
unfolding any_row max_version
any_row-max_version c [] h = refl
any_row-max_version c ((k, x) ∷ t) h =
    let rest : max_version c.source_session_id t < c.case_version
        → any_row (same_version c) t ≡ false =
      any_row-max_version c t in
    ground (
      arith,
      h,
      rest,
      eq_iff c.source_session_id x.source_session_id,
      eq_iff x.source_session_id c.source_session_id,
    )

-- A case that is created with the next version of its session never meets the session's unique versions:
-- it is added, unless its id is taken.
pub create-next_version :
    (c : DiagnosisCase) (db : Database)
    → c.case_version ≡ next_version c.source_session_id db
    → create c db ≡ (
        if is_some (Table.get c.case_id db.cases)
        then (err Error.integrity_error, db)
        else (ok c, record db { cases = Table.add c.case_id c db.cases }))
unfolding create next_version
create-next_version c db h =
    let free = any_row-max_version c db.cases (omega (arith, h)) in ground (arith, free)
