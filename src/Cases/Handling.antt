-- ===== src/Cases/Handling.antt =====
-- The index handler of cases (src/energy_agent/indexing/handler_runtime.py, `_case`) as steps of the table
-- of cases.
use energy_agent_diagnosis.Common.{
  String, Option, none, some, Bool, true, false, not, ◌||◌, ◌≡◌, refl, arith, ◌==◌, string_eq, inl,
  inr, Option-cases, Bool-cases, if◌then◌else◌, if-elim,
}
use energy_agent_diagnosis.Common.Errors.{Outcome-cases}
use energy_agent_diagnosis.Common.Table
use energy_agent_diagnosis.Common.Table.{Table, Holds, get-modify, get-modify_self}
use energy_agent_diagnosis.Persistence.Index.{IndexJobMessage}
use energy_agent_diagnosis.Persistence.Cases.{
  approved, CaseIndexStatus, DiagnosisCase, status_eq, status_beq_iff,
}
use energy_agent_diagnosis.Persistence.Database.{Database}
use energy_agent_diagnosis.Indexing.Repository.{add_job}
use energy_agent_diagnosis.Cases.Service.Requests.{Library}
use energy_agent_diagnosis.Cases.Service.Lifecycle.{here, next, replaced}
use energy_agent_diagnosis.Cases.Service.Steps.{RowStep, changed, CasesPath, done, stepped}
use energy_agent_diagnosis.Cases.Service.Effects.{as_path}
use energy_agent_diagnosis.Cases.Service.Outcomes.{add_job_cases}
use energy_agent_diagnosis.Cases.Handler.{
  Runtime, Handled, case_index, superseded_row, tombstone_request, queue_superseded, index_row,
  replace_old, upsert_case, tombstone_case, is_withdrawn, is_tombstone, handle_case, text_of,
  projects,
}

-- A handling that leads to a table of cases.
data Leads (t : Table DiagnosisCase) (r : Handled × Database) : Type 0 where
  lead : CasesPath t r.1.cases → Leads t r

Leads-if :
    (t : Table DiagnosisCase) (b : Bool) (x y : Handled × Database)
    → (b ≡ true → Leads t x)
    → (b ≡ false → Leads t y)
    → Leads t (if b then x else y)
Leads-if t b x y p q = if-elim (Leads t) b x y p q

superseded-RowStep : (c : DiagnosisCase) → c.review_status ≡ approved → RowStep c (superseded_row c)
superseded-RowStep c h = record {
  path = rw h (next here replaced);
  creator = refl;
  sound = λ k s. record {
    named = s.named;
    in_use = λ a. absurd (ground (arith, a));
    four_eyes = λ r. s.four_eyes ((λ e. ground (arith, e, h)), (λ e. ground (arith, e, h)));
  };
}

active-RowStep :
    (status : CaseIndexStatus) (text : Option String) (c : DiagnosisCase)
    → c.review_status ≡ approved
    → RowStep c (case_index status true text c)
active-RowStep status text c h = record {
  path = here;
  creator = refl;
  sound = λ k s. record { named = s.named; in_use = λ _. h; four_eyes = s.four_eyes };
}

inactive-RowStep :
    (status : CaseIndexStatus) (text : Option String) (c : DiagnosisCase)
    → RowStep c (case_index status false text c)
inactive-RowStep status text c = record {
  path = here;
  creator = refl;
  sound = λ k s. record {
    named = s.named;
    in_use = λ a. absurd (ground (arith, a));
    four_eyes = s.four_eyes;
  };
}

module _ (lib : Library) (r : Runtime) (event : IndexJobMessage) {t : Table DiagnosisCase} where
  queue_superseded-Leads :
      (old_id : String) (result : Handled) (db : Database)
      → CasesPath t db.cases
      → Leads t (queue_superseded lib r event old_id result db)
  unfolding queue_superseded
  queue_superseded-Leads old_id result db p = elim (Option-cases (Table.get old_id db.cases)) [
    | inl gone ↦ rw (queue_superseded, gone) (lead p)
    | inr (old, row) ↦ elim (Bool-cases (not (old.review_status == approved))) [
      | inl other ↦ rw (queue_superseded, row, other) (lead p)
      | inr current ↦
          let before = record db { cases = Table.modify old_id superseded_row db.cases } in
          let is_approved =
            (status_beq_iff old.review_status approved).0 (ground (arith, current)) in
          let moved =
            stepped p
              (changed old_id superseded_row old row (superseded-RowStep old is_approved)) in
          elim (Outcome-cases (add_job r.new_job (tombstone_request lib r event old) before).0) [
            | inr (e, f) ↦ rw (queue_superseded, row, current, f) (lead p)
            | inl (j, f) ↦
                rw (queue_superseded, row, current, f)
                  (lead (
                    as_path (add_job_cases r.new_job (tombstone_request lib r event old) before)
                      moved))
          ]
    ]
  ]

  replace_old-Leads :
      (c : DiagnosisCase) (db : Database)
      → CasesPath t db.cases
      → Leads t (replace_old lib r event c db)
  unfolding replace_old
  replace_old-Leads c db p = elim (Option-cases c.supersedes_case_id) [
    | inl gone ↦ rw (replace_old, gone) (lead p)
    | inr (old_id, e) ↦
        let queued =
          queue_superseded-Leads old_id (Handled.indexed (not (projects lib r c))) db p in
        let kept : (h : Handled) → Leads t (h, db) = λ h. lead p in
        rw (replace_old, e) (search (Leads-if, queued, kept))
  ]

module _ (lib : Library) (r : Runtime) (event : IndexJobMessage) (db : Database) where
  index_row-CasesPath :
      (c : DiagnosisCase)
      → Table.get event.entity_id db.cases ≡ some c
      → c.review_status ≡ approved
      → CasesPath db.cases (index_row lib r event c db).cases
  index_row-CasesPath c row h =
      let status = if projects lib r c then CaseIndexStatus.indexed else CaseIndexStatus.degraded in
      as_path
        {t' = Table.modify event.entity_id (case_index status true (some (text_of c))) db.cases}
        (ground arith)
        (stepped done
          (changed event.entity_id _ c row (active-RowStep status (some (text_of c)) c h)))

  upsert-Leads :
      (c : DiagnosisCase)
      → Table.get event.entity_id db.cases ≡ some c
      → Leads db.cases (upsert_case lib r event c db)
  unfolding upsert_case
  upsert-Leads c row = elim (Bool-cases (not (c.review_status == approved))) [
    | inl other ↦ rw (upsert_case, other) (lead done)
    | inr current ↦
        let is_approved = (status_beq_iff c.review_status approved).0 (ground (arith, current)) in
        let replaces = replace_old-Leads lib r event c _ (index_row-CasesPath c row is_approved) in
        rw (upsert_case, current)
          (Leads-if db.cases (not r.indexes) _ _ (λ _. lead done) (λ _. replaces))
  ]

  tombstone-Leads :
      (c : DiagnosisCase)
      → Table.get event.entity_id db.cases ≡ some c
      → Leads db.cases (tombstone_case lib r event c db)
  unfolding tombstone_case
  tombstone-Leads c row =
      let off = case_index CaseIndexStatus.tombstoned false none in
      let path : CasesPath db.cases (Table.modify event.entity_id off db.cases) =
        stepped done (
          changed event.entity_id off c row (inactive-RowStep CaseIndexStatus.tombstoned none c)) in
      elim (Bool-cases (c.is_active || not (is_withdrawn c.review_status))) [
        | inl current ↦ rw (tombstone_case, current) (lead done)
        | inr gone ↦ elim (Bool-cases (not r.deletes)) [
          | inl fails ↦ rw (tombstone_case, gone, fails) (lead done)
          | inr works ↦ rw (tombstone_case, gone, works) (lead (as_path (ground arith) path))
        ]
      ]

  handle-Leads : Leads db.cases (handle_case lib r event db)
  unfolding handle_case
  handle-Leads = elim (Option-cases (Table.get event.entity_id db.cases)) [
    | inl gone ↦ rw (handle_case, gone) (lead done)
    | inr (c, row) ↦
        rw (handle_case, row)
          (Leads-if db.cases (not (lib.str c.case_version == event.entity_version)) _ _
            (λ _. lead done)
            (λ _.
              Leads-if db.cases (is_tombstone event.operation) _ _ (λ _. tombstone-Leads c row)
                (λ _. upsert-Leads c row)))
  ]

  pub handle_case-CasesPath : CasesPath db.cases (handle_case lib r event db).1.cases
  handle_case-CasesPath = elim handle-Leads [ lead p ↦ p ]
