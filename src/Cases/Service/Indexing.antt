-- ===== src/Cases/Service/Indexing.antt =====
-- src/energy_agent/cases/application.py: `_index`, `_tombstone` and `_supersede`. A failure of the
-- embedding or of the vector store is caught and recorded on the case.
use Prim.Native.String.{◌++◌ as append}
use energy_agent_diagnosis.Common.{String, none, some, Bool, true, false, [], ◌∷◌, if◌then◌else◌}
use energy_agent_diagnosis.Common.Errors.{Outcome, ok, err, Action}
use energy_agent_diagnosis.Persistence.Index.{IndexOperation}
use energy_agent_diagnosis.Persistence.Cases.{CaseStatus, CaseIndexStatus, DiagnosisCase}
use energy_agent_diagnosis.Persistence.Database.{Database}
use energy_agent_diagnosis.Cases.Transition.{Transition, transition, set_index}
use energy_agent_diagnosis.Cases.Service.Requests.{
  Library, Settings, Actor, Environment, role_name, is_sync, build_embedding_text, get,
  queued_request, audited,
}

module _ (lib : Library) (settings : Settings) (env : Environment) (actor : Actor) where
  -- `_index`
  unfoldable pub index_case : String → DiagnosisCase → Action Database DiagnosisCase
  index_case prefix c db =
      let text = some (build_embedding_text lib c) in
      if env.indexes
      then audited env actor (append prefix "_succeeded")
          (set_index c.case_id CaseIndexStatus.indexed none text (some true) db)
      else audited env actor (append prefix "_failed") (
          set_index c.case_id CaseIndexStatus.failed (some "CASE_INDEX_PROVIDER_FAILED") text
            (some false) db)

  -- `_tombstone`
  unfoldable pub tombstone : String → DiagnosisCase → Action Database DiagnosisCase
  tombstone prefix c db =
      if env.deletes
      then audited env actor (append prefix "_succeeded")
          (set_index c.case_id CaseIndexStatus.tombstoned none none (some false) db)
      else audited env actor (append prefix "_failed") (
          set_index c.case_id CaseIndexStatus.failed (some "CASE_TOMBSTONE_PROVIDER_FAILED") none
            (some false) db)

  -- The assignments of a transition that takes a case out of use.
  abbrev pub retire : DiagnosisCase → DiagnosisCase
  retire c = record c {
    is_active = false;
    index_status =
        if is_sync settings.index_execution_mode
        then CaseIndexStatus.pending
        else CaseIndexStatus.queued;
  }

  abbrev pub superseding : String → DiagnosisCase → Transition
  superseding case_id current = record {
    expected = CaseStatus.approved;
    target = CaseStatus.superseded;
    actor_id = actor.actor_id;
    actor_role = role_name actor.actor_role;
    action = "case.superseded";
    trace_id = env.trace_id;
    request_hash = lib.fingerprint "case.supersede" (("case_id", some case_id) ∷ []);
    idempotency_key = some (append "supersede:" case_id);
    comment = none;
    updates = retire;
    index_request = queued_request lib settings env current IndexOperation.tombstone;
  }

  -- After the transition: the case leaves the index, and the change is audited once.
  unfoldable pub retired :
      String → String → Outcome (DiagnosisCase × Bool) × Database → Outcome DiagnosisCase × Database
  retired prefix action (err e, db) = (err e, db)
  retired prefix action (ok (c, replayed), db) =
      let (old, db') = tombstone prefix c db in
      let removed = if is_sync settings.index_execution_mode then (old, db') else (ok c, db) in
      if replayed then removed else audited env actor action removed

  -- `_supersede` after the case is found.
  unfoldable pub supersede_found : String → DiagnosisCase → Action Database DiagnosisCase
  supersede_found case_id current db =
      retired "case.supersede" "case.superseded"
        (transition settings.has_index env.new_job case_id (superseding case_id current) db)

  unfoldable pub supersede : String → Action Database DiagnosisCase
  supersede case_id db = elim (get case_id db) as (λ _. Outcome DiagnosisCase × Database) [
    | err e ↦ (err e, db)
    | ok current ↦ supersede_found case_id current db
  ]
