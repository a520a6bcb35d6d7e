-- ===== src/Sessions/Incomplete.antt =====
-- Sessions that src/energy_agent/agent/execution_service.py creates and cannot diagnose.
use energy_agent_diagnosis.Common.{
  String, Option, none, some, [], ◌≡◌, ◌≢◌, refl, ap, ◌∙◌, arith, eq_iff, eq_refl, string_eq,
}
use energy_agent_diagnosis.Common.Errors.{ok, err, Error}
use energy_agent_diagnosis.Common.Table
use energy_agent_diagnosis.Common.Table.{Table, get-add}
use energy_agent_diagnosis.Sessions.State.{SessionMemory}
use energy_agent_diagnosis.Sessions.Store.{DiagnosisSession, DiagnosisRun, Store}
use energy_agent_diagnosis.Sessions.Requests.{
  Library, Settings, CreateSessionRequest, DiagnosisChatRequest,
}
use energy_agent_diagnosis.Sessions.Memory.{initial_state}
use energy_agent_diagnosis.Sessions.Clarify.{check_answers}
use energy_agent_diagnosis.Sessions.Create
use energy_agent_diagnosis.Sessions.Create.{
  AlarmKey, alarm_of, alarm_key_of, audit_of, session_of, first_run, first_memory, existing_run,
  create_new, create_session, create_fingerprint, device_dict, alarm_dict, register,
}
use energy_agent_diagnosis.Sessions.Created.{create_new-IsCreated, create_session-no_alarm}
use energy_agent_diagnosis.Sessions.Diagnose
use energy_agent_diagnosis.Sessions.Diagnose.{diagnose, mode_of, new_run_of, start_graph}
use energy_agent_diagnosis.Sessions.Prepare.{at_init, prepared, diagnose-start_graph, prepared_runs}

-- A site without a device, or an alarm without a name.
pub data Incomplete (p : CreateSessionRequest) : Type 0 where
  no_device : (site : String) → p.site_id ≡ some site → p.device_id ≡ none → Incomplete p
  no_name : (alarm : String) → p.alarm_id ≡ some alarm → p.alarm_name ≡ none → Incomplete p

alarm_key_of-no_name : (d a : Option String) → alarm_key_of d none a ≡ none
alarm_key_of-no_name none a = refl
alarm_key_of-no_name (some d) a = refl

Incomplete-alarm_of :
    (settings : Settings) (p : CreateSessionRequest) → Incomplete p → alarm_of settings p ≡ none
Incomplete-alarm_of settings p (no_device site e h) = ground (arith, h)
Incomplete-alarm_of settings p (no_name alarm e h) =
    ground (arith, h, alarm_key_of-no_name p.device_id p.alarm_id)

first_memory-fails :
    (env : Create.Environment) (p : CreateSessionRequest) (row : DiagnosisSession)
    (q : DiagnosisChatRequest) (mode run_id trace_id : String)
    → Incomplete p
    → initial_state row (some (first_memory p env)) q mode run_id trace_id
      ≡ err Error.validation_error
unfolding initial_state
first_memory-fails env p row q mode run_id trace_id (no_device site e h) =
    rw (initial_state, e, h) refl
first_memory-fails env p row q mode run_id trace_id (no_name alarm e h) = ground (arith, e, h)

get-add_after :
    {A : Type 0} (k j : String) (a b : A) (t : Table A)
    → Table.get k t ≡ none
    → j ≢ k
    → Table.get k (Table.add k b (Table.add j a t)) ≡ some b
get-add_after k j a b t gone other =
    ground
      (arith, gone, other, eq_refl k, eq_iff j k, get-add j k a t, get-add k k b (Table.add j a t))

no_answers :
    (strip : String → String) (q : DiagnosisChatRequest) (memory : Option SessionMemory)
    → q.clarification_answers ≡ []
    → check_answers strip q memory ≡ ok tt
unfolding check_answers
no_answers strip q memory h = rw (check_answers, h) refl

-- A session that is created for a site without a device, or for an alarm without a name, cannot be diagnosed:
-- any message without answers raises a validation error, and leaves a new run that stays in status
-- "running". The session and the run have new ids, the creation is no repeat, and the message has no key.
pub create_session-Incomplete :
    (lib : Library) (settings : Settings) (env : Create.Environment) (p : CreateSessionRequest)
    (key : Option String) (s : Store) (env' : Diagnose.Environment) (q : DiagnosisChatRequest)
    → Incomplete p
    → existing_run key s ≡ none
    → Table.get env.new_session s.sessions ≡ none
    → Table.get env'.new_run s.runs ≡ none
    → env.new_run ≢ env'.new_run
    → q.session_id ≡ env.new_session
    → q.clarification_answers ≡ []
    → let s' = (create_session lib settings env p key s).1 in
      let r = diagnose lib settings env' q none s' in
      (r.0 ≡ err Error.validation_error)
      × (run : DiagnosisRun) × (Table.get env'.new_run r.1.runs ≡ some run)
      × (run.status ≡ "running")
unfolding create_session
create_session-Incomplete lib settings env p key s env' q bad new fresh fresh' other at none_given =
    let first = create_new lib settings env p key s in
    let s' = first.1 in
    let created = create_new-IsCreated lib settings env p key s fresh in
    let row = session_of p env in
    let found = ap (λ i. Table.get i s'.sessions) at ∙ created.session in
    let kept = ap (λ i. Table.get i s'.memory) at ∙ created.memory in
    let memory = Table.get q.session_id s'.memory in
    let fails =
      ap (λ m. initial_state row m q (mode_of q) env'.new_run env'.trace_id) kept
      ∙ first_memory-fails env p row q (mode_of q) env'.new_run env'.trace_id bad in
    let accepted = no_answers lib.texts.strip q memory none_given in
    let ended : diagnose lib settings env' q none s'
        ≡ (err Error.validation_error, prepared lib settings env' q row memory none s') =
      diagnose-start_graph lib settings env' q row none s' found refl at_init accepted
      ∙ ap
          (λ i.
            start_graph lib settings env' q row i
              (ok tt, prepared lib settings env' q row memory none s'))
          fails in
    let run = new_run_of lib settings env' q row memory none in
    let runs =
      prepared_runs lib settings env' q row memory none s'
      ∙ ap (Table.add env'.new_run run) created.runs in
    rw
      (
        create_session-no_alarm lib settings env p key s new (Incomplete-alarm_of settings p bad),
        ended,
      )
      (
        refl,
        run,
        ap (Table.get env'.new_run) runs
            ∙ get-add_after env'.new_run env.new_run _ run s.runs fresh' other,
        refl,
      )
