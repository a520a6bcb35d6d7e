-- ===== src/Tests/Sessions.antt =====
-- The theorems on the diagnosis execution service, at concrete inputs.
mod Data
mod Storms
use energy_agent_diagnosis.Common.{
  ℕ, Distinct, map, String, none, some, true, false, List, [], ◌∷◌, ◌≡◌, sym, ap, Bool, ◌≢◌, ◌↔◌,
  ◌++◌, ◌+◌, refl, arith, Every, nil, cons, eq_iff, string_eq, contains, truthy,
}
use energy_agent_diagnosis.Common.Errors.{ok, err, Error}
use energy_agent_diagnosis.Common.Table
use energy_agent_diagnosis.Agent.Workflow.{DiagnosisPhase}
use energy_agent_diagnosis.Guardrails.Decisions.{RiskLevel}
use energy_agent_diagnosis.Sessions.State.{SessionSource, DiagnosisState, SessionMemory, is_valid}
use energy_agent_diagnosis.Sessions.Store.{
  DiagnosisSession, DiagnosisRun, Store, find_idempotent_global, latest,
}
use energy_agent_diagnosis.Sessions.Requests.{CreateSessionRequest}
use energy_agent_diagnosis.Sessions.Memory.{
  memory_payload, initial_state, start_state, get_session, remembered,
}
use energy_agent_diagnosis.Sessions.Clarify.{check_answers, check_each}
use energy_agent_diagnosis.Sessions.Create
use energy_agent_diagnosis.Sessions.Create.{create_session, hit}
use energy_agent_diagnosis.Sessions.Run.{Callback, Ending, invoke, call_all}
use energy_agent_diagnosis.Sessions.Diagnose
use energy_agent_diagnosis.Sessions.Diagnose.{diagnose, ids, mode_of}
use energy_agent_diagnosis.Sessions.Calls.{Call, apply_all}
use energy_agent_diagnosis.Sessions.Prepare.{waiting, prepared}
use energy_agent_diagnosis.Sessions.Touches.{OfSession, of_step}
use energy_agent_diagnosis.Sessions.RoundTrip.{initial_state-memory_payload}
use energy_agent_diagnosis.Sessions.Answers.{IsAnswer, check_answers_iff}
use energy_agent_diagnosis.Sessions.Endings.{SessionAfter, diagnose-SessionAfter}
use energy_agent_diagnosis.Sessions.Terminal.{
  IsClosed, is_complete, Reports, creates, reports, expires, apply_all-IsClosed,
}
use energy_agent_diagnosis.Sessions.Steps.{memory_of_step}
use energy_agent_diagnosis.Sessions.Interrupted.{cancelled_answers, failed_shown}
use energy_agent_diagnosis.Sessions.Incomplete.{Incomplete, no_device, create_session-Incomplete}
use energy_agent_diagnosis.Sessions.Once.{create_session-once}
use energy_agent_diagnosis.Tests.Sessions.Data.{
  library, settings, empty, inverter, asking, asked, answer, planned, result, completed, session,
  reply, with_ending, request, creation,
}
use energy_agent_diagnosis.Tests.Sessions.Data

initial_state-memory_payload_example :
    initial_state session (some asked) reply "answer_clarification" "r2" "t2"
    ≡ ok (record asking {
      run_id = "r2";
      trace_id = "t2";
      phase = DiagnosisPhase.init;
      user_message = some "again";
      followup_mode = some "answer_clarification";
      memory_revision = 3;
      parent_run_id = some "r1";
      clarification_questions = [];
      user_feedback = answer ∷ [];
    })
initial_state-memory_payload_example =
    initial_state-memory_payload library session asking none reply "answer_clarification" "r2" "t2"

check_answers_iff_example : (check_answers (λ s. s) reply (some asked) ≡ ok tt) ↔ (
    ((r : ℕ) → reply.expected_memory_revision ≡ some r → r ≡ asked.memory_revision)
    × Every (IsAnswer (λ s. s) asked) (answer ∷ [])
    × Distinct (map (λ x. x.question_id) (answer ∷ [])))
check_answers_iff_example = check_answers_iff (λ s. s) reply asked answer [] refl

-- The answer is accepted.
answered : check_answers (λ s. s) reply (some asked) ≡ ok tt
unfolding check_answers check_each memory_payload
answered = refl

abbrev started : DiagnosisState
started =
    start_state session (some asked) reply "answer_clarification" "r2" "t2" (some inverter) none

starts : initial_state session (some asked) reply "answer_clarification" "r2" "t2" ≡ ok started
unfolding initial_state memory_payload
starts = refl

found : Table.get "s1" Data.waiting.sessions ≡ some session
unfolding Table.get
found = refl

kept : Table.get "s1" Data.waiting.memory ≡ some asked
unfolding Table.get
kept = refl

accepted : check_answers (λ s. s) reply (Table.get "s1" Data.waiting.memory) ≡ ok tt
accepted = rw (kept) answered

initial :
    initial_state session
      (Table.get "s1" Data.waiting.memory)
      reply
      "answer_clarification"
      "r2"
      "t2"
    ≡ ok started
initial = rw (kept) starts

own : Every (OfSession "s1") (Callback.step started "planner" planned ∷ [])
own = cons (of_step started "planner" planned refl) nil

-- The graph ends with a result.
abbrev finishing : Diagnose.Environment
finishing = with_ending (Ending.finished_with completed)

abbrev valid_ending : Ending → Bool
valid_ending (Ending.finished_with st) = is_valid st
valid_ending _ = true

diagnose-SessionAfter_example :
    (row' : DiagnosisSession) × (Table.get "s1"
        (diagnose library settings finishing reply none Data.waiting).1.sessions
      ≡ some row')
    × SessionAfter session "r2"
        (invoke library
          (ids library settings finishing reply)
          (Callback.step started "planner" planned ∷ [])
          (Ending.finished_with completed)
          (prepared library settings finishing reply session
            (Table.get "s1" Data.waiting.memory)
            none
            Data.waiting)).0
        row'
diagnose-SessionAfter_example =
    diagnose-SessionAfter library settings finishing reply session none Data.waiting started found
      refl waiting accepted initial own (λ o e. ap valid_ending (sym e))

abbrev closed_session : DiagnosisSession
closed_session = record session { phase = DiagnosisPhase.completed; final_summary = some "fan" }

abbrev calls : List Call
calls =
    Call.create creation request (some "key")
    ∷ Call.chat finishing reply none
    ∷ Call.expire "s1"
    ∷ []

closed_found :
    Table.get "s1" (record Data.waiting { sessions = ("s1", closed_session) ∷ [] }).sessions
    ≡ some closed_session
unfolding Table.get
closed_found = refl

apply_all-IsClosed_example :
    Table.get "s1"
      (apply_all library settings calls
        (record Data.waiting { sessions = ("s1", closed_session) ∷ [] })).sessions
    ≡ some closed_session
apply_all-IsClosed_example =
    apply_all-IsClosed library settings is_complete "s1" calls
      (record Data.waiting { sessions = ("s1", closed_session) ∷ [] })
      (cons (creates creation request (some "key")) (
        cons (reports finishing reply none (λ st. cons (of_step st "planner" planned refl) nil))
          (cons (expires "s1") nil)))
      closed_found

-- The client leaves the stream.
abbrev leaving : Diagnose.Environment
leaving = with_ending Ending.cancelled

no_calls :
    (env : Diagnose.Environment)
    → (call_all library (ids library settings env reply) [] (
        prepared library settings env reply session
          (Table.get "s1" Data.waiting.memory)
          none
          Data.waiting)).0
      ≡ ok tt
unfolding call_all
no_calls env = refl

cancelled_answers_example :
    diagnose library settings finishing reply none
      (diagnose library settings leaving reply none Data.waiting).1
    ≡ (
      err Error.clarification_already_answered,
      (diagnose library settings leaving reply none Data.waiting).1,
    )
cancelled_answers_example =
    cancelled_answers library settings leaving reply session none Data.waiting started found refl
      waiting accepted initial [] started "planner" planned nil refl refl (no_calls leaving) answer
      [] finishing refl refl refl refl refl

abbrev failing : Diagnose.Environment
failing = with_ending (Ending.raised Error.dependency_unavailable)

failed_shown_example :
    let s' = (diagnose library settings failing reply none Data.waiting).1 in
    (row' : DiagnosisSession) × (Table.get "s1" s'.sessions ≡ some row')
    × (row'.phase ≡ DiagnosisPhase.failed)
    × (get_session "s1" s' ≡ ok (remembered "s1" (memory_of_step library "planner" planned)))
    × ((remembered "s1" (memory_of_step library "planner" planned)).phase ≡ planned.phase)
failed_shown_example =
    failed_shown library settings failing reply session none Data.waiting started found refl waiting
      accepted initial [] started "planner" planned nil refl refl (no_calls failing)
      Error.dependency_unavailable refl

-- A site without a device.
abbrev site_only : CreateSessionRequest
site_only = record request { source = SessionSource.chat; device_id = none }

missing : {A : Type 0} (k : String) → Table.get {A = A} k [] ≡ none
unfolding Table.get
missing k = refl

create_session-Incomplete_example :
    let s' = (create_session library settings creation site_only none empty).1 in
    let r =
      diagnose library settings leaving
        (record reply { session_id = "s2"; clarification_answers = [] })
        none
        s' in
    (r.0 ≡ err Error.validation_error)
    × (run : DiagnosisRun) × (Table.get "r2" r.1.runs ≡ some run)
    × (run.status ≡ "running")
create_session-Incomplete_example =
    create_session-Incomplete library settings creation site_only none empty leaving
      (record reply { session_id = "s2"; clarification_answers = [] })
      (no_device "site-1" refl refl) refl (missing "s2") (missing "r2")
      (λ e. ground (arith, e, eq_iff "r3" "r2")) refl refl

no_alarm :
    (Create.hit_of library settings creation (Create.alarm_of settings request) empty).0 ≡ none
unfolding hit Table.get
no_alarm = refl

no_run : Create.existing_run (some "key") empty ≡ none
unfolding find_idempotent_global latest
no_run = refl

abbrev other_request : CreateSessionRequest
other_request = record request { device_id = some "device-2" }

create_session-once_example :
    let r = create_session library settings creation request (some "key") empty in
    (create_session library settings (record creation { now = 5 }) request (some "key") r.1 ≡ r)
    × (create_session library settings (record creation { now = 5 }) other_request (some "key") r.1
        ≡ (err Error.idempotency_conflict, r.1))
create_session-once_example =
    create_session-once library settings creation request "key" empty (record creation { now = 5 })
      other_request refl no_run no_alarm (missing "s2")
      (λ e. ground (arith, e, eq_iff "device-2" "device-1"))
