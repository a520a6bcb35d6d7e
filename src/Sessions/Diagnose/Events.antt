-- ===== src/Sessions/Diagnose/Events.antt =====
-- What a call of `diagnose` of src/energy_agent/agent/execution_service.py meets, and the events that it
-- appends to the timeline.
use Prim.Native.String.{◌++◌ as append}
use energy_agent_diagnosis.Common.{
  ℕ, String, Option, none, some, List, [], ◌∷◌, string_eq, if◌then◌else◌,
}
use mathlib.Core.Option
use energy_agent_diagnosis.Persistence.Cases.{TimelineEvent, TimelineEventType}
use energy_agent_diagnosis.Cases.Service.Timeline.{event_of}
use energy_agent_diagnosis.Cases.Service.Requests.{Actor}
use energy_agent_diagnosis.Sessions.State.{
  DiagnosisState, ClarificationQuestion, UserFeedback, StructuredDiagnosisResult,
}
use energy_agent_diagnosis.Sessions.Store.{Store, append_event}
use energy_agent_diagnosis.Sessions.Requests.{Library, Settings, DiagnosisChatRequest}
use energy_agent_diagnosis.Sessions.Run.{Callback, Ending, RunIds}

-- What a call meets: its trace, the id that it draws, who calls, and what the graph does with a state.
pub record Environment : Type 0 where
  pub trace_id : String
  pub new_run : String
  pub actor : Option Actor
  pub graph : DiagnosisState → List Callback × Ending

abbrev pub actor_id : Option Actor → Option String
actor_id actor = Option.map (λ (a : Actor). a.actor_id) actor

module _ (lib : Library) (settings : Settings) (env : Environment) (p : DiagnosisChatRequest) where
  abbrev pub ids : RunIds
  ids = record { session_id = p.session_id; run_id = env.new_run; trace_id = env.trace_id }

  abbrev pub fingerprint : String
  fingerprint = lib.sha256 (lib.dumps_chat (append "chat:" p.session_id) p)

  abbrev pub event : String → TimelineEventType → String → Option String → ℕ → TimelineEvent
  event session_id type key actor = event_of lib.sha256 session_id type key (some env.new_run) actor

  abbrev pub message_event : Option (ℕ → TimelineEvent)
  message_event =
      if settings.has_timeline
      then some (event p.session_id TimelineEventType.user_message env.new_run (actor_id env.actor))
      else none

  -- The keys of the events of questions and answers.
  abbrev pub under_run : String → String
  under_run question_id = append env.new_run (append ":" question_id)

  unfoldable pub append_answers : List UserFeedback → Store → Store
  append_answers [] s = s
  append_answers (a ∷ answers) s = append_answers answers (
      append_event
        (event p.session_id TimelineEventType.clarification_answer (under_run a.question_id)
          (actor_id env.actor))
        s)

  unfoldable pub append_questions : String → List ClarificationQuestion → Store → Store
  append_questions session_id [] s = s
  append_questions session_id (q ∷ questions) s = append_questions session_id questions (
      append_event
        (event session_id TimelineEventType.clarification_question (under_run q.question_id) none)
        s)

  abbrev pub append_result : String → Option StructuredDiagnosisResult → Store → Store
  append_result session_id none s = s
  append_result session_id (some r) s =
      append_event (event session_id TimelineEventType.diagnosis_result env.new_run none) s
