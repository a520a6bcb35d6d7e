-- ===== src/Cases/Service/Timeline.antt =====
-- `append` of src/energy_agent/timeline: the events of a session, each once and numbered in their order.
use Prim.Native.String.{◌++◌ as append_text}
use energy_agent_diagnosis.Common.{
  ℕ, ◌+◌, String, Option, none, some, List, [], ◌∷◌, ◌++◌, ◌==◌, string_eq, ltb, if◌then◌else◌,
}
use energy_agent_diagnosis.Persistence.Cases.{TimelineEventType, TimelineEvent}

abbrev pub type_name : TimelineEventType → String
type_name TimelineEventType.user_message = "user_message"
type_name TimelineEventType.clarification_question = "clarification_question"
type_name TimelineEventType.clarification_answer = "clarification_answer"
type_name TimelineEventType.diagnosis_result = "diagnosis_result"
type_name TimelineEventType.review_submitted = "review_submitted"
type_name TimelineEventType.case_created = "case_created"

-- `timeline_event_id`, under a hash.
abbrev pub timeline_event_id : (String → String) → String → TimelineEventType → String → String
timeline_event_id sha256 session_id event_type key = sha256 (
    append_text session_id
      (append_text ":" (append_text (type_name event_type) (append_text ":" key))))

unfoldable pub find_event : String → List TimelineEvent → Option TimelineEvent
find_event event_id [] = none
find_event event_id (e ∷ es) =
    let rest = find_event event_id es in if e.event_id == event_id then some e else rest

-- `coalesce(max(sequence), 0)` of a session.
unfoldable pub max_sequence : String → List TimelineEvent → ℕ
max_sequence session_id [] = 0
max_sequence session_id (e ∷ es) =
    let rest = max_sequence session_id es in
    if e.session_id == session_id then (if ltb rest e.sequence then e.sequence else rest) else rest

abbrev pub event_of :
    (String → String)
    → String
    → TimelineEventType
    → String
    → Option String
    → Option String
    → ℕ
    → TimelineEvent
event_of sha256 session_id event_type key run_id actor_id sequence = record {
  event_id = timeline_event_id sha256 session_id event_type key;
  session_id = session_id;
  run_id = run_id;
  sequence = sequence;
  event_type = event_type;
  actor_id = actor_id;
}

-- `append`: an event that is there is not added again.
unfoldable pub append : (ℕ → TimelineEvent) → List TimelineEvent → List TimelineEvent
unfolding max_sequence
append event es =
    let new = event (max_sequence (event 0).session_id es + 1) in
    elim (find_event (event 0).event_id es) [ some e ↦ es | none ↦ es ++ new ∷ [] ]
