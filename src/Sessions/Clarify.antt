-- ===== src/Sessions/Clarify.antt =====
-- The answers to clarification questions that `diagnose` of src/energy_agent/agent/execution_service.py
-- accepts.
use energy_agent_diagnosis.Common.{
  ℕ, String, Option, none, some, Bool, false, not, ◌||◌, List, [], ◌∷◌, ◌==◌, string_eq, nat_eq,
  contains, truthy, if◌then◌else◌,
}
use energy_agent_diagnosis.Common.Errors.{Outcome, ok, err, Error}
use energy_agent_diagnosis.Sessions.State.{UserFeedback, SessionMemory}
use energy_agent_diagnosis.Sessions.Memory.{question_ids}
use energy_agent_diagnosis.Sessions.Requests.{DiagnosisChatRequest}

-- The loop over the answers; `seen` has the ids of those before.
unfoldable pub check_each :
    (String → String)
    → List String
    → List String
    → List String
    → List UserFeedback
    → Outcome (Unit {0})
check_each strip pending resolved seen [] = ok tt
check_each strip pending resolved seen (a ∷ answers) =
    let rest = check_each strip pending resolved (a.question_id ∷ seen) answers in
    if not (truthy (strip a.answer))
    then err Error.unknown_clarification_question
    else if contains resolved a.question_id || contains seen a.question_id
    then err Error.clarification_already_answered
    else if not (contains pending a.question_id)
    then err Error.unknown_clarification_question
    else rest

-- `set(memory.pending_question_ids)`, or the ids of all questions if it is empty.
abbrev pub or_questions : List String → List String → List String
or_questions [] ids = ids
or_questions (id ∷ ids) all_ids = id ∷ ids

abbrev pub pending_of : SessionMemory → List String
pending_of m = or_questions m.pending_question_ids (question_ids m.clarification_questions)

abbrev pub is_stale : Option ℕ → ℕ → Bool
is_stale none revision = false
is_stale (some expected) revision = not (expected == revision)

abbrev pub check_memory :
    (String → String) → DiagnosisChatRequest → Option SessionMemory → Outcome (Unit {0})
check_memory strip p none = err Error.conflict
check_memory strip p (some m) =
    if is_stale p.expected_memory_revision m.memory_revision
    then err Error.clarification_stale
    else check_each strip (pending_of m) m.resolved_question_ids [] p.clarification_answers

abbrev pub when_answered : List UserFeedback → Outcome (Unit {0}) → Outcome (Unit {0})
when_answered [] checked = ok tt
when_answered (a ∷ as') checked = checked

unfoldable pub check_answers :
    (String → String) → DiagnosisChatRequest → Option SessionMemory → Outcome (Unit {0})
unfolding check_each
check_answers strip p memory = when_answered p.clarification_answers (check_memory strip p memory)
