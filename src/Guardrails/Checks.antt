-- ===== src/Guardrails/Checks.antt =====
-- src/energy_agent/guardrails/planning.py, generation.py, output.py and input.py. The regular
-- expressions of input.py are the fields of `Patterns`.
use energy_agent_diagnosis.Common.{
  ℕ, String, Option, none, some, Bool, true, false, not, ◌&&◌, ◌||◌, List, [], ◌∷◌, ◌++◌, ◌==◌,
  string_eq, ltb, length, any, all, keep, contains, map, truthy, if◌then◌else◌,
}
use energy_agent_diagnosis.Guardrails.Decisions.{
  Library, GuardrailStatus, GuardrailDecision, RecommendedAction, Evidence, CandidateCause,
  PlanStep, is_high, sorted_set, is_empty, status_of,
}

abbrev pub write_tools : List String
write_tools = "create_or_update_ticket" ∷ "write_review_result" ∷ []

-- `[step.tool for step in plan if step.tool]`
unfoldable pub tools_of : List PlanStep → List String
tools_of [] = []
tools_of (s ∷ ss) =
    let rest = tools_of ss in
    elim s.tool [ none ↦ rest | some t ↦ if truthy t then t ∷ rest else rest ]

-- `[name] if condition else []`
abbrev pub when : Bool → String → List String
when true name = name ∷ []
when false name = []

abbrev pub decide : List String → GuardrailDecision
decide violations = record {
  status = status_of violations;
  violations = violations;
  warnings = [];
  requires_human_confirmation = false;
  blocked_actions = [];
  checked_evidence_refs = [];
}

-- `check_plan`
unfoldable pub check_plan : List PlanStep → List String → Bool → ℕ → ℕ → GuardrailDecision
unfolding tools_of
check_plan plan allowed_tools valid_template max_steps max_tool_calls =
    let tools = tools_of plan in
    decide (
      when (not valid_template) "UNREGISTERED_TEMPLATE"
      ++ when (ltb max_steps (length plan)) "PLAN_STEP_LIMIT_EXCEEDED"
      ++ when (ltb max_tool_calls (length tools)) "TOOL_CALL_LIMIT_EXCEEDED"
      ++ when (any (λ t. not (contains allowed_tools t)) tools) "TOOL_NOT_ALLOWLISTED"
      ++ when (any (λ t. contains write_tools t) tools) "WRITE_TOOL_AUTOMATION_BLOCKED")

abbrev pub known_refs : List Evidence → List String
known_refs evidence = map (λ e. e.evidence_id) evidence

-- What the loop of `check_generation` finds against a cause.
unfoldable pub violation_of : Library → List String → CandidateCause → List String
violation_of lib known c =
    if is_empty c.supporting_evidence
    then "UNSUPPORTED_STRONG_CLAIM" ∷ []
    else if any (λ ref. not (contains known ref)) c.supporting_evidence
    then "UNKNOWN_EVIDENCE_REFERENCE" ∷ []
    else if all (λ ref. lib.startswith ref "graph:") c.supporting_evidence
    then "GRAPH_ONLY_STRONG_CLAIM" ∷ []
    else []

unfoldable pub violations_of : Library → List String → List CandidateCause → List String
violations_of lib known [] = []
violations_of lib known (c ∷ cs) = violation_of lib known c ++ violations_of lib known cs

-- `check_generation`
unfoldable pub check_generation : Library → List CandidateCause → List Evidence → GuardrailDecision
check_generation lib candidates evidence =
    let violations = violations_of lib (known_refs evidence) candidates in
    record {
      status = status_of violations;
      violations = sorted_set lib violations;
      warnings = [];
      requires_human_confirmation = false;
      blocked_actions = [];
      checked_evidence_refs = sorted_set lib (known_refs evidence);
    }

-- `evidence_source_by_ref`: the last evidence with an id is the one in the dictionary.
unfoldable pub source_of : List Evidence → String → Option String
source_of [] ref = none
source_of (e ∷ es) ref =
    let rest = source_of es ref in
    elim rest [ some s ↦ some s | none ↦ if e.evidence_id == ref then some e.source_type else none ]

-- The sources that do not count as evidence of their own.
abbrev pub is_context : String → Bool
is_context s = contains ("graph" ∷ "device" ∷ "alarm" ∷ []) s

-- The set of the independent sources that an action's references name.
unfoldable pub source_types : List Evidence → List String → List String
source_types evidence [] = []
source_types evidence (ref ∷ refs) =
    let rest = source_types evidence refs in
    elim (source_of evidence ref) [
      | none ↦ rest
      | some s ↦ if is_context s || contains rest s then rest else s ∷ rest
    ]

abbrev pub is_unsafe : List Evidence → List String → RecommendedAction → Bool
is_unsafe evidence safety_notes a =
    is_high a.risk_level
    && (not a.requires_human_confirmation
        || ltb (length (source_types evidence a.evidence_refs)) 2
        || is_empty safety_notes)

-- `check_output`
unfoldable pub check_output :
    Library → String → List RecommendedAction → List Evidence → List String → GuardrailDecision
check_output lib summary actions evidence safety_notes =
    let unsafe = keep (is_unsafe evidence safety_notes) actions in
    let violations =
      map (λ a. "HIGH_RISK_ACTION_UNSAFE") unsafe
      ++ when (not (truthy (lib.strip summary))) "EMPTY_SUMMARY" in
    record {
      status = status_of violations;
      violations = sorted_set lib violations;
      warnings = [];
      requires_human_confirmation = any (λ a. a.requires_human_confirmation) actions;
      blocked_actions = map (λ a. a.action_id) unsafe;
      checked_evidence_refs = [];
    }

-- The patterns of input.py, each as a test of a text, and the length of a text.
pub record Patterns : Type 0 where
  pub len : String → ℕ
  pub control : String → Bool
  pub identifier : String → Bool
  pub query : String → Bool
  pub high_risk_command : String → Bool
  pub injection : String → Bool

-- `identifier and not re.fullmatch(...)`
abbrev pub invalid : Patterns → Option String → Bool
invalid p none = false
invalid p (some id) = truthy id && not (p.identifier id)

-- `check_input`
unfoldable pub check_input :
    Library → Patterns → String → Option String → Option String → ℕ → ℕ → GuardrailDecision
check_input lib p message device_id alarm_id clarification_count max_length =
    let violations =
      when (not (truthy (lib.strip message))) "EMPTY_MESSAGE"
      ++ when (ltb max_length (p.len message)) "MESSAGE_TOO_LONG"
      ++ when (p.control message) "ILLEGAL_CONTROL_CHARACTER"
      ++ when (ltb 3 clarification_count) "TOO_MANY_CLARIFICATIONS"
      ++ when (invalid p device_id) "INVALID_DEVICE_ID"
      ++ when (invalid p alarm_id) "INVALID_ALARM_ID"
      ++ when (p.query message) "CLIENT_QUERY_LANGUAGE_BLOCKED"
      ++ when (p.high_risk_command message) "HIGH_RISK_DEVICE_COMMAND_BLOCKED" in
    let warnings = when (p.injection message) "PROMPT_INJECTION_DETECTED" in
    record {
      status =
          if not (is_empty violations)
          then GuardrailStatus.blocked
          else if not (is_empty warnings)
          then GuardrailStatus.passed_with_warnings
          else GuardrailStatus.passed;
      violations = violations;
      warnings = warnings;
      requires_human_confirmation = false;
      blocked_actions = [];
      checked_evidence_refs = [];
    }
