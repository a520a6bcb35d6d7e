-- ===== src/Guardrails/Service.antt =====
-- src/energy_agent/guardrails/service.py, and `rule_checker` of agent/nodes/diagnosis.py. A response is
-- what it reads of the dictionary of a final response, where a missing key has its default.
use energy_agent_diagnosis.Common.{
  String, Option, none, some, Bool, true, false, not, List, [], ◌∷◌, ◌++◌, ◌==◌, string_eq, nat_eq,
  any, keep, length, contains, if◌then◌else◌,
}
use energy_agent_diagnosis.Agent.Workflow.{DiagnosisPhase}
use energy_agent_diagnosis.Guardrails.Decisions.{
  Library, GuardrailStatus, need_user_input, blocked, GuardrailDecision, RecommendedAction,
  Evidence, CandidateCause, sorted_set, is_empty,
}
use energy_agent_diagnosis.Guardrails.Checks.{check_generation, check_output}

pub record Response : Type 0 where
  pub summary : String
  pub candidate_causes : List CandidateCause
  pub recommended_actions : List String
  pub recommend_ticket : Bool
  pub safety_notes : List String
  pub warnings : List String
  pub guardrail_decision : Option GuardrailDecision

abbrev pub empty_response : Response
empty_response = record {
  summary = "";
  candidate_causes = [];
  recommended_actions = [];
  recommend_ticket = false;
  safety_notes = [];
  warnings = [];
  guardrail_decision = none;
}

-- `GuardrailStatePort`, with the errors that the state gathers.
pub record GuardrailState : Type 0 where
  pub candidate_causes : List CandidateCause
  pub evidence : List Evidence
  pub final_response : Option Response
  pub recommended_actions : List RecommendedAction
  pub errors : List String

abbrev pub or_empty : Option Response → Response
or_empty none = empty_response
or_empty (some r) = r

abbrev pub is_blocked : GuardrailStatus → Bool
is_blocked blocked = true
is_blocked _ = false

-- `status in {BLOCKED, NEED_USER_INPUT}`
abbrev pub stops : GuardrailStatus → Bool
stops blocked = true
stops need_user_input = true
stops _ = false

abbrev pub unsafe_generation_violations : List String
unsafe_generation_violations =
    "UNSUPPORTED_STRONG_CLAIM" ∷ "UNKNOWN_EVIDENCE_REFERENCE" ∷ "GRAPH_ONLY_STRONG_CLAIM" ∷ []

module _ (lib : Library) where
  -- `GuardrailService.check_output`
  unfoldable pub check_state_output : GuardrailState → GuardrailDecision
  check_state_output s =
      check_output lib (or_empty s.final_response).summary s.recommended_actions s.evidence
        (or_empty s.final_response).safety_notes

  -- `evaluate`
  unfoldable pub evaluate : GuardrailState → List CandidateCause → GuardrailDecision
  evaluate s candidates =
      let generation = check_generation lib candidates s.evidence in
      let output = check_state_output s in
      let violations = sorted_set lib (generation.violations ++ output.violations) in
      let warnings = sorted_set lib (generation.warnings ++ output.warnings) in
      record {
        status =
            if not (is_empty violations)
            then GuardrailStatus.blocked
            else if not (is_empty warnings)
            then GuardrailStatus.passed_with_warnings
            else GuardrailStatus.passed;
        violations = violations;
        warnings = warnings;
        requires_human_confirmation = output.requires_human_confirmation;
        blocked_actions = output.blocked_actions;
        checked_evidence_refs = generation.checked_evidence_refs;
      }

  abbrev pub is_supported : List Evidence → CandidateCause → Bool
  is_supported evidence c = not (is_blocked ((check_generation lib (c ∷ []) evidence).status))

  -- `supported_candidates`
  unfoldable pub supported_candidates : GuardrailState → List CandidateCause
  supported_candidates s = keep (is_supported s.evidence) s.candidate_causes

  -- `sanitize_response`
  unfoldable pub sanitize_response : Response → GuardrailDecision → List CandidateCause → Response
  sanitize_response r decision supported =
      if not (any (λ v. contains decision.violations v) unsafe_generation_violations)
      then r
      else record r {
        summary = if not (is_empty supported) then r.summary else "现有证据不足以安全输出候选根因，请补充现场信息或转人工复核。";
        candidate_causes = supported;
        recommended_actions = if not (is_empty supported) then r.recommended_actions else [];
        recommend_ticket = if not (is_empty supported) then r.recommend_ticket else true;
        warnings = sorted_set lib (r.warnings ++ "UNSUPPORTED_CANDIDATES_REMOVED" ∷ []);
      }

-- The update that `rule_checker` returns; `phase` is set only where the diagnosis goes on to its review.
pub record Checked : Type 0 where
  pub candidate_causes : List CandidateCause
  pub errors : List String
  pub phase : Option DiagnosisPhase
  pub guardrail_decision : GuardrailDecision
  pub final_response : Response

abbrev pub no_cause : GuardrailDecision → GuardrailDecision
no_cause d = record d {
  status = GuardrailStatus.need_user_input;
  violations = d.violations ++ "NO_VERIFIABLE_ROOT_CAUSE" ∷ [];
}

-- `rule_checker`
unfoldable pub rule_checker : Library → GuardrailState → Checked
rule_checker lib s =
    let first = evaluate lib s s.candidate_causes in
    let supported = supported_candidates lib s in
    let response = sanitize_response lib (or_empty s.final_response) first supported in
    let second =
      if not (length supported == length s.candidate_causes)
      then evaluate lib s supported
      else first in
    let decision = if is_empty supported then no_cause second else second in
    record {
      candidate_causes = supported;
      errors = if stops decision.status then s.errors ++ decision.violations else s.errors;
      phase = if stops decision.status then none else some DiagnosisPhase.reviewing;
      guardrail_decision = decision;
      final_response = record response { guardrail_decision = some decision };
    }
