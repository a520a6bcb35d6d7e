-- ===== src/Tests/Guardrails.antt =====
-- The theorems on the guardrails, at concrete inputs.
use energy_agent_diagnosis.Common.{
  ◌≤◌, ℕ, none, some, true, List, [], ◌∷◌, ◌≡◌, ◌≢◌, ◌↔◌, refl, Every, string_eq, truthy, length,
  ◌==◌,
}
use energy_agent_diagnosis.Agent.Workflow.{DiagnosisPhase}
use energy_agent_diagnosis.Guardrails.Decisions.{
  Library, passed, RiskLevel, Evidence, CandidateCause, RecommendedAction, PlanStep, sorted_set,
  insert,
}
use energy_agent_diagnosis.Guardrails.Checks.{
  check_generation, check_output, check_plan, violations_of, violation_of, source_types, source_of,
}
use energy_agent_diagnosis.Guardrails.Service.{
  Response, empty_response, GuardrailState, rule_checker, evaluate, check_state_output,
  supported_candidates, sanitize_response,
}
use energy_agent_diagnosis.Guardrails.Supported.{IsSupported, check_generation-IsSupported}
use energy_agent_diagnosis.Guardrails.Planning.{ToolCalls, IsAllowed, check_plan-IsAllowed}
use energy_agent_diagnosis.Guardrails.Safety.{IsSafe, check_output-IsSafe}
use energy_agent_diagnosis.Guardrails.RuleChecker.{rule_checker-reviewing, rule_checker-response}

-- The references of the graph are, here, those with one name.
abbrev library : Library
library = record { before = λ a b. true; strip = λ s. s; startswith = λ s prefix. s == "graph:fan" }

abbrev evidence : List Evidence
evidence =
    record { evidence_id = "m1"; source_type = "manual" }
    ∷ record { evidence_id = "t1"; source_type = "ticket" }
    ∷ record { evidence_id = "graph:fan"; source_type = "graph" }
    ∷ []

abbrev fan : CandidateCause
fan = record { cause = "fan"; supporting_evidence = "graph:fan" ∷ "m1" ∷ [] }

abbrev rumour : CandidateCause
rumour = record { cause = "rumour"; supporting_evidence = "graph:fan" ∷ [] }

abbrev shutdown : RecommendedAction
shutdown = record {
  action_id = "action-1";
  risk_level = RiskLevel.high;
  requires_human_confirmation = true;
  evidence_refs = "m1" ∷ "t1" ∷ [];
}

abbrev draft_response : Response
draft_response = record empty_response {
  summary = "fan";
  candidate_causes = rumour ∷ [];
  safety_notes = "isolate" ∷ [];
}

abbrev mixed : GuardrailState
mixed = record {
  candidate_causes = fan ∷ rumour ∷ [];
  evidence = evidence;
  final_response = some draft_response;
  recommended_actions = shutdown ∷ [];
  errors = [];
}

goes_on : (rule_checker library mixed).phase ≡ some DiagnosisPhase.reviewing
unfolding rule_checker evaluate check_state_output supported_candidates sanitize_response
    check_generation check_output violations_of violation_of source_types source_of sorted_set
    insert
goes_on = refl

rule_checker-reviewing_example :
    ((rule_checker library mixed).candidate_causes ≢ [])
    × Every (IsSupported library evidence) (rule_checker library mixed).candidate_causes
    × Every (IsSafe evidence ("isolate" ∷ [])) (shutdown ∷ [])
rule_checker-reviewing_example = rule_checker-reviewing library mixed goes_on

abbrev sound : GuardrailState
sound = record mixed { candidate_causes = fan ∷ [] }

passes : (check_generation library (fan ∷ []) evidence).status ≡ passed
unfolding check_generation violations_of violation_of
passes = refl

-- The response has a candidate that only the graph supports.
rule_checker-response_example :
    (rule_checker library sound).final_response.candidate_causes ≡ rumour ∷ []
rule_checker-response_example =
    rule_checker-response library sound
      ((check_generation-IsSupported library evidence (fan ∷ [])).0 passes)

check_generation-IsSupported_example :
    ((check_generation library (fan ∷ []) evidence).status ≡ passed)
    ↔ Every (IsSupported library evidence) (fan ∷ [])
check_generation-IsSupported_example = check_generation-IsSupported library evidence (fan ∷ [])

check_output-IsSafe_example :
    ((check_output library "fan" (shutdown ∷ []) evidence ("isolate" ∷ [])).status ≡ passed)
    ↔ (Every (IsSafe evidence ("isolate" ∷ [])) (shutdown ∷ []) × (truthy "fan" ≡ true))
check_output-IsSafe_example =
    check_output-IsSafe library "fan" (shutdown ∷ []) evidence ("isolate" ∷ [])

abbrev plan : List PlanStep
plan =
    record { step_id = "s1"; tool = some "query_timeseries" }
    ∷ record { step_id = "s2"; tool = none }
    ∷ []

check_plan-IsAllowed_example :
    ((check_plan plan ("query_timeseries" ∷ []) true 16 8).status ≡ passed) ↔ (
      (true ≡ true)
      × (length plan ≤ 16)
      × ((n : ℕ) × ToolCalls plan n × (n ≤ 8))
      × Every (IsAllowed ("query_timeseries" ∷ [])) plan)
check_plan-IsAllowed_example = check_plan-IsAllowed plan ("query_timeseries" ∷ []) true 16 8
