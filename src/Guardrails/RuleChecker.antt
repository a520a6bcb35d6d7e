-- ===== src/Guardrails/RuleChecker.antt =====
-- `rule_checker` of src/energy_agent/agent/nodes/diagnosis.py over src/energy_agent/guardrails/service.py.
use energy_agent_diagnosis.Common.{
  String, some, false, ◌||◌, List, [], ◌∷◌, ◌++◌, ◌==◌, string_eq, nat_eq, keep, contains, length,
  ◌≡◌, ◌≢◌, refl, arith, eq_iff, inl, inr, Bool-cases, Every, append_empty, map,
}
use energy_agent_diagnosis.Agent.Workflow.{DiagnosisPhase}
use energy_agent_diagnosis.Guardrails.Decisions.{
  Library, passed, CandidateCause, is_empty, sorted_set, insert,
}
use energy_agent_diagnosis.Guardrails.Checks.{check_generation, check_output, is_unsafe}
use energy_agent_diagnosis.Guardrails.Service.{
  GuardrailState, or_empty, evaluate, check_state_output, supported_candidates, sanitize_response,
  stops, rule_checker,
}
use energy_agent_diagnosis.Guardrails.Supported.{IsSupported, kept-IsSupported, supported}
use energy_agent_diagnosis.Guardrails.Safety.{
  IsSafe, sorted_set-empty, check_output-IsSafe, output_passed,
}

-- What `evaluate` lets through, whatever the candidates.
evaluate-IsSafe :
    (lib : Library) (s : GuardrailState) (cs : List CandidateCause)
    → stops ((evaluate lib s cs).status) ≡ false
    → Every (IsSafe s.evidence (or_empty s.final_response).safety_notes) s.recommended_actions
unfolding evaluate check_state_output
evaluate-IsSafe lib s cs h =
    let r = or_empty s.final_response in
    let generation = check_generation lib cs s.evidence in
    let output = check_output lib r.summary s.recommended_actions s.evidence r.safety_notes in
    let none_of : sorted_set lib (generation.violations ++ output.violations) ≡ [] =
      ground (arith, h) in
    let both =
      append_empty generation.violations output.violations (sorted_set-empty lib _ none_of) in
    let clean : output.status ≡ passed =
      output_passed lib r.summary s.recommended_actions s.evidence r.safety_notes both.1 in
    ((check_output-IsSafe lib r.summary s.recommended_actions s.evidence r.safety_notes).0 clean).0

-- A diagnosis goes on to its review only with at least one candidate cause, each of which rests on known
-- evidence that is not all of the graph, and only if every action of high risk is confirmed by a human,
-- rests on two independent sources and comes with safety notes.
pub rule_checker-reviewing :
    (lib : Library) (s : GuardrailState)
    → (rule_checker lib s).phase ≡ some DiagnosisPhase.reviewing
    → ((rule_checker lib s).candidate_causes ≢ [])
      × Every (IsSupported lib s.evidence) (rule_checker lib s).candidate_causes
      × Every (IsSafe s.evidence (or_empty s.final_response).safety_notes) s.recommended_actions
unfolding rule_checker supported_candidates
rule_checker-reviewing lib s h =
    let supp = supported_candidates lib s in
    elim (Bool-cases (is_empty supp)) [
      | inl lacking ↦ absurd (ground (arith, h, lacking))
      | inr some_left ↦ (
        (λ e. ground (arith, e, some_left)),
        kept-IsSupported lib s.evidence s.candidate_causes,
        elim (Bool-cases (length supp == length s.candidate_causes)) [
          | inl same ↦ evaluate-IsSafe lib s s.candidate_causes (ground (arith, h, some_left, same))
          | inr fewer ↦ evaluate-IsSafe lib s supp (ground (arith, h, some_left, fewer))
        ],
      )
    ]

-- The members of a sorted set are those of the list.
contains-insert :
    (lib : Library) (x v : String) (xs : List String)
    → contains (insert lib x xs) v ≡ (x == v || contains xs v)
unfolding insert
contains-insert lib x v [] = refl
contains-insert lib x v (y ∷ ys) = ground (arith, contains-insert lib x v ys, eq_iff x y)

contains-sorted_set :
    (lib : Library) (v : String) (xs : List String) → contains (sorted_set lib xs) v ≡ contains xs v
unfolding sorted_set
contains-sorted_set lib v [] = refl
contains-sorted_set lib v (x ∷ xs) =
    ground (arith, contains-insert lib x v (sorted_set lib xs), contains-sorted_set lib v xs)

contains-append :
    (v : String) (xs ys : List String) → contains (xs ++ ys) v ≡ (contains xs v || contains ys v)
contains-append v [] ys = refl
contains-append v (x ∷ xs) ys = ground (arith, contains-append v xs ys)

contains-map :
    {A : Type 0} (name v : String) (xs : List A)
    → name == v ≡ false
    → contains (map (λ a. name) xs) v ≡ false
contains-map name v [] h = refl
contains-map name v (x ∷ xs) h = ground (arith, h, contains-map name v xs h)

module _ (lib : Library) (s : GuardrailState) (v : String)
    (not_action : "HIGH_RISK_ACTION_UNSAFE" == v ≡ false)
    (not_summary : "EMPTY_SUMMARY" == v ≡ false) where
  -- The output check reports its own two violations only.
  output_foreign : contains (check_state_output lib s).violations v ≡ false
  unfolding check_state_output check_output
  output_foreign =
      let r = or_empty s.final_response in
      let unsafe = keep (is_unsafe s.evidence r.safety_notes) s.recommended_actions in
      let actions = contains-map "HIGH_RISK_ACTION_UNSAFE" v unsafe not_action in
      rw (contains-sorted_set, contains-append, actions) (ground (arith, not_summary))

  evaluate_foreign :
      Every (IsSupported lib s.evidence) s.candidate_causes
      → contains (evaluate lib s s.candidate_causes).violations v ≡ false
  unfolding evaluate check_generation sorted_set
  evaluate_foreign h =
      let clean = supported lib s.evidence s.candidate_causes h in
      rw (contains-sorted_set, clean) output_foreign

-- Where every candidate of the state is supported, the response keeps the candidates that it came with,
-- which no check has read.
pub rule_checker-response :
    (lib : Library) (s : GuardrailState)
    → Every (IsSupported lib s.evidence) s.candidate_causes
    → (rule_checker lib s).final_response.candidate_causes
      ≡ (or_empty s.final_response).candidate_causes
unfolding rule_checker sanitize_response
rule_checker-response lib s h =
    let missing = evaluate_foreign lib s "UNSUPPORTED_STRONG_CLAIM" refl refl h in
    let unknown = evaluate_foreign lib s "UNKNOWN_EVIDENCE_REFERENCE" refl refl h in
    let graph = evaluate_foreign lib s "GRAPH_ONLY_STRONG_CLAIM" refl refl h in
    ground (arith, missing, unknown, graph)
