-- ===== src/Guardrails/Decisions.antt =====
-- src/energy_agent/guardrails/contracts.py: the decisions of the guardrails, with the records of
-- contracts/diagnosis_components.py that they read. Python's order of texts, `strip` and `startswith`
-- are fields of `Library`.
use energy_agent_diagnosis.Common.{
  String, Option, Bool, true, false, List, [], ◌∷◌, ◌==◌, string_eq, if◌then◌else◌,
}

pub record Library : Type 0 where
  pub before : String → String → Bool
  pub strip : String → String
  pub startswith : String → String → Bool

pub data GuardrailStatus : Type 0 where
  passed passed_with_warnings need_user_input blocked : GuardrailStatus

pub data RiskLevel : Type 0 where
  low medium high critical unknown : RiskLevel

-- `risk_level.value in {"high", "critical"}`
abbrev pub is_high : RiskLevel → Bool
is_high high = true
is_high critical = true
is_high _ = false

-- `RecommendedAction`, whose execution status has one value, `not_executed`.
pub record RecommendedAction : Type 0 where
  pub action_id : String
  pub risk_level : RiskLevel
  pub requires_human_confirmation : Bool
  pub evidence_refs : List String

pub record GuardrailDecision : Type 0 where
  pub status : GuardrailStatus
  pub violations : List String
  pub warnings : List String
  pub requires_human_confirmation : Bool
  pub blocked_actions : List String
  pub checked_evidence_refs : List String

pub record Evidence : Type 0 where
  pub evidence_id : String
  pub source_type : String

pub record CandidateCause : Type 0 where
  pub cause : String
  pub supporting_evidence : List String

pub record PlanStep : Type 0 where
  pub step_id : String
  pub tool : Option String

-- A text added to a sorted list of different texts.
unfoldable pub insert : Library → String → List String → List String
insert lib x [] = x ∷ []
insert lib x (y ∷ ys) =
    let rest = insert lib x ys in
    if x == y then y ∷ ys else if lib.before x y then x ∷ y ∷ ys else y ∷ rest

-- `sorted(set(xs))`
unfoldable pub sorted_set : Library → List String → List String
unfolding insert
sorted_set lib [] = []
sorted_set lib (x ∷ xs) = insert lib x (sorted_set lib xs)

abbrev pub is_empty {ℓ} : {A : Type ℓ} → List A → Bool
is_empty [] = true
is_empty (x ∷ xs) = false

-- `BLOCKED if violations else PASSED`
abbrev pub status_of : List String → GuardrailStatus
status_of [] = GuardrailStatus.passed
status_of (v ∷ vs) = GuardrailStatus.blocked
