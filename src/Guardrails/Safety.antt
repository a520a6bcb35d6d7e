-- ===== src/Guardrails/Safety.antt =====
-- What the output check of src/energy_agent/guardrails let through.
use energy_agent_diagnosis.Common.{
  String, true, false, List, [], ◌∷◌, string_eq, keep, ◌≡◌, ◌≢◌, ◌↔◌, refl, arith, inl, inr,
  Bool-cases, Every, nil, cons, append_empty, map, truthy,
}
use energy_agent_diagnosis.Guardrails.Decisions.{
  RiskLevel, Library, passed, Evidence, RecommendedAction, is_high, status_of, sorted_set, insert,
}
use energy_agent_diagnosis.Guardrails.Sources.{TwoSources, length-source_types-TwoSources}
use energy_agent_diagnosis.Guardrails.Checks.{is_unsafe, check_output}

-- The levels of risk that need safeguards.
pub data AtRisk : RiskLevel → Type 0 where
  at_high : AtRisk RiskLevel.high
  at_critical : AtRisk RiskLevel.critical

-- An action of high or critical risk is confirmed by a human, rests on two different sources, and comes
-- with safety notes.
pub record IsSafe (evidence : List Evidence) (safety_notes : List String) (a : RecommendedAction)
    : Type 0 where
  pub confirmed : AtRisk a.risk_level → a.requires_human_confirmation ≡ true
  pub sources : AtRisk a.risk_level → TwoSources evidence a.evidence_refs
  pub noted : AtRisk a.risk_level → safety_notes ≢ []

AtRisk-is_high : {level : RiskLevel} → AtRisk level → is_high level ≡ true
AtRisk-is_high at_high = refl
AtRisk-is_high at_critical = refl

is_high-AtRisk : (level : RiskLevel) → is_high level ≡ true → AtRisk level
is_high-AtRisk RiskLevel.high h = at_high
is_high-AtRisk RiskLevel.critical h = at_critical
is_high-AtRisk _ h = absurd (ground (arith, h))

insert_some : (lib : Library) (x : String) (xs : List String) → insert lib x xs ≢ []
unfolding insert
insert_some lib x [] h = ground (arith, h)
insert_some lib x (y ∷ ys) h = ground (arith, h)

pub sorted_set-empty : (lib : Library) (xs : List String) → sorted_set lib xs ≡ [] → xs ≡ []
unfolding sorted_set
sorted_set-empty lib [] h = refl
sorted_set-empty lib (x ∷ xs) h = absurd (insert_some lib x (sorted_set lib xs) h)

module _ (evidence : List Evidence) (safety_notes : List String) where
  not_unsafe :
      (a : RecommendedAction)
      → is_unsafe evidence safety_notes a ≡ false
      → IsSafe evidence safety_notes a
  not_unsafe a h = record {
    confirmed = λ r. let high = AtRisk-is_high r in ground (arith, h, high);
    sources = λ r.
        let high = AtRisk-is_high r in
        (length-source_types-TwoSources evidence a.evidence_refs).0 (ground (arith, h, high));
    noted = λ r e. let high = AtRisk-is_high r in ground (arith, h, high, e);
  }

  IsSafe-not_unsafe :
      (a : RecommendedAction)
      → IsSafe evidence safety_notes a
      → is_unsafe evidence safety_notes a ≡ false
  IsSafe-not_unsafe a s = elim (Bool-cases (is_high a.risk_level)) [
    | inr low ↦ ground (arith, low)
    | inl high ↦
        let risk = is_high-AtRisk a.risk_level high in
        let confirmed = s.confirmed risk in
        let sources =
          (length-source_types-TwoSources evidence a.evidence_refs).1 (s.sources risk) in
        let noted = s.noted risk in ground (arith, high, confirmed, sources, noted)
  ]

  none_unsafe :
      (xs : List RecommendedAction)
      → keep (is_unsafe evidence safety_notes) xs ≡ []
      → Every (IsSafe evidence safety_notes) xs
  none_unsafe [] h = nil
  none_unsafe (a ∷ xs) h =
      cons (not_unsafe a (ground (arith, h))) (none_unsafe xs (ground (arith, h)))

  all_safe :
      (xs : List RecommendedAction)
      → Every (IsSafe evidence safety_notes) xs
      → keep (is_unsafe evidence safety_notes) xs ≡ []
  all_safe [] nil = refl
  all_safe (a ∷ xs) (cons s ss) =
      let first = IsSafe-not_unsafe a s in let rest = all_safe xs ss in rw (first, rest) refl

passed_none : (vs : List String) → (status_of vs ≡ passed) ↔ (vs ≡ [])
passed_none vs = ((λ h. ground (arith, h)), (λ h. ground (arith, h)))

map_empty : (xs : List RecommendedAction) (s : String) → map (λ a. s) xs ≡ [] → xs ≡ []
map_empty [] s h = refl
map_empty (a ∷ xs) s h = absurd (ground (arith, h))

-- The output check passes exactly where the summary is not blank and every action is safe: one of high or
-- critical risk is confirmed by a human, comes with safety notes, and refers to evidence of two different
-- sources. A source is that of the last piece of evidence with the reference's id, and "graph", "device" and
-- "alarm" are none.
pub check_output-IsSafe :
    (lib : Library) (summary : String) (actions : List RecommendedAction) (evidence : List Evidence)
    (safety_notes : List String)
    → ((check_output lib summary actions evidence safety_notes).status ≡ passed)
      ↔ (Every (IsSafe evidence safety_notes) actions × (truthy (lib.strip summary) ≡ true))
unfolding check_output
check_output-IsSafe lib summary actions evidence safety_notes =
    let unsafe = keep (is_unsafe evidence safety_notes) actions in
    (
      (λ h.
          let (none_of, blank) =
            append_empty (map (λ a. "HIGH_RISK_ACTION_UNSAFE") unsafe) _ ((passed_none _).0 h) in
          (
            none_unsafe evidence safety_notes actions (map_empty unsafe _ none_of),
            ground (arith, blank),
          )),
      (λ s.
          let clean = all_safe evidence safety_notes actions s.0 in
          let summarised = s.1 in (passed_none _).1 (rw (clean, summarised) refl)),
    )

pub output_passed :
    (lib : Library) (summary : String) (actions : List RecommendedAction) (evidence : List Evidence)
    (safety_notes : List String)
    → (check_output lib summary actions evidence safety_notes).violations ≡ []
    → (check_output lib summary actions evidence safety_notes).status ≡ passed
unfolding check_output
output_passed lib summary actions evidence safety_notes h =
    (passed_none _).1 (sorted_set-empty lib _ h)
