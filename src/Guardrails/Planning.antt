-- ===== src/Guardrails/Planning.antt =====
-- The plans that `check_plan` of src/energy_agent/guardrails/planning.py lets through.
use energy_agent_diagnosis.Common.{
  ℕ, ◌≤◌, ◌+◌, String, some, Bool, true, false, not, List, [], ◌∷◌, string_eq, any, contains, ◌≡◌,
  ◌≢◌, ◌↔◌, refl, sym, ap, ◌∙◌, arith, inl, inr, Bool-cases, Option-cases, Every, nil, cons, length,
  truthy, eq_iff,
}
use mathlib.Core.Path.{subst}
use energy_agent_diagnosis.Guardrails.Decisions.{passed, PlanStep}
use energy_agent_diagnosis.Guardrails.Checks.{check_plan, tools_of, write_tools}

-- A step that names a tool.
abbrev pub Uses : PlanStep → String → Type 0
Uses s t = (s.tool ≡ some t) × (t ≢ "")

-- The number of the steps of a plan that name a tool.
pub data ToolCalls : List PlanStep → ℕ → Type 0 where
  no_steps : ToolCalls [] 0
  with_tool :
      {s : PlanStep} {ss : List PlanStep} {n : ℕ} (t : String)
      → Uses s t
      → ToolCalls ss n
      → ToolCalls (s ∷ ss) (n + 1)
  without_tool :
      {s : PlanStep} {ss : List PlanStep} {n : ℕ}
      → ((t : String) → s.tool ≡ some t → t ≡ "")
      → ToolCalls ss n
      → ToolCalls (s ∷ ss) n

-- A step whose tool, if it names one, is on the list of allowed tools and writes neither tickets nor
-- reviews.
pub record IsAllowed (allowed : List String) (s : PlanStep) : Type 0 where
  pub on_list : (t : String) → Uses s t → contains allowed t ≡ true
  pub no_ticket : (t : String) → Uses s t → t ≢ "create_or_update_ticket"
  pub no_review : (t : String) → Uses s t → t ≢ "write_review_result"

the_tool : (s : PlanStep) (t u : String) → s.tool ≡ some t → s.tool ≡ some u → t ≡ u
the_tool s t u at at' = ground (arith, at, at')

-- What a step adds to `tools_of`.
data Named (s : PlanStep) (ss : List PlanStep) : Type 0 where
  named : (t : String) → Uses s t → tools_of (s ∷ ss) ≡ t ∷ tools_of ss → Named s ss
  unnamed : ((t : String) → s.tool ≡ some t → t ≡ "") → tools_of (s ∷ ss) ≡ tools_of ss → Named s ss

tools_of-cases : (s : PlanStep) (ss : List PlanStep) → Named s ss
unfolding tools_of
tools_of-cases s ss = elim (Option-cases s.tool) [
  | inl none_given ↦
      unnamed (λ t e. absurd (ground (arith, none_given, e))) (ground (arith, none_given))
  | inr (t, given) ↦ elim (Bool-cases (truthy t)) [
    | inl full ↦
        named t (given, λ e. ground (arith, full, e, eq_iff t "")) (ground (arith, given, full))
    | inr empty ↦
        unnamed (λ u e. ground (arith, given, e, empty, eq_iff t "")) (ground (arith, given, empty))
  ]
]

ToolCalls-length : (plan : List PlanStep) → ToolCalls plan (length (tools_of plan))
unfolding tools_of
ToolCalls-length [] = no_steps
ToolCalls-length (s ∷ ss) = elim (tools_of-cases s ss) [
  | named t u e ↦
      let more = ap length e in
      subst (ToolCalls (s ∷ ss)) (omega (arith, more)) (with_tool t u (ToolCalls-length ss))
  | unnamed u e ↦
      subst (ToolCalls (s ∷ ss)) (ap length (sym e)) (without_tool u (ToolCalls-length ss))
]

length-ToolCalls : {plan : List PlanStep} {n : ℕ} → ToolCalls plan n → length (tools_of plan) ≡ n
unfolding tools_of
length-ToolCalls no_steps = refl
length-ToolCalls (with_tool {s} {ss} t (at, full) rest) =
    let tail = length-ToolCalls rest in ground (arith, at, full, tail, eq_iff t "")
length-ToolCalls (without_tool {s} {ss} blank rest) =
    let tail = length-ToolCalls rest in
    elim (tools_of-cases s ss) [
      | named t (at, full) e ↦ absurd (full (blank t at))
      | unnamed u e ↦ ap length e ∙ tail
    ]

module _ (allowed : List String) where
  -- The tests of the check find nothing against the tools.
  abbrev Clean : List String → Type 0
  Clean tools =
      (any (λ t. not (contains allowed t)) tools ≡ false)
      × (any (λ t. contains write_tools t) tools ≡ false)

  Clean-IsAllowed : (plan : List PlanStep) → Clean (tools_of plan) → Every (IsAllowed allowed) plan
  unfolding tools_of
  Clean-IsAllowed [] c = nil
  Clean-IsAllowed (s ∷ ss) c = elim (tools_of-cases s ss) [
    | named t (at, full) e ↦
        let (listed, writes) = subst Clean e c in
        let same = λ (u : String) (v : Uses s u). the_tool s t u at v.0 in
        cons
          (record {
            on_list =
                λ u v. subst (λ i. contains allowed i ≡ true) (same u v) (ground (arith, listed));
            no_ticket =
                λ u v w. ground (arith, writes, same u v ∙ w, eq_iff "create_or_update_ticket" t);
            no_review =
                λ u v w. ground (arith, writes, same u v ∙ w, eq_iff "write_review_result" t);
          })
          (Clean-IsAllowed ss (ground (arith, listed), ground (arith, writes)))
    | unnamed blank e ↦
        cons
          (record {
            on_list = λ u v. absurd (v.1 (blank u v.0));
            no_ticket = λ u v. absurd (v.1 (blank u v.0));
            no_review = λ u v. absurd (v.1 (blank u v.0));
          })
          (Clean-IsAllowed ss (subst Clean e c))
  ]

  IsAllowed-Clean : (plan : List PlanStep) → Every (IsAllowed allowed) plan → Clean (tools_of plan)
  unfolding tools_of
  IsAllowed-Clean [] nil = (refl, refl)
  IsAllowed-Clean (s ∷ ss) (cons a as_) =
      let rest = IsAllowed-Clean ss as_ in
      let (listed, writes) = rest in
      elim (tools_of-cases s ss) [
        | named t u e ↦
            let on_list = a.on_list t u in
            let ticket = a.no_ticket t u in
            let review = a.no_review t u in
            subst Clean (sym e) (
              ground (arith, on_list, listed),
              ground (
                arith,
                writes,
                ticket,
                review,
                eq_iff "create_or_update_ticket" t,
                eq_iff "write_review_result" t,
              ),
            )
        | unnamed blank e ↦ subst Clean (sym e) rest
      ]

-- The plan check passes exactly the plans of a registered template that have no more steps than the limit,
-- no more steps with a tool than the limit of the calls, and only steps that are allowed: a tool that a step
-- names is on the list of allowed tools, and is neither create_or_update_ticket nor write_review_result. An
-- empty name is none.
pub check_plan-IsAllowed :
    (plan : List PlanStep) (allowed : List String) (valid_template : Bool)
    (max_steps max_tool_calls : ℕ)
    → ((check_plan plan allowed valid_template max_steps max_tool_calls).status ≡ passed) ↔ (
        (valid_template ≡ true)
        × (length plan ≤ max_steps)
        × ((n : ℕ) × ToolCalls plan n × (n ≤ max_tool_calls))
        × Every (IsAllowed allowed) plan)
unfolding check_plan
check_plan-IsAllowed plan allowed valid_template max_steps max_tool_calls =
    let tools = tools_of plan in
    (
      (λ h. (
        ground (arith, h),
        ground (arith, h),
        (length tools, ToolCalls-length plan, ground (arith, h)),
        Clean-IsAllowed allowed plan (ground (arith, h), ground (arith, h)),
      )),
      (λ (valid, steps, (n, calls, fits), right).
          let counted = length-ToolCalls calls in
          let (listed, writes) = IsAllowed-Clean allowed plan right in
          ground (arith, valid, steps, counted, fits, listed, writes)),
    )
