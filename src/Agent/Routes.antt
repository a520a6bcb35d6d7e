-- ===== src/Agent/Routes.antt =====
-- The runs of the diagnosis graph of src/energy_agent/agent/workflow.py. What the nodes do to the state
-- is a parameter; a node is taken to return.
use energy_agent_diagnosis.Common.{
  ℕ, zero, suc, ◌+◌, ◌≤◌, String, none, some, false, List, [], ◌∷◌, ◌≡◌, refl, sym, ap, ◌∙◌, arith,
  ◌⊎◌, inl, inr, Option-cases,
}
use energy_agent_diagnosis.Agent.Workflow.{DiagnosisState, Node, next, not_empty}

-- The edges left from a node on, at most.
abbrev rank : Node → ℕ
rank Node.intent_router = 13
rank Node.entity_parser = 12
rank Node.tool_dispatcher = 11
rank Node.plan_builder = 10
rank Node.timeseries_fetcher = 9
rank Node.ticket_fetcher = 8
rank Node.doc_retriever = 7
rank Node.graph_fetcher = 6
rank Node.evidence_aggregator = 5
rank Node.clarification_applier = 5
rank Node.gap_detector = 4
rank Node.reason_generator = 3
rank Node.response_generator = 2
rank Node.rule_checker = 1
rank Node.clarification_generator = 0
rank Node.memory_writer = 0

next-rank : (n m : Node) (s : DiagnosisState) → next n s ≡ some m → rank m + 1 ≤ rank n
unfolding next
next-rank n m s h = ground (arith, h)

-- A run of `k` edges from a node that is entered with a state to another.
pub data Run (act : Node → DiagnosisState → DiagnosisState)
    : ℕ → Node → DiagnosisState → Node → DiagnosisState → Type 0 where
  here : (n : Node) (s : DiagnosisState) → Run act 0 n s n s
  move :
      (k : ℕ) (n n' m : Node) (s s' : DiagnosisState)
      → next n (act n s) ≡ some n'
      → Run act k n' (act n s) m s'
      → Run act (suc k) n s m s'

Run-rank :
    (act : Node → DiagnosisState → DiagnosisState) (k : ℕ) (n m : Node) (s s' : DiagnosisState)
    → Run act k n s m s'
    → k + rank m ≤ rank n
Run-rank act _ _ _ _ _ (here n s) = omega arith
Run-rank act _ _ _ _ _ (move k n n' m s s' e r) =
    omega (arith, Run-rank act k n' m (act n s) s' r, next-rank n n' (act n s) e)

-- Whatever the nodes do, no run of the graph from its first node has more than thirteen edges.
graph_bounded :
    (act : Node → DiagnosisState → DiagnosisState) (k : ℕ) (m : Node) (s s' : DiagnosisState)
    → Run act k Node.intent_router s m s'
    → k ≤ 13
graph_bounded act k m s s' r = omega (arith, Run-rank act k Node.intent_router m s s' r)

ends_by :
    (act : Node → DiagnosisState → DiagnosisState) (fuel : ℕ) (n : Node) (s : DiagnosisState)
    → rank n ≤ fuel
    → (k : ℕ) × (m : Node) × (s' : DiagnosisState) × Run act k n s m s' × (next m (act m s') ≡ none)
ends_by act zero n s h = elim (Option-cases (next n (act n s))) [
  | inl over ↦ (0, n, s, here n s, over)
  | inr (n', e) ↦ absurd (omega (arith, next-rank n n' (act n s) e))
]
ends_by act (suc f) n s h = elim (Option-cases (next n (act n s))) [
  | inl over ↦ (0, n, s, here n s, over)
  | inr (n', e) ↦
      let (k, m, s', r, over) =
        ends_by act f n' (act n s) (omega (arith, next-rank n n' (act n s) e)) in
      (suc k, m, s', move k n n' m s s' e r, over)
]

-- Whatever the nodes do, the graph reaches its end from every state: there is a run from the first node
-- to a node after which nothing follows.
pub graph_ends :
    (act : Node → DiagnosisState → DiagnosisState) (s : DiagnosisState)
    → (k : ℕ) × (m : Node) × (s' : DiagnosisState) × Run act k Node.intent_router s m s'
      × (next m (act m s') ≡ none)
graph_ends act s = ends_by act 13 Node.intent_router s (omega arith)

into_writer :
    (n : Node) (s : DiagnosisState)
    → next n s ≡ some Node.memory_writer
    → (n ≡ Node.rule_checker) × (not_empty s.errors ≡ false)
unfolding next
into_writer n s h = ground (arith, h)

empty_of : (xs : List String) → not_empty xs ≡ false → xs ≡ []
empty_of [] h = refl
empty_of (x ∷ xs) h = cc

last_edge :
    (act : Node → DiagnosisState → DiagnosisState) (k : ℕ) (n m : Node) (s s' : DiagnosisState)
    → Run act k n s m s'
    → m ≡ Node.memory_writer
    → ((k ≡ 0) × (n ≡ Node.memory_writer) × (s ≡ s'))
      ⊎ ((x : DiagnosisState) × (s' ≡ act Node.rule_checker x) × (s'.errors ≡ []))
last_edge act _ _ _ _ _ (here n s) e = inl (refl, e, refl)
last_edge act _ _ _ _ _ (move k n n' m s s' e r) w = elim (last_edge act k n' m (act n s) s' r w) [
  | inr found ↦ inr found
  | inl (z, at, same) ↦
      let (checker, clean) = into_writer n (act n s) (e ∙ ap some at) in
      inr
        (s, sym same ∙ ap (λ i. act i s) checker, ap (λ x. x.errors) (sym same) ∙ empty_of _ clean)
]

-- The memory writer is entered only from the rule checker, with the state that it has left, and only if
-- that state has no errors: a result is written after the rules have been checked, or not at all.
written_after_check :
    (act : Node → DiagnosisState → DiagnosisState) (k : ℕ) (n : Node) (s s' : DiagnosisState)
    → Run act (suc k) n s Node.memory_writer s'
    → (x : DiagnosisState) × (s' ≡ act Node.rule_checker x) × (s'.errors ≡ [])
written_after_check act k n s s' r = elim (last_edge act (suc k) n Node.memory_writer s s' r refl) [
  | inl (z, _, _) ↦ absurd (omega (arith, z))
  | inr found ↦ found
]
