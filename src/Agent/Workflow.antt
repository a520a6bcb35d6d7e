-- ===== src/Agent/Workflow.antt =====
-- src/energy_agent/agent/workflow.py: the nodes of the diagnosis graph and its edges. The state has the
-- fields that an edge reads.
use energy_agent_diagnosis.Common.{
  String, Option, none, some, Bool, true, false, ◌&&◌, ◌||◌, List, [], ◌∷◌, ◌==◌, string_eq,
  if◌then◌else◌,
}

-- `DiagnosisPhase` of contracts/common.py
pub data DiagnosisPhase : Type 0 where
  init plan_ready data_fetching evidence_ready need_user_input : DiagnosisPhase
  draft_ready reviewing completed failed : DiagnosisPhase

pub record DiagnosisState : Type 0 where
  pub phase : DiagnosisPhase
  pub followup_mode : Option String
  pub evidence : List String
  pub errors : List String

pub data Node : Type 0 where
  intent_router clarification_applier entity_parser tool_dispatcher plan_builder : Node
  timeseries_fetcher ticket_fetcher doc_retriever graph_fetcher evidence_aggregator : Node
  gap_detector clarification_generator reason_generator response_generator : Node
  rule_checker memory_writer : Node

abbrev pub not_empty : List String → Bool
not_empty [] = false
not_empty (x ∷ xs) = true

abbrev pub needs_user_input : DiagnosisPhase → Bool
needs_user_input DiagnosisPhase.need_user_input = true
needs_user_input _ = false

abbrev pub answers_clarification : Option String → Bool
answers_clarification none = false
answers_clarification (some m) = m == "answer_clarification"

-- The node after one that has left the state `s`; none is the graph's end.
unfoldable pub next : Node → DiagnosisState → Option Node
next Node.intent_router s = some (
    if answers_clarification s.followup_mode && not_empty s.evidence
    then Node.clarification_applier
    else Node.entity_parser)
next Node.clarification_applier s = some Node.gap_detector
next Node.entity_parser s =
    some (if needs_user_input s.phase then Node.clarification_generator else Node.tool_dispatcher)
next Node.tool_dispatcher s = some Node.plan_builder
next Node.plan_builder s = some (
    if needs_user_input s.phase || not_empty s.errors
    then Node.clarification_generator
    else Node.timeseries_fetcher)
next Node.timeseries_fetcher s = some Node.ticket_fetcher
next Node.ticket_fetcher s = some Node.doc_retriever
next Node.doc_retriever s = some Node.graph_fetcher
next Node.graph_fetcher s = some Node.evidence_aggregator
next Node.evidence_aggregator s = some Node.gap_detector
next Node.gap_detector s =
    some (if not_empty s.errors then Node.clarification_generator else Node.reason_generator)
next Node.clarification_generator s = none
next Node.reason_generator s = some Node.response_generator
next Node.response_generator s = some Node.rule_checker
next Node.rule_checker s =
    some (if not_empty s.errors then Node.clarification_generator else Node.memory_writer)
next Node.memory_writer s = none
