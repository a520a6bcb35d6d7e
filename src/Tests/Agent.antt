-- ===== src/Tests/Agent.antt =====
-- The theorems on the diagnosis graph, at concrete inputs: nodes that leave the state as it is.
use energy_agent_diagnosis.Common.{ℕ, none, [], ◌≡◌, refl}
use energy_agent_diagnosis.Agent.Workflow.{DiagnosisPhase, DiagnosisState, Node, next}
use energy_agent_diagnosis.Agent.Routes.{Run, here, move, graph_ends}

abbrev initial : DiagnosisState
initial = record { phase = DiagnosisPhase.init; followup_mode = none; evidence = []; errors = [] }

abbrev idle : Node → DiagnosisState → DiagnosisState
idle n s = s

graph_ends_example :
    (k : ℕ) × (m : Node) × (s' : DiagnosisState) × Run idle k Node.intent_router initial m s'
    × (next m s' ≡ none)
graph_ends_example = graph_ends idle initial

into_memory : Run idle 1 Node.rule_checker initial Node.memory_writer initial
unfolding next
into_memory =
    move 0 Node.rule_checker Node.memory_writer Node.memory_writer initial initial refl
      (here Node.memory_writer initial)
