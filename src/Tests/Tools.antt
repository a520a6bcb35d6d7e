-- ===== src/Tests/Tools.antt =====
-- The theorems on circuit breakers and on tool calls, at concrete inputs.
use energy_agent_diagnosis.Common.{
  List, Option, ℕ, zero, suc, ◌≤◌, String, none, some, true, false, [], ◌∷◌, ◌≡◌, ◌≢◌, refl, arith,
  length, eq_iff,
}
use energy_agent_diagnosis.Common.Errors.{ok, err, Error}
use energy_agent_diagnosis.Common.Table
use energy_agent_diagnosis.Reliability.Breaker.{
  opened, CircuitBreaker, default_policy, new, record_failure,
}
use energy_agent_diagnosis.Reliability.Breaker.Invariant.{
  IsValid, Call, apply_all, apply_all-IsValid,
}
use energy_agent_diagnosis.Reliability.Breaker.Recovery.{fail_at, opens_at_threshold}
use energy_agent_diagnosis.Reliability.Registry
use energy_agent_diagnosis.Reliability.Registry.{
  Registry, registry, with_breaker, get-registry, with_breaker_other,
}
use energy_agent_diagnosis.Tools.Executor.{
  ToolStatus, ToolResult, Response, ToolRegistration, ToolExecutor, Clock, failure, execute,
}
use energy_agent_diagnosis.Tools.Executor.Budget.{Request, run, run_budget}
use energy_agent_diagnosis.Tools.Executor.Probe.{SharedCall, call_all, cancelled_probe_blocks}
use energy_agent_diagnosis.Tools.Executor.Breaking.{IsGuarded}

abbrev open_breaker : CircuitBreaker
open_breaker = record (new "influxdb" default_policy) {
  state = opened;
  failure_count = 3;
  opened_at = some 100;
  gauge = 10;
}

apply_all-IsValid_example : IsValid (
    apply_all
      (Call.failure true 1 ∷ Call.failure true 2 ∷ Call.failure true 3 ∷ Call.allow 40 40 ∷ [])
      (new "influxdb" default_policy))
apply_all-IsValid_example =
    apply_all-IsValid
      (Call.failure true 1 ∷ Call.failure true 2 ∷ Call.failure true 3 ∷ Call.allow 40 40 ∷ [])
      "influxdb" default_policy (omega arith)

opens_at_threshold_example :
    (fail_at (10 ∷ 20 ∷ 30 ∷ []) (new "model" default_policy)).state ≡ opened
opens_at_threshold_example =
    opens_at_threshold (10 ∷ 20 ∷ 30 ∷ []) "model" default_policy (omega arith)

neo4j_other : ◌≢◌ {A = String} "neo4j" "model"
neo4j_other e = ground (arith, e, eq_iff "neo4j" "model")

with_breaker_other_example :
    Registry.get (with_breaker "neo4j" (record_failure true 7) (registry default_policy)) "model"
    ≡ Registry.get (registry default_policy) "model"
with_breaker_other_example =
    with_breaker_other (registry default_policy) "neo4j" "model" (record_failure true 7) neo4j_other

abbrev good : ToolResult
good = record {
  success = true;
  status = ToolStatus.okay;
  attempts = 1;
  retryable = false;
  error_code = "";
}

-- A tool of no dependency whose first attempt times out.
abbrev slow_tool : ToolRegistration ℕ
slow_tool = record {
  is_valid = λ a. true;
  handler = λ a n. elim n [
    | zero ↦ Response.timed_out
    | suc m ↦ elim m [ zero ↦ Response.timed_out | suc _ ↦ Response.returned good ]
  ];
  dependency = none;
}

-- A tool of the time series database, and one whose calls are cancelled.
abbrev series_tool : ToolRegistration ℕ
series_tool = record {
  is_valid = λ a. true;
  handler = λ a n. Response.returned good;
  dependency = some "influxdb";
}

abbrev cancelled_tool : ToolRegistration ℕ
cancelled_tool = record series_tool { handler = λ a n. Response.cancelled }

abbrev breakers : CircuitBreaker → Registry
breakers b = ("influxdb", b) ∷ []

abbrev executor : ToolRegistration ℕ → CircuitBreaker → ToolExecutor ℕ
executor tool b = record {
  tools = ("tool", tool) ∷ [];
  calls = 0;
  breakers = some (breakers b);
  log = [];
}

abbrev clock : ℕ → Clock
clock n = record { stamp = n; now = n; later = n }

abbrev request : Request ℕ
request = ("tool", 0, clock 5)

run_budget_example :
    (length (run (request ∷ request ∷ []) (executor slow_tool open_breaker)).log ≤ 8)
    × ((run (request ∷ request ∷ []) (executor slow_tool open_breaker)).calls ≡ 2)
run_budget_example = run_budget (request ∷ request ∷ []) (executor slow_tool open_breaker) refl refl

is_guarded :
    (tool : ToolRegistration ℕ) (b : CircuitBreaker)
    → tool.is_valid 0 ≡ true
    → tool.dependency ≡ some "influxdb"
    → IsGuarded (executor tool b) "tool" 0 tool "influxdb" (breakers b) b
unfolding Table.get Registry.get Registry.or_unsupported
is_guarded tool b accepted depends = record {
  registered = refl;
  accepted = accepted;
  depends = depends;
  named = refl;
  guarded_by = refl;
  found = refl;
}

abbrev later_calls : List (SharedCall ℕ)
later_calls =
    record {
      executor = executor series_tool open_breaker;
      name = "tool";
      arguments = 0;
      clock = clock 5000;
    }
    ∷ []

abbrev after_cancel : Option Registry
after_cancel =
    call_all later_calls
      (execute "tool" 0 (clock 130) (executor cancelled_tool open_breaker)).1.breakers

cancelled_probe_blocks_example :
    ((execute "tool" 0 (clock 130) (executor cancelled_tool open_breaker)).0 ≡ err Error.cancelled)
    × ((execute "tool" 0
          (clock 9999)
          (record (executor series_tool open_breaker) { breakers = after_cancel })).0
        ≡ ok (failure "CIRCUIT_OPEN" ToolStatus.degraded 1))
unfolding new Table.get
cancelled_probe_blocks_example =
    cancelled_probe_blocks "tool" 0 (clock 130) (executor cancelled_tool open_breaker)
      cancelled_tool "influxdb" (breakers open_breaker) open_breaker 100 (omega arith)
      (is_guarded cancelled_tool open_breaker refl refl) refl refl (omega arith) refl later_calls
      "tool" 0 (clock 9999) (record (executor series_tool open_breaker) { breakers = after_cancel })
      series_tool refl (omega arith) refl refl refl
