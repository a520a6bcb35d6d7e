-- ===== src/Tools/Executor/Breaking.antt =====
-- The breaker and the attempts in a tool call of src/energy_agent/tools/executor.py.
use energy_agent_diagnosis.Common.{
  ℕ, ◌+◌, ◌≤◌, ◌<◌, ◌≡◌, ◌⊎◌, String, Option, none, some, [], ◌∷◌, arith, true, truthy, ◌++◌,
  if◌then◌else◌,
}
use energy_agent_diagnosis.Common.Errors.{ok, err, Error}
use energy_agent_diagnosis.Common.Table
use energy_agent_diagnosis.Common.Table.{get-modify_self}
use energy_agent_diagnosis.Reliability.Breaker.{
  CircuitBreaker, closed, opened, half_open, allow, record_success, record_failure,
}
use energy_agent_diagnosis.Reliability.Registry
use energy_agent_diagnosis.Reliability.Registry.{Registry, with_breaker}
use energy_agent_diagnosis.Tools.Executor.{
  returned, timed_out, connection_lost, raised, cancelled, ToolResult, ToolRegistration,
  ToolExecutor, Clock, failed, timeout, degraded, failure, counts_as_failure, finish, on_response,
  attempt_loop, guarded, dispatch, execute, on_breaker,
}

-- The breaker that a registry, if there is one, holds for a dependency.
abbrev pub get_breaker : String → Option Registry → Option CircuitBreaker
get_breaker d none = none
get_breaker d (some r) = Table.get d r

row_of_get :
    (r : Registry) (d : String) (b : CircuitBreaker)
    → Registry.get r d ≡ ok b
    → Table.get d r ≡ some b
unfolding Registry.get
row_of_get r d b h = ground arith

module _ {Args : Type 0} where
  -- A call within the budget, of a registered tool with valid arguments and no dependency, whose first
  -- attempt times out or loses its connection is tried a second time and never a third: the second
  -- attempt decides the outcome, a result, `TOOL_TIMEOUT`, `TOOL_PROVIDER_FAILED` or a cancellation.
  pub execute_retry :
      (name : String) (a : Args) (t : Clock) (x : ToolExecutor Args) (tool : ToolRegistration Args)
      → x.calls < 8
      → Table.get name x.tools ≡ some tool
      → tool.is_valid a ≡ true
      → tool.dependency ≡ none
      → (tool.handler a 1 ≡ timed_out) ⊎ (tool.handler a 1 ≡ connection_lost)
      → (execute name a t x).0 ≡ elim (tool.handler a 2) [
        | returned r ↦ ok (record r { attempts = 2 })
        | timed_out ↦ ok (failure "TOOL_TIMEOUT" timeout 2)
        | connection_lost ↦ ok (failure "TOOL_TIMEOUT" degraded 2)
        | raised ↦ ok (failure "TOOL_PROVIDER_FAILED" failed 1)
        | cancelled ↦ err Error.cancelled
      ]
  unfolding execute dispatch guarded attempt_loop on_response finish on_breaker
  execute_retry name a t x tool c g v d h = ground arith

  -- A tool of the executor that its arguments fit, and the breaker of its dependency.
  pub record IsGuarded (x : ToolExecutor Args) (name : String) (a : Args)
      (tool : ToolRegistration Args) (d : String) (r : Registry) (b : CircuitBreaker) : Type 0 where
    pub registered : Table.get name x.tools ≡ some tool
    pub accepted : tool.is_valid a ≡ true
    pub depends : tool.dependency ≡ some d
    pub named : truthy d ≡ true
    pub guarded_by : x.breakers ≡ some r
    pub found : Registry.get r d ≡ ok b

  -- Within the budget, a tool whose dependency's breaker is open and not yet due for recovery is not
  -- tried, whatever its handler would give: the result is `CIRCUIT_OPEN`, degraded and retryable, and
  -- nothing is logged.
  execute_open :
      (name : String) (a : Args) (t : Clock) (x : ToolExecutor Args) (tool : ToolRegistration Args)
      (d : String) (r : Registry) (b : CircuitBreaker) (since : ℕ)
      → x.calls < 8
      → IsGuarded x name a tool d r b
      → b.state ≡ opened
      → b.opened_at ≡ some since
      → t.now < since + b.policy.recovery_timeout
      → ((execute name a t x).0 ≡ ok (failure "CIRCUIT_OPEN" degraded 1))
        × ((execute name a t x).1.log ≡ x.log)
  unfolding execute dispatch guarded on_breaker allow
  execute_open name a t x tool d r b since c g s o early = ground arith

  -- Within the budget, with the breaker closed, a first attempt
  -- that gives a result records a failure of the dependency when the status is a timeout, a failure
  -- or degraded, and a success otherwise; the result is returned and logged with one attempt.
  pub execute_records :
      (name : String) (a : Args) (t : Clock) (x : ToolExecutor Args) (tool : ToolRegistration Args)
      (d : String) (r : Registry) (b : CircuitBreaker) (result : ToolResult)
      → x.calls < 8
      → IsGuarded x name a tool d r b
      → b.state ≡ closed
      → tool.handler a 1 ≡ returned result
      → let y = (execute name a t x).1 in
        let first = record result { attempts = 1 } in
        ((execute name a t x).0 ≡ ok first)
        × (y.log ≡ x.log ++ (name, first) ∷ [])
        × (get_breaker d y.breakers
            ≡ some (
                if counts_as_failure result.status
                then record_failure true t.later b
                else record_success b))
  unfolding execute dispatch guarded attempt_loop on_response finish on_breaker allow Registry.get
  execute_records name a t x tool d r b result c g s h =
      let f =
        if counts_as_failure result.status then record_failure true t.later else record_success in
      let kept = get-modify_self d (λ _. b) r b (row_of_get r d b g.found) in
      ground (arith, kept, get-modify_self d f (with_breaker d (λ _. b) r) b kept)

  -- A probe of a recovering dependency that is cancelled leaves its breaker half-open with the probe marked
  -- as under way.
  pub cancelled_probe :
      (name : String) (a : Args) (t : Clock) (x : ToolExecutor Args) (tool : ToolRegistration Args)
      (d : String) (r : Registry) (b : CircuitBreaker) (since : ℕ)
      → x.calls < 8
      → IsGuarded x name a tool d r b
      → b.state ≡ opened
      → b.opened_at ≡ some since
      → since + b.policy.recovery_timeout ≤ t.now
      → tool.handler a 1 ≡ cancelled
      → let probing = record b { state = half_open; gauge = 5; probe_active = true } in
        ((execute name a t x).0 ≡ err Error.cancelled)
        × ((execute name a t x).1.breakers ≡ some (with_breaker d (λ _. probing) r))
        × (Table.get d (with_breaker d (λ _. probing) r) ≡ some probing)
  unfolding execute dispatch guarded attempt_loop on_response on_breaker allow Registry.get
  cancelled_probe name a t x tool d r b since c g s o due h =
      let probing = record b { state = half_open; gauge = 5; probe_active = true } in
      ground (arith, get-modify_self d (λ _. probing) r b (row_of_get r d b g.found))
