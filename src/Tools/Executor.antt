-- ===== src/Tools/Executor.antt =====
-- src/energy_agent/tools/executor.py, registry.py, policies.py and the results of contracts.py.
-- A handler and its schema are the registration's: what the handler gives at each attempt is a
-- function of the attempt. Latencies and the tracer are left out; a logged result is an entry of `log`.
pub mod Budget
pub mod Breaking
pub mod Probe
use energy_agent_diagnosis.Common.{
  ℕ, zero, suc, ◌+◌, ◌-◌, String, Option, none, some, Bool, true, false, List, [], ◌∷◌, ◌++◌, ◌||◌,
  ltb, ◌==◌, nat_eq, if◌then◌else◌, truthy,
}
use energy_agent_diagnosis.Common.Errors.{Outcome, ok, err, Error}
use energy_agent_diagnosis.Common.Table
use energy_agent_diagnosis.Common.Table.{Table}
use energy_agent_diagnosis.Reliability.Breaker
use energy_agent_diagnosis.Reliability.Breaker.{CircuitBreaker}
use energy_agent_diagnosis.Reliability.Registry
use energy_agent_diagnosis.Reliability.Registry.{Registry, with_breaker}

pub data ToolStatus : Type 0 where
  okay partial_success not_found timeout degraded failed : ToolStatus

pub record ToolResult : Type 0 where
  pub success : Bool
  pub status : ToolStatus
  pub attempts : ℕ
  pub retryable : Bool
  pub error_code : String

-- What awaiting the handler gives: a result, one of the caught exceptions, or a cancellation, which
-- no `except` of the method catches.
pub data Response : Type 0 where
  returned : ToolResult → Response
  timed_out connection_lost raised cancelled : Response

pub record ToolRegistration (Args : Type 0) : Type 0 where
  pub is_valid : Args → Bool
  pub handler : Args → ℕ → Response
  pub dependency : Option String

pub record ToolExecutor (Args : Type 0) : Type 0 where
  pub tools : Table (ToolRegistration Args)
  pub calls : ℕ
  pub breakers : Option Registry
  pub log : List (String × ToolResult)

-- The readings of the breaker's clock that a call may make: two in `allow`, one when it fails.
pub record Clock : Type 0 where
  pub stamp : ℕ
  pub now : ℕ
  pub later : ℕ

abbrev pub max_tool_calls_per_run : ℕ
max_tool_calls_per_run = 8

abbrev pub default_max_attempts : ℕ
default_max_attempts = 2

abbrev pub is_retryable : ToolStatus → Bool
is_retryable timeout = true
is_retryable degraded = true
is_retryable _ = false

-- `_failure`
abbrev pub failure : String → ToolStatus → ℕ → ToolResult
failure code status attempts = record {
  success = false;
  status = status;
  attempts = attempts;
  retryable = is_retryable status;
  error_code = code;
}

-- The statuses that count against the dependency.
abbrev pub counts_as_failure : ToolStatus → Bool
counts_as_failure timeout = true
counts_as_failure failed = true
counts_as_failure degraded = true
counts_as_failure _ = false

-- `self.circuit_breakers.get(dependency) if dependency and self.circuit_breakers else None`
abbrev pub find_breaker :
    Option String → Option Registry → Outcome (Option (String × CircuitBreaker))
find_breaker none r = ok none
find_breaker (some d) none = ok none
find_breaker (some d) (some r) =
    if truthy d
    then elim (Registry.get r d) [ ok b ↦ ok (some (d, b)) | err e ↦ err e ]
    else ok none

module _ {Args : Type 0} where
  -- A call on the breaker in hand, if there is one.
  unfoldable pub on_breaker :
      Option String → (CircuitBreaker → CircuitBreaker) → ToolExecutor Args → ToolExecutor Args
  on_breaker none f x = x
  on_breaker (some d) f x = record x {
    breakers = elim x.breakers [ none ↦ none | some r ↦ some (with_breaker d f r) ];
  }

  -- The end of a call with a result: the log entry, then the breaker's record.
  unfoldable pub finish :
      String
      → Option String
      → ToolResult
      → Bool
      → ℕ
      → ToolExecutor Args
      → Outcome ToolResult × ToolExecutor Args
  finish name breaker result is_failure later x =
      let logged = record x { log = x.log ++ (name, result) ∷ [] } in
      (
        ok result,
        on_breaker breaker
            (if is_failure then Breaker.record_failure true later else Breaker.record_success)
            logged,
      )

  -- One pass of the loop, by what the handler gave; `again` is the rest of the loop.
  unfoldable pub on_response :
      String
      → Option String
      → ℕ
      → ℕ
      → Outcome ToolResult × ToolExecutor Args
      → ToolExecutor Args
      → Response
      → Outcome ToolResult × ToolExecutor Args
  on_response name breaker later attempt again x (returned result) =
      finish name breaker (record result { attempts = attempt }) (counts_as_failure result.status)
        later x
  on_response name breaker later attempt again x timed_out =
      if attempt == default_max_attempts
      then finish name breaker (failure "TOOL_TIMEOUT" timeout attempt) true later x
      else again
  on_response name breaker later attempt again x connection_lost =
      if attempt == default_max_attempts
      then finish name breaker (failure "TOOL_TIMEOUT" degraded attempt) true later x
      else again
  on_response name breaker later attempt again x raised =
      finish name breaker (failure "TOOL_PROVIDER_FAILED" failed 1) true later x
  on_response name breaker later attempt again x cancelled = (err Error.cancelled, x)

  -- `for attempt in range(1, DEFAULT_MAX_ATTEMPTS + 1)`, by the attempts left.
  unfoldable pub attempt_loop :
      String
      → Option String
      → (ℕ → Response)
      → ℕ
      → ℕ
      → ℕ
      → ToolExecutor Args
      → Outcome ToolResult × ToolExecutor Args
  attempt_loop name breaker handler later zero attempt x =
      (ok (failure "TOOL_PROVIDER_FAILED" failed 1), x)
  attempt_loop name breaker handler later (suc left) attempt x =
      let again = attempt_loop name breaker handler later left (attempt + 1) x in
      on_response name breaker later attempt again x (handler attempt)

  -- `breaker.allow()`, and the attempts if it lets the call through.
  unfoldable pub guarded :
      String
      → Option (String × CircuitBreaker)
      → (ℕ → Response)
      → Clock
      → ToolExecutor Args
      → Outcome ToolResult × ToolExecutor Args
  guarded name none handler t x = attempt_loop name none handler t.later default_max_attempts 1 x
  guarded name (some (d, b)) handler t x =
      let (allowed, b') = Breaker.allow t.stamp t.now b in
      let x' = on_breaker (some d) (λ _. b') x in
      elim allowed [
        | ok _ ↦ attempt_loop name (some d) handler t.later default_max_attempts 1 x'
        | err _ ↦ (ok (failure "CIRCUIT_OPEN" degraded 1), x')
      ]

  unfoldable pub dispatch :
      String
      → Args
      → Option (ToolRegistration Args)
      → Clock
      → ToolExecutor Args
      → Outcome ToolResult × ToolExecutor Args
  dispatch name arguments none t x = (ok (failure "TOOL_NOT_AVAILABLE" degraded 1), x)
  dispatch name arguments (some tool) t x =
      if tool.is_valid arguments
      then elim (find_breaker tool.dependency x.breakers) [
        | ok breaker ↦ guarded name breaker (tool.handler arguments) t x
        | err e ↦ (err e, x)
      ]
      else (ok (failure "TOOL_ARGUMENT_INVALID" failed 1), x)

  unfoldable pub execute :
      String → Args → Clock → ToolExecutor Args → Outcome ToolResult × ToolExecutor Args
  execute name arguments t x =
      let x' = record x { calls = x.calls + 1 } in
      if ltb max_tool_calls_per_run x'.calls
      then (ok (failure "TOOL_BUDGET_EXCEEDED" failed 1), x')
      else dispatch name arguments (Table.get name x'.tools) t x'
