-- ===== src/Tools/Executor/Budget.antt =====
-- The tool calls of one run (src/energy_agent/tools/executor.py).
use energy_agent_diagnosis.Common.{
  ℕ, zero, suc, ◌+◌, ◌-◌, ◌≤◌, ◌≡◌, refl, String, Option, none, some, List, [], ◌∷◌, arith, length,
  length-append, Bool, inl, inr, ltb, true, if◌then◌else◌,
}
use energy_agent_diagnosis.Common.Errors.{Outcome, Outcome-cases}
use energy_agent_diagnosis.Common.Table
use energy_agent_diagnosis.Tools.Executor.{
  Response, returned, timed_out, connection_lost, raised, cancelled, ToolResult, ToolRegistration,
  ToolExecutor, Clock, timeout, degraded, on_response, failure, finish, attempt_loop, guarded,
  default_max_attempts, dispatch, execute, on_breaker, max_tool_calls_per_run, find_breaker,
}
use energy_agent_diagnosis.Reliability.Breaker
use energy_agent_diagnosis.Reliability.Breaker.{CircuitBreaker}

module _ {Args : Type 0} where
  log-on_breaker :
      (b : Option String) (f : CircuitBreaker → CircuitBreaker) (x : ToolExecutor Args)
      → (on_breaker b f x).log ≡ x.log
  unfolding on_breaker
  log-on_breaker none f x = refl
  log-on_breaker (some d) f x = refl

  calls-on_breaker :
      (b : Option String) (f : CircuitBreaker → CircuitBreaker) (x : ToolExecutor Args)
      → (on_breaker b f x).calls ≡ x.calls
  unfolding on_breaker
  calls-on_breaker none f x = refl
  calls-on_breaker (some d) f x = refl

  abbrev OneMore : ToolExecutor Args → ToolExecutor Args → Type 0
  OneMore x y = (length y.log ≤ length x.log + 1) × (y.calls ≡ x.calls)

  finish_log :
      (name : String) (b : Option String) (r : ToolResult) (f : Bool) (t : ℕ)
      (x : ToolExecutor Args)
      → OneMore x (finish name b r f t x).1
  unfolding finish on_breaker
  finish_log name none r f t x = (omega (arith, length-append x.log ((name, r) ∷ [])), refl)
  finish_log name (some d) r f t x = (omega (arith, length-append x.log ((name, r) ∷ [])), refl)

  on_response_log :
      (name : String) (b : Option String) (t k : ℕ) (again : Outcome ToolResult × ToolExecutor Args)
      (x : ToolExecutor Args) (r : Response)
      → OneMore x again.1
      → OneMore x (on_response name b t k again x r).1
  unfolding on_response
  on_response_log name b t k again x (returned r) h = finish_log name b _ _ t x
  on_response_log name b t k again x timed_out h =
      ground (arith, finish_log name b (failure "TOOL_TIMEOUT" timeout k) true t x)
  on_response_log name b t k again x connection_lost h =
      ground (arith, finish_log name b (failure "TOOL_TIMEOUT" degraded k) true t x)
  on_response_log name b t k again x raised h = finish_log name b _ _ t x
  on_response_log name b t k again x cancelled h = (omega arith, refl)

  attempt_loop_log :
      (name : String) (b : Option String) (h : ℕ → Response) (t left k : ℕ) (x : ToolExecutor Args)
      → OneMore x (attempt_loop name b h t left k x).1
  unfolding attempt_loop
  attempt_loop_log name b h t zero k x = (omega arith, refl)
  attempt_loop_log name b h t (suc left) k x =
      unfold attempt_loop in
      on_response_log name b t k (attempt_loop name b h t left (k + 1) x) x (h k)
        (attempt_loop_log name b h t left (k + 1) x)

  guarded_log :
      (name : String) (b : Option (String × CircuitBreaker)) (h : ℕ → Response) (t : Clock)
      (x : ToolExecutor Args)
      → OneMore x (guarded name b h t x).1
  unfolding guarded
  guarded_log name none h t x = attempt_loop_log name none h t.later default_max_attempts 1 x
  guarded_log name (some (d, b)) h t x =
      let x' = on_breaker (some d) (λ _. (Breaker.allow t.stamp t.now b).1) x in
      ground (
        arith,
        attempt_loop_log name (some d) h t.later default_max_attempts 1 x',
        log-on_breaker (some d) (λ _. (Breaker.allow t.stamp t.now b).1) x,
        calls-on_breaker (some d) (λ _. (Breaker.allow t.stamp t.now b).1) x,
      )

  dispatch_log :
      (name : String) (a : Args) (tool : Option (ToolRegistration Args)) (t : Clock)
      (x : ToolExecutor Args)
      → OneMore x (dispatch name a tool t x).1
  unfolding dispatch
  dispatch_log name a none t x = (omega arith, refl)
  dispatch_log name a (some tool) t x =
      elim (Outcome-cases (find_breaker tool.dependency x.breakers)) [
        | inl (b, e) ↦ rw e (ground (arith, guarded_log name b (tool.handler a) t x))
        | inr (c, e) ↦ rw e (ground arith)
      ]

  -- One call counts one, and logs one result at most; past the budget it logs none.
  execute_log :
      (name : String) (a : Args) (t : Clock) (x : ToolExecutor Args)
      → ((execute name a t x).1.calls ≡ x.calls + 1)
        × (length (execute name a t x).1.log
            ≤ length x.log + (if ltb x.calls max_tool_calls_per_run then 1 else 0))
  unfolding execute
  execute_log name a t x =
      let x' = record x { calls = x.calls + 1 } in
      ground (arith, dispatch_log name a (Table.get name x.tools) t x')

-- A request of a tool, and the calls of a run, in order.
abbrev pub Request : Type 0 → Type 0
Request Args = String × Args × Clock

module _ {Args : Type 0} where
  unfoldable pub run : List (Request Args) → ToolExecutor Args → ToolExecutor Args
  run [] x = x
  run ((name, a, t) ∷ rs) x = run rs (execute name a t x).1

  -- Calls over the budget log nothing, so the budget that is left bounds what a run logs.
  log-run :
      (rs : List (Request Args)) (x : ToolExecutor Args)
      → length (run rs x).log ≤ length x.log + (max_tool_calls_per_run - x.calls)
  unfolding run
  log-run [] x = omega arith
  log-run ((name, a, t) ∷ rs) x =
      ground (arith, execute_log name a t x, log-run rs (execute name a t x).1)

  calls-run :
      (rs : List (Request Args)) (x : ToolExecutor Args) → (run rs x).calls ≡ x.calls + length rs
  unfolding run
  calls-run [] x = omega arith
  calls-run ((name, a, t) ∷ rs) x =
      omega (arith, execute_log name a t x, calls-run rs (execute name a t x).1)

  -- A run that starts with no calls made and an empty log hands at most eight results to the tool
  -- logger, however many tools are asked for, and counts every request.
  pub run_budget :
      (rs : List (Request Args)) (x : ToolExecutor Args)
      → x.calls ≡ 0
      → x.log ≡ []
      → (length (run rs x).log ≤ 8) × ((run rs x).calls ≡ length rs)
  run_budget rs x c l = (ground (arith, log-run rs x), omega (arith, calls-run rs x))
