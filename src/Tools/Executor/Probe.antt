-- ===== src/Tools/Executor/Probe.antt =====
-- A half-open breaker whose probe was cancelled, under any calls of src/energy_agent/tools/executor.py.
use energy_agent_diagnosis.Common.{
  ℕ, zero, suc, ◌+◌, ◌≤◌, ◌<◌, ◌≡◌, ◌≢◌, refl, sym, ap, ◌∙◌, String, Option, none, some, Bool, true,
  List, [], ◌∷◌, arith, truthy, string_eq, if-elim, ltb, nat_eq, inl, inr, Bool-cases, Option-cases,
  ◌==◌, eq_iff,
}
use mathlib.Core.Path.{subst}
use energy_agent_diagnosis.Common.Errors.{Outcome, ok, err, Error, Outcome-cases}
use energy_agent_diagnosis.Common.Table
use energy_agent_diagnosis.Common.Table.{get-modify, get-modify_self}
use energy_agent_diagnosis.Reliability.Breaker.{CircuitBreaker, opened, half_open, allow}
use energy_agent_diagnosis.Reliability.Registry
use energy_agent_diagnosis.Reliability.Registry.{Registry, with_breaker}
use energy_agent_diagnosis.Tools.Executor.{
  Response, returned, timed_out, connection_lost, raised, cancelled, ToolResult, ToolRegistration,
  ToolExecutor, Clock, degraded, failure, counts_as_failure, finish, on_response, attempt_loop,
  guarded, dispatch, execute, on_breaker, find_breaker, default_max_attempts,
  max_tool_calls_per_run,
}
use energy_agent_diagnosis.Tools.Executor.Breaking.{IsGuarded, cancelled_probe}

-- A call of an executor, whose breakers are the shared ones.
pub record SharedCall (Args : Type 0) : Type 0 where
  pub executor : ToolExecutor Args
  pub name : String
  pub arguments : Args
  pub clock : Clock

-- The breaker of a dependency, half-open with its probe under way.
pub record IsProbing (d : String) (breakers : Option Registry) : Type 0 where
  pub registry : Registry
  pub breaker : CircuitBreaker
  pub shared : breakers ≡ some registry
  pub found : Table.get d registry ≡ some breaker
  pub half : breaker.state ≡ half_open
  pub probing : breaker.probe_active ≡ true

-- A call that goes by another dependency's breaker, or by none.
data IsOther (d : String) : Option String → Type 0 where
  by_none : IsOther d none
  by_other : {e : String} → e ≢ d → IsOther d (some e)

module _ {Args : Type 0} where
  -- The shared breakers after the calls of any executors.
  unfoldable pub call_all : List (SharedCall Args) → Option Registry → Option Registry
  call_all [] breakers = breakers
  call_all (c ∷ cs) breakers =
      call_all cs
        (execute c.name c.arguments c.clock (record c.executor { breakers = breakers })).1.breakers

-- While the probe is under way, `allow` refuses and changes nothing.
probing_refused :
    (stamp now : ℕ) (b : CircuitBreaker)
    → b.state ≡ half_open
    → b.probe_active ≡ true
    → allow stamp now b ≡ (err Error.runtime_error, b)
unfolding allow
probing_refused stamp now b half probing = ground arith

find_breaker-row :
    (dependency : Option String) (registry : Registry) (e : String) (b : CircuitBreaker)
    → find_breaker dependency (some registry) ≡ ok (some (e, b))
    → Table.get e registry ≡ some b
unfolding Registry.get
find_breaker-row none registry e b h = absurd (ground (arith, h))
find_breaker-row (some k) registry e b h = elim (Option-cases (Table.get k registry)) [
  | inl gone ↦ absurd (ground (arith, h, gone))
  | inr (b', row) ↦ ground (arith, h, row)
]

module _ {Args : Type 0} (d : String) where
  on_breaker-IsProbing :
      {b : Option String} (f : CircuitBreaker → CircuitBreaker) (x : ToolExecutor Args)
      → IsOther d b
      → IsProbing d x.breakers
      → IsProbing d (on_breaker b f x).breakers
  unfolding on_breaker
  on_breaker-IsProbing f x by_none p = p
  on_breaker-IsProbing f x (by_other {e} other) p =
      let shared = p.shared in
      let found = p.found in
      record {
        registry = with_breaker e f p.registry;
        breaker = p.breaker;
        shared = rw (shared) refl;
        found = ground (arith, found, other, get-modify e d f p.registry, eq_iff e d);
        half = p.half;
        probing = p.probing;
      }

  finish-IsProbing :
      (name : String) {b : Option String} (r : ToolResult) (failed : Bool) (t : ℕ)
      (x : ToolExecutor Args)
      → IsOther d b
      → IsProbing d x.breakers
      → IsProbing d (finish name b r failed t x).1.breakers
  unfolding finish
  finish-IsProbing name r failed t x other p = on_breaker-IsProbing _ (record x { log = _ }) other p

  on_response-IsProbing :
      (name : String) {b : Option String} (t k : ℕ) (again : Outcome ToolResult × ToolExecutor Args)
      (x : ToolExecutor Args) (r : Response)
      → IsOther d b
      → IsProbing d x.breakers
      → IsProbing d again.1.breakers
      → IsProbing d (on_response name b t k again x r).1.breakers
  unfolding on_response
  on_response-IsProbing name t k again x (returned r) other p q =
      finish-IsProbing name _ (counts_as_failure r.status) t x other p
  on_response-IsProbing name {b} t k again x timed_out other p q =
      if-elim (λ (i : Outcome ToolResult × ToolExecutor Args). IsProbing d i.1.breakers)
        (k == default_max_attempts) _ _ (λ _. finish-IsProbing name _ true t x other p) (λ _. q)
  on_response-IsProbing name {b} t k again x connection_lost other p q =
      if-elim (λ (i : Outcome ToolResult × ToolExecutor Args). IsProbing d i.1.breakers)
        (k == default_max_attempts) _ _ (λ _. finish-IsProbing name _ true t x other p) (λ _. q)
  on_response-IsProbing name t k again x raised other p q = finish-IsProbing name _ true t x other p
  on_response-IsProbing name t k again x cancelled other p q = p

  attempt_loop-IsProbing :
      (name : String) {b : Option String} (h : ℕ → Response) (t left k : ℕ) (x : ToolExecutor Args)
      → IsOther d b
      → IsProbing d x.breakers
      → IsProbing d (attempt_loop name b h t left k x).1.breakers
  unfolding attempt_loop
  attempt_loop-IsProbing name h t zero k x other p = p
  attempt_loop-IsProbing name {b} h t (suc left) k x other p =
      on_response-IsProbing name t k (attempt_loop name b h t left (k + 1) x) x (h k) other p
        (attempt_loop-IsProbing name h t left (k + 1) x other p)

  refused-IsProbing :
      (name : String) (b : CircuitBreaker) (h : ℕ → Response) (t : Clock) (x : ToolExecutor Args)
      (p : IsProbing d x.breakers)
      → p.breaker ≡ b
      → ((guarded name (some (d, b)) h t x).0 ≡ ok (failure "CIRCUIT_OPEN" degraded 1))
        × IsProbing d (guarded name (some (d, b)) h t x).1.breakers
  unfolding guarded on_breaker
  refused-IsProbing name b h t x p same =
      let half : b.state ≡ half_open = ap (λ i. i.state) (sym same) ∙ p.half in
      let probing : b.probe_active ≡ true = ap (λ i. i.probe_active) (sym same) ∙ p.probing in
      let refused = probing_refused t.stamp t.now b half probing in
      let left = (allow t.stamp t.now b).1 in
      rw (guarded, refused, p.shared)
        (
          refl,
          record {
            registry = with_breaker d (λ _. left) p.registry;
            breaker = left;
            shared = refl;
            found = get-modify_self d (λ _. left) p.registry p.breaker p.found;
            half = ap (λ i. i.1.state) refused ∙ half;
            probing = ap (λ i. i.1.probe_active) refused ∙ probing;
          },
        )

  guarded-IsProbing :
      (name e : String) (b : CircuitBreaker) (h : ℕ → Response) (t : Clock) (x : ToolExecutor Args)
      (p : IsProbing d x.breakers)
      → Table.get e p.registry ≡ some b
      → IsProbing d (guarded name (some (e, b)) h t x).1.breakers
  unfolding guarded
  guarded-IsProbing name e b h t x p row = elim (Bool-cases (e == d)) [
    | inl same ↦
        let at : e ≡ d = (eq_iff e d).0 same in
        let here : some p.breaker ≡ some b =
          sym p.found ∙ ap (λ i. Table.get i p.registry) (sym at) ∙ row in
        subst (λ i. IsProbing d (guarded name (some (i, b)) h t x).1.breakers) (sym at)
          (refused-IsProbing name b h t x p (ground (arith, here))).1
    | inr differs ↦
        let other : IsOther d (some e) =
          by_other (λ same. ground (arith, differs, same, eq_iff e d)) in
        let allowed = allow t.stamp t.now b in
        let x' = on_breaker (some e) (λ _. allowed.1) x in
        let kept = on_breaker-IsProbing (λ _. allowed.1) x other p in
        elim (Outcome-cases allowed.0) [
          | inl (u, fine) ↦
              rw (guarded, fine)
                (attempt_loop-IsProbing name h t.later default_max_attempts 1 x' other kept)
          | inr (c, refused) ↦ rw (guarded, refused) kept
        ]
  ]

  dispatch-IsProbing :
      (name : String) (a : Args) (tool : Option (ToolRegistration Args)) (t : Clock)
      (x : ToolExecutor Args)
      → IsProbing d x.breakers
      → IsProbing d (dispatch name a tool t x).1.breakers
  unfolding dispatch guarded
  dispatch-IsProbing name a none t x p = p
  dispatch-IsProbing name a (some tool) t x p = elim (Bool-cases (tool.is_valid a)) [
    | inr bad ↦ rw (dispatch, bad) p
    | inl good ↦ elim (Outcome-cases (find_breaker tool.dependency x.breakers)) [
      | inr (c, e) ↦ rw (dispatch, good, e) p
      | inl (none, e) ↦
          rw (dispatch, good, e)
            (attempt_loop-IsProbing name (tool.handler a) t.later default_max_attempts 1 x by_none
              p)
      | inl (some (k, b), e) ↦
          rw (dispatch, good, e)
            (guarded-IsProbing name k b (tool.handler a) t x p (
              find_breaker-row tool.dependency p.registry k b
                (ap (find_breaker tool.dependency) (sym p.shared) ∙ e)))
    ]
  ]

  execute-IsProbing :
      (name : String) (a : Args) (t : Clock) (x : ToolExecutor Args)
      → IsProbing d x.breakers
      → IsProbing d (execute name a t x).1.breakers
  unfolding execute
  execute-IsProbing name a t x p =
      let x' = record x { calls = x.calls + 1 } in
      if-elim (λ (i : Outcome ToolResult × ToolExecutor Args). IsProbing d i.1.breakers)
        (ltb max_tool_calls_per_run x'.calls) _ _ (λ _. p)
        (λ _. dispatch-IsProbing name a (Table.get name x.tools) t x' p)

  call_all-IsProbing :
      (cs : List (SharedCall Args)) (breakers : Option Registry)
      → IsProbing d breakers
      → IsProbing d (call_all cs breakers)
  unfolding call_all
  call_all-IsProbing [] breakers p = p
  call_all-IsProbing (c ∷ cs) breakers p =
      call_all-IsProbing cs _
        (execute-IsProbing c.name c.arguments c.clock (record c.executor { breakers = breakers }) p)

  execute-refused :
      (name : String) (a : Args) (t : Clock) (x : ToolExecutor Args) (tool : ToolRegistration Args)
      → IsProbing d x.breakers
      → truthy d ≡ true
      → x.calls < 8
      → Table.get name x.tools ≡ some tool
      → tool.is_valid a ≡ true
      → tool.dependency ≡ some d
      → (execute name a t x).0 ≡ ok (failure "CIRCUIT_OPEN" degraded 1)
  unfolding execute dispatch Registry.get
  execute-refused name a t x tool p named fits registered good depends =
      let x' = record x { calls = x.calls + 1 } in
      let shared = p.shared in
      let found = p.found in
      let refused = (refused-IsProbing name p.breaker (tool.handler a) t x' p refl).0 in
      ground (arith, named, fits, registered, good, depends, shared, found, refused)

module _ {Args : Type 0} where
  -- A probe of a recovering dependency that is cancelled records no outcome, and the dependency is refused for
  -- good: after any calls of any tools by any executors that share the breakers, whatever their handlers give
  -- and whenever they come, a call within the budget of any tool of the dependency that its arguments fit
  -- gives `CIRCUIT_OPEN`.
  pub cancelled_probe_blocks :
      (name : String) (a : Args) (t : Clock) (x : ToolExecutor Args) (tool : ToolRegistration Args)
      (d : String) (r : Registry) (b : CircuitBreaker) (since : ℕ)
      → x.calls < 8
      → IsGuarded x name a tool d r b
      → b.state ≡ opened
      → b.opened_at ≡ some since
      → since + b.policy.recovery_timeout ≤ t.now
      → tool.handler a 1 ≡ cancelled
      → (cs : List (SharedCall Args)) (name' : String) (a' : Args) (t' : Clock)
        (y : ToolExecutor Args) (tool' : ToolRegistration Args)
      → y.breakers ≡ call_all cs (execute name a t x).1.breakers
      → y.calls < 8
      → Table.get name' y.tools ≡ some tool'
      → tool'.is_valid a' ≡ true
      → tool'.dependency ≡ some d
      → ((execute name a t x).0 ≡ err Error.cancelled)
        × ((execute name' a' t' y).0 ≡ ok (failure "CIRCUIT_OPEN" degraded 1))
  cancelled_probe_blocks name a t x tool d r b since c g s o due h cs name' a' t' y tool' later fits
        registered good depends =
      let probing = record b { state = half_open; gauge = 5; probe_active = true } in
      let (stopped, shared, found) = cancelled_probe name a t x tool d r b since c g s o due h in
      let start : IsProbing d (execute name a t x).1.breakers = record {
        registry = with_breaker d (λ _. probing) r;
        breaker = probing;
        shared = shared;
        found = found;
        half = refl;
        probing = refl;
      } in
      (
        stopped,
        execute-refused d name' a' t' y tool'
            (subst (IsProbing d) (sym later) (call_all-IsProbing d cs _ start)) g.named fits
            registered good depends,
      )
