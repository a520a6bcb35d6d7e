-- ===== src/Reliability/Registry.antt =====
-- src/energy_agent/reliability/registry.py: one breaker for each dependency. The breakers are shared
-- objects: a call on one is an update of the registry under its name.
use energy_agent_diagnosis.Common.{
  ◌≡◌, ◌≢◌, refl, String, Option, none, some, List, [], ◌∷◌, arith, eq_iff, contains, string_eq,
  if◌then◌else◌,
}
use energy_agent_diagnosis.Common.Errors.{Outcome, ok, err, Error}
use energy_agent_diagnosis.Common.Table
use energy_agent_diagnosis.Common.Table.{Table, get-modify}
use energy_agent_diagnosis.Reliability.Breaker.{CircuitBreaker, CircuitBreakerPolicy, new}

abbrev pub dependencies : List String
dependencies =
    "model" ∷ "influxdb" ∷ "embedding" ∷ "milvus" ∷ "reranker" ∷ "neo4j" ∷ "rabbitmq" ∷ []

abbrev pub Registry : Type 0
Registry = Table CircuitBreaker

breakers_for : List String → CircuitBreakerPolicy → Registry
breakers_for [] p = []
breakers_for (n ∷ ns) p = (n, new n p) ∷ breakers_for ns p

unfoldable pub registry : CircuitBreakerPolicy → Registry
unfolding breakers_for
registry p = breakers_for dependencies p

unfoldable pub or_unsupported : Option CircuitBreaker → Outcome CircuitBreaker
or_unsupported none = err Error.value_error
or_unsupported (some b) = ok b

-- `CircuitBreakerRegistry.get`
unfoldable pub get : Registry → String → Outcome CircuitBreaker
unfolding or_unsupported
get r dependency = or_unsupported (Table.get dependency r)

-- A call on the breaker of one dependency, seen in the registry that holds it.
abbrev pub with_breaker : String → (CircuitBreaker → CircuitBreaker) → Registry → Registry
with_breaker dependency f r = Table.modify dependency f r

get-breakers_for :
    (ns : List String) (p : CircuitBreakerPolicy) (d : String)
    → Table.get d (breakers_for ns p) ≡ (if contains ns d then some (new d p) else none)
unfolding breakers_for Table.get
get-breakers_for [] p d = refl
get-breakers_for (n ∷ ns) p d = ground (arith, eq_iff n d, get-breakers_for ns p d)

-- A new registry has a new breaker of its policy for each of the seven dependencies, and refuses
-- every other name.
pub get-registry :
    (p : CircuitBreakerPolicy) (d : String)
    → get (registry p) d ≡ (if contains dependencies d then ok (new d p) else err Error.value_error)
unfolding registry get
get-registry p d = rw (get-breakers_for dependencies p d) (ground arith)

-- A call on the breaker of one dependency leaves the breakers of the others as they were.
pub with_breaker_other :
    (r : Registry) (d e : String) (f : CircuitBreaker → CircuitBreaker)
    → d ≢ e
    → get (with_breaker d f r) e ≡ get r e
unfolding get
with_breaker_other r d e f h = rw get-modify (ground (arith, eq_iff d e))
