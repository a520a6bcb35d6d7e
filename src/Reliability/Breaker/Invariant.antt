-- ===== src/Reliability/Breaker/Invariant.antt =====
-- The state of a breaker of src/energy_agent/reliability/circuit_breaker.py between two calls.
use energy_agent_diagnosis.Common.{
  ℕ, ◌≡◌, ◌<◌, refl, Bool, true, false, none, is_some, String, arith, List, [], ◌∷◌,
}
use energy_agent_diagnosis.Reliability.Breaker
use energy_agent_diagnosis.Reliability.Breaker.{
  CircuitBreaker, CircuitBreakerPolicy, closed, opened, half_open, published, new, record_success,
  record_failure,
}

pub record IsValid (b : CircuitBreaker) : Type 0 where
  pub gauge_current : b.gauge ≡ published b.state
  pub closed_below : b.state ≡ closed → b.failure_count < b.policy.failure_threshold
  pub closed_unstamped : b.state ≡ closed → b.opened_at ≡ none
  pub opened_stamped : b.state ≡ opened → is_some b.opened_at ≡ true
  pub probe_half_open : b.probe_active ≡ true → b.state ≡ half_open

-- A call that a client makes of a breaker.
pub data Call : Type 0 where
  allow : ℕ → ℕ → Call
  success : Call
  failure : Bool → ℕ → Call

unfoldable pub apply : Call → CircuitBreaker → CircuitBreaker
apply (allow stamp now) b = (Breaker.allow stamp now b).1
apply success b = record_success b
apply (failure countable now) b = record_failure countable now b

unfoldable pub apply_all : List Call → CircuitBreaker → CircuitBreaker
apply_all [] b = b
apply_all (c ∷ cs) b = apply_all cs (apply c b)

pub new-IsValid :
    (name : String) (p : CircuitBreakerPolicy) → 0 < p.failure_threshold → IsValid (new name p)
unfolding new
new-IsValid name p h = ground arith

allow-IsValid : (s n : ℕ) (b : CircuitBreaker) → IsValid b → IsValid (Breaker.allow s n b).1
unfolding Breaker.allow
allow-IsValid s n b h = ground arith

record_success-IsValid :
    (b : CircuitBreaker) → 0 < b.policy.failure_threshold → IsValid (record_success b)
unfolding record_success
record_success-IsValid b h = ground arith

record_failure-IsValid :
    (c : Bool) (n : ℕ) (b : CircuitBreaker) → IsValid b → IsValid (record_failure c n b)
unfolding record_failure
record_failure-IsValid false n b h = ground arith
record_failure-IsValid true n b h = ground arith

policy-apply : (c : Call) (b : CircuitBreaker) → (apply c b).policy ≡ b.policy
unfolding apply Breaker.allow record_success record_failure
policy-apply (allow s n) b = ground arith
policy-apply success b = refl
policy-apply (failure false n) b = refl
policy-apply (failure true n) b = ground arith

apply-IsValid :
    (c : Call) (b : CircuitBreaker)
    → 0 < b.policy.failure_threshold
    → IsValid b
    → IsValid (apply c b)
unfolding apply
apply-IsValid (allow s n) b t h = allow-IsValid s n b h
apply-IsValid success b t h = record_success-IsValid b t
apply-IsValid (failure c n) b t h = record_failure-IsValid c n b h

apply_all_from :
    (cs : List Call) (b : CircuitBreaker)
    → 0 < b.policy.failure_threshold
    → IsValid b
    → IsValid (apply_all cs b)
unfolding apply_all
apply_all_from [] b t h = h
apply_all_from (c ∷ cs) b t h =
    apply_all_from cs (apply c b) (ground (arith, policy-apply c b)) (apply-IsValid c b t h)

-- A breaker that starts with a positive threshold and takes any calls at any times has its gauge at
-- its state; when closed it has fewer failures than the threshold and no opening time; when open it
-- has an opening time; and a probe is under way only in the half-open state.
pub apply_all-IsValid :
    (cs : List Call) (name : String) (p : CircuitBreakerPolicy)
    → 0 < p.failure_threshold
    → IsValid (apply_all cs (new name p))
unfolding new
apply_all-IsValid cs name p h = apply_all_from cs (new name p) h (new-IsValid name p h)
