-- ===== src/Reliability/Breaker.antt =====
-- src/energy_agent/reliability/circuit_breaker.py, contracts.py and policies.py. A time is a reading
-- of the clock in whole ticks, and a method takes the readings that it makes. The gauge is in tenths.
pub mod Invariant
pub mod Recovery
use energy_agent_diagnosis.Common.{
  ℕ, ◌+◌, String, Option, none, some, Bool, true, false, ◌||◌, ltb, leb, if◌then◌else◌,
}
use energy_agent_diagnosis.Common.Errors.{Outcome, ok, err, Error}

pub data CircuitState : Type 0 where
  closed opened half_open : CircuitState

pub record CircuitBreakerPolicy : Type 0 where
  pub failure_threshold : ℕ
  pub recovery_timeout : ℕ

pub record CircuitBreaker : Type 0 where
  pub dependency : String
  pub policy : CircuitBreakerPolicy
  pub state : CircuitState
  pub failure_count : ℕ
  pub opened_at : Option ℕ
  pub probe_active : Bool
  pub gauge : ℕ

-- The value that `_publish_state` gives the gauge.
abbrev pub published : CircuitState → ℕ
published closed = 0
published half_open = 5
published opened = 10

abbrev publish_state : CircuitBreaker → CircuitBreaker
publish_state b = record b { gauge = published b.state }

abbrev pub default_policy : CircuitBreakerPolicy
default_policy = record { failure_threshold = 3; recovery_timeout = 30 }

unfoldable pub new : String → CircuitBreakerPolicy → CircuitBreaker
new dependency policy = record {
  dependency = dependency;
  policy = policy;
  state = closed;
  failure_count = 0;
  opened_at = none;
  probe_active = false;
  gauge = 0;
}

-- The last test of `allow`, and the mark that a probe is under way.
take_probe : CircuitBreaker → Outcome (Unit {0}) × CircuitBreaker
take_probe b =
    if b.probe_active
    then (err Error.runtime_error, b)
    else (ok tt, record b { probe_active = true })

-- `allow` in the open state, once `opened_at` is set.
after_timeout : ℕ → ℕ → CircuitBreaker → Outcome (Unit {0}) × CircuitBreaker
unfolding take_probe
after_timeout since now b =
    if ltb now (since + b.policy.recovery_timeout)
    then (err Error.runtime_error, b)
    else take_probe
        (record b { state = half_open; gauge = published half_open; probe_active = false })

-- `allow` by the state: `stamp` is the reading that an unset `opened_at` takes, `now` the next one.
allow_in : CircuitState → ℕ → ℕ → CircuitBreaker → Outcome (Unit {0}) × CircuitBreaker
unfolding after_timeout
allow_in closed stamp now b = (ok tt, b)
allow_in opened stamp now b = elim b.opened_at [
  | none ↦ after_timeout stamp now (record b { opened_at = some stamp })
  | some since ↦ after_timeout since now b
]
allow_in half_open stamp now b = take_probe b

unfoldable pub allow : ℕ → ℕ → CircuitBreaker → Outcome (Unit {0}) × CircuitBreaker
unfolding allow_in take_probe
allow stamp now b = allow_in b.state stamp now b

unfoldable pub record_success : CircuitBreaker → CircuitBreaker
record_success b =
    publish_state
      (record b { state = closed; failure_count = 0; opened_at = none; probe_active = false })

abbrev pub is_half_open : CircuitState → Bool
is_half_open half_open = true
is_half_open _ = false

unfoldable pub record_failure : Bool → ℕ → CircuitBreaker → CircuitBreaker
record_failure false now b = record b { probe_active = false }
record_failure true now b =
    let n = b.failure_count + 1 in
    publish_state (
      if is_half_open b.state || leb b.policy.failure_threshold n
      then record b {
        failure_count = n;
        state = opened;
        opened_at = some now;
        probe_active = false;
      }
      else record b { failure_count = n; probe_active = false })
