-- ===== src/Reliability/Breaker/Recovery.antt =====
-- The refusals, probes and recovery of a breaker of src/energy_agent/reliability/circuit_breaker.py.
use energy_agent_diagnosis.Common.{
  ℕ, ◌+◌, ◌≡◌, ◌<◌, refl, Bool, true, false, some, String, arith, List, [], ◌∷◌, ltb, leb, length,
  ◌∙◌, if◌then◌else◌,
}
use energy_agent_diagnosis.Common.Errors.{ok, err, Error}
use energy_agent_diagnosis.Reliability.Breaker.{
  CircuitBreaker, CircuitBreakerPolicy, closed, opened, half_open, new, allow, record_success,
  record_failure,
}

-- An open breaker refuses exactly while the clock is before its opening time plus the recovery
-- timeout, and is then left as it was; from then on it lets one call through as a probe, in the
-- half-open state.
pub allow_opened :
    (b : CircuitBreaker) (stamp now since : ℕ)
    → b.state ≡ opened
    → b.opened_at ≡ some since
    → allow stamp now b ≡ (
        if ltb now (since + b.policy.recovery_timeout)
        then (err Error.runtime_error, b)
        else (ok tt, record b { state = half_open; gauge = 5; probe_active = true }))
unfolding allow
allow_opened b stamp now since s o = ground arith

-- The probes that a client may ask for while one is under way, each with its clock readings.
unfoldable pub ask : List (ℕ × ℕ) → CircuitBreaker → List Bool × CircuitBreaker
ask [] b = ([], b)
ask ((stamp, now) ∷ ts) b =
    let (r, b') = allow stamp now b in
    let (rs, b'') = ask ts b' in (elim r [ ok _ ↦ true ∷ rs | err _ ↦ false ∷ rs ], b'')

abbrev pub refusals : List (ℕ × ℕ) → List Bool
refusals [] = []
refusals (t ∷ ts) = false ∷ refusals ts

-- While a half-open probe is under way every other call is refused, however late it comes, and the
-- breaker does not change.
probe_exclusive :
    (ts : List (ℕ × ℕ)) (b : CircuitBreaker)
    → b.state ≡ half_open
    → b.probe_active ≡ true
    → ask ts b ≡ (refusals ts, b)
unfolding ask allow
probe_exclusive [] b s p = refl
probe_exclusive ((stamp, now) ∷ ts) b s p = ground (arith, probe_exclusive ts b s p)

-- A recorded outcome ends the half-open state: a success closes the breaker, with no failures and
-- the next call let through; a failure opens it again from the time of the failure.
pub half_open_outcome :
    (b : CircuitBreaker) (stamp now later : ℕ)
    → b.state ≡ half_open
    → ((record_success b).state ≡ closed)
      × ((record_success b).failure_count ≡ 0)
      × (allow stamp later (record_success b) ≡ (ok tt, record_success b))
      × ((record_failure true now b).state ≡ opened)
      × ((record_failure true now b).opened_at ≡ some now)
unfolding allow record_success record_failure
half_open_outcome b stamp now later s = ground arith

-- Failures that are recorded one after another, at the given times.
unfoldable pub fail_at : List ℕ → CircuitBreaker → CircuitBreaker
fail_at [] b = b
fail_at (t ∷ ts) b = fail_at ts (record_failure true t b)

abbrev pub ByCount : CircuitBreaker → Type 0
ByCount b = b.state ≡ (if leb b.policy.failure_threshold b.failure_count then opened else closed)

record_failure-ByCount :
    (t : ℕ) (b : CircuitBreaker)
    → ByCount b
    → ByCount (record_failure true t b)
      × ((record_failure true t b).failure_count ≡ b.failure_count + 1)
      × ((record_failure true t b).policy ≡ b.policy)
unfolding record_failure
record_failure-ByCount t b h = ground arith

fail_at-ByCount :
    (ts : List ℕ) (b : CircuitBreaker)
    → ByCount b
    → ByCount (fail_at ts b)
      × ((fail_at ts b).failure_count ≡ b.failure_count + length ts)
      × ((fail_at ts b).policy ≡ b.policy)
unfolding fail_at
fail_at-ByCount [] b h = (h, omega arith, refl)
fail_at-ByCount (t ∷ ts) b h =
    let (k, n, p) = record_failure-ByCount t b h in
    let (k', n', p') = fail_at-ByCount ts (record_failure true t b) k in
    (k', omega (arith, n, n'), p' ∙ p)

-- A new breaker with a positive threshold that sees failures only is open exactly when there have
-- been at least as many as its threshold, and is closed before.
pub opens_at_threshold :
    (ts : List ℕ) (name : String) (p : CircuitBreakerPolicy)
    → 0 < p.failure_threshold
    → (fail_at ts (new name p)).state
      ≡ (if leb p.failure_threshold (length ts) then opened else closed)
unfolding new
opens_at_threshold ts name p h = ground (arith, fail_at-ByCount ts (new name p) (ground arith))
