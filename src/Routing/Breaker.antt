-- ===== src/Routing/Breaker.antt =====
-- src/routing.py: when the circuit breaker is open.
use aieos_agent_harness.Base.{
  ℕ, suc, ◌+◌, ◌≤◌, ◌<◌, String, ◌≡◌, ◌↔◌, true, false, none, some, if◌then◌else◌, List, [], ◌∷◌,
  leb, string_eq, arith,
}
use aieos_agent_harness.Base.Dict
use aieos_agent_harness.Base.Dict.{get-insert, get-erase}
use aieos_agent_harness.Base.Lists.{length}
use aieos_agent_harness.Routing.{
  CircuitBreaker, failure_count, record_failure, record_success, is_open,
}

-- The breaker after failures at these times, the latest first.
unfoldable pub failures_at : String → List ℕ → CircuitBreaker → CircuitBreaker
failures_at provider [] cb = cb
failures_at provider (t ∷ ts) cb = record_failure provider t (failures_at provider ts cb)

limits-kept :
    (p : String) (ts : List ℕ) (cb : CircuitBreaker)
    → ((failures_at p ts cb).max ≡ cb.max)
      × ((failures_at p ts cb).reset_seconds ≡ cb.reset_seconds)
unfolding failures_at record_failure
limits-kept p [] cb = ground arith
limits-kept p (t ∷ ts) cb = ground (arith, limits-kept p ts cb)

record_failure-count :
    (p : String) (t : ℕ) (cb : CircuitBreaker)
    → failure_count p (record_failure p t cb) ≡ suc (failure_count p cb)
unfolding record_failure failure_count Dict.get_or
record_failure-count p t cb = ground (arith, get-insert p p (suc (failure_count p cb)) cb.failures)

record_failure-open :
    (p : String) (t : ℕ) (cb : CircuitBreaker)
    → Dict.get (record_failure p t cb).open_since p
      ≡ (if leb cb.max (suc (failure_count p cb)) then some t else Dict.get cb.open_since p)
unfolding record_failure
record_failure-open p t cb = ground (arith, get-insert p p t cb.open_since)

failures-counted :
    (p : String) (ts : List ℕ) (cb : CircuitBreaker)
    → failure_count p cb ≡ 0
    → failure_count p (failures_at p ts cb) ≡ length ts
unfolding failures_at
failures-counted p [] cb z = z
failures-counted p (t ∷ ts) cb z =
    ground (arith, failures-counted p ts cb z, record_failure-count p t (failures_at p ts cb))

opened_at :
    (p : String) (t : ℕ) (ts : List ℕ) (cb : CircuitBreaker)
    → failure_count p cb ≡ 0
    → Dict.get cb.open_since p ≡ none
    → Dict.get (failures_at p (t ∷ ts) cb).open_since p
      ≡ (if leb cb.max (suc (length ts)) then some t else none)
unfolding failures_at
opened_at p t [] cb z shut = ground (arith, record_failure-open p t cb)
opened_at p t (s ∷ ts) cb z shut = ground (
  arith,
  record_failure-open p t (failures_at p (s ∷ ts) cb),
  opened_at p s ts cb z shut,
  failures-counted p (s ∷ ts) cb z,
  limits-kept p (s ∷ ts) cb,
)

-- A provider with no failures on record that then fails at one or more times is refused exactly
-- when the failures have reached the maximum and the reset period since the latest has not passed.
pub opens_iff :
    (p : String) (t : ℕ) (ts : List ℕ) (cb : CircuitBreaker) (now : ℕ)
    → failure_count p cb ≡ 0
    → Dict.get cb.open_since p ≡ none
    → ((is_open p now (failures_at p (t ∷ ts) cb)).0 ≡ true)
      ↔ ((cb.max ≤ suc (length ts)) × (now < t + cb.reset_seconds))
unfolding is_open
opens_iff p t ts cb now z shut = (
  λ h. ground (arith, opened_at p t ts cb z shut, limits-kept p (t ∷ ts) cb),
  λ h. ground (arith, opened_at p t ts cb z shut, limits-kept p (t ∷ ts) cb),
)

-- `is_open` refuses a provider and leaves the breaker as it is, or lets it through, and then the
-- breaker has no record of an opening of the provider.
pub is_open-half :
    (p : String) (now : ℕ) (cb : CircuitBreaker)
    → let (opened, cb') = is_open p now cb in
      (opened ≡ true → cb' ≡ cb) × (opened ≡ false → Dict.get cb'.open_since p ≡ none)
unfolding is_open record_success
is_open-half p now cb = (ground arith, ground (arith, get-erase p p cb.open_since))
