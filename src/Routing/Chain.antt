-- ===== src/Routing/Chain.antt =====
-- src/routing.py: which adapter answers, in `_fallback` and in `_cost_aware`.
use aieos_agent_harness.Base.{
  ℕ, String, ◌<>◌, ◌≡◌, refl, ap, inl, inr, true, false, Bool-cases, List, [], ◌∷◌, ◌++◌, arith,
}
use aieos_agent_harness.Models.{AgentRequest, AgentResponse}
use aieos_agent_harness.Adapter.{Outcome, ok, err, Adapter, Outcome-cases}
use aieos_agent_harness.Routing.{
  CircuitBreaker, record_failure, record_success, is_open, RoutingError, all_failed, attempts,
}

module _ {W : Type 0} (clock : W → ℕ) (request : AgentRequest) where
  -- The chain went past these adapters, from one state to the other: a breaker was open and the
  -- adapter was not called, or the call failed and the breaker recorded it.
  pub data Passed : List (Adapter W) → CircuitBreaker → W → CircuitBreaker → W → Type 0 where
    none_left : (cb : CircuitBreaker) (w : W) → Passed [] cb w cb w
    skipped :
        (a : Adapter W) (rest : List (Adapter W)) (cb cb1 cb' : CircuitBreaker) (w w' : W)
        → is_open a.provider_name (clock w) cb ≡ (true, cb1)
        → Passed rest cb1 w cb' w'
        → Passed (a ∷ rest) cb w cb' w'
    failed :
        (a : Adapter W) (rest : List (Adapter W)) (cb cb1 cb' : CircuitBreaker) (w w1 w' : W)
        (exc : String)
        → is_open a.provider_name (clock w) cb ≡ (false, cb1)
        → a.invoke request w ≡ (err exc, w1)
        → Passed rest (record_failure a.provider_name (clock w1) cb1) w1 cb' w'
        → Passed (a ∷ rest) cb w cb' w'

  -- The chain stopped at an adapter that it let through and that answered, behind those it went
  -- past, and the breaker recorded the success.
  pub record IsAnswered (adapters : List (Adapter W)) (cb : CircuitBreaker) (w : W)
      (response : AgentResponse) (cb' : CircuitBreaker) (w' : W) : Type 0 where
    pub before : List (Adapter W)
    pub chosen : Adapter W
    pub after : List (Adapter W)
    pub at : CircuitBreaker
    pub open_at : CircuitBreaker
    pub world_at : W
    pub parts : adapters ≡ before ++ chosen ∷ after
    pub passed : Passed before cb w at world_at
    pub shut : is_open chosen.provider_name (clock world_at) at ≡ (false, open_at)
    pub answered : chosen.invoke request world_at ≡ (ok response, w')
    pub recorded : cb' ≡ record_success chosen.provider_name open_at

  -- What the whole chain did: an adapter answered, or all were passed.
  pub data Routed (adapters : List (Adapter W)) (cb : CircuitBreaker) (w : W)
      : Outcome RoutingError AgentResponse → CircuitBreaker → W → Type 0 where
    answer :
        (response : AgentResponse) (cb' : CircuitBreaker) (w' : W)
        → IsAnswered adapters cb w response cb' w'
        → Routed adapters cb w (ok response) cb' w'
    exhausted :
        (errors : List String) (cb' : CircuitBreaker) (w' : W)
        → Passed adapters cb w cb' w'
        → Routed adapters cb w (err (all_failed errors)) cb' w'

  routed-skip :
      (a : Adapter W) (rest : List (Adapter W)) (cb cb1 : CircuitBreaker) (w : W)
      (o : Outcome RoutingError AgentResponse) (cb' : CircuitBreaker) (w' : W)
      → is_open a.provider_name (clock w) cb ≡ (true, cb1)
      → Routed rest cb1 w o cb' w'
      → Routed (a ∷ rest) cb w o cb' w'
  routed-skip a rest cb cb1 w _ cb' w' opened (answer response _ _ r) =
      answer response cb' w' (record {
        before = a ∷ r.before;
        chosen = r.chosen;
        after = r.after;
        at = r.at;
        open_at = r.open_at;
        world_at = r.world_at;
        parts = ground (arith, r.parts);
        passed = skipped a r.before cb cb1 r.at w r.world_at opened r.passed;
        shut = r.shut;
        answered = r.answered;
        recorded = r.recorded;
      })
  routed-skip a rest cb cb1 w _ cb' w' opened (exhausted errors _ _ p) =
      exhausted errors cb' w' (skipped a rest cb cb1 cb' w w' opened p)

  routed-fail :
      (a : Adapter W) (rest : List (Adapter W)) (cb cb1 : CircuitBreaker) (w w1 : W) (exc : String)
      (o : Outcome RoutingError AgentResponse) (cb' : CircuitBreaker) (w' : W)
      → is_open a.provider_name (clock w) cb ≡ (false, cb1)
      → a.invoke request w ≡ (err exc, w1)
      → Routed rest (record_failure a.provider_name (clock w1) cb1) w1 o cb' w'
      → Routed (a ∷ rest) cb w o cb' w'
  routed-fail a rest cb cb1 w w1 exc _ cb' w' shut raised (answer response _ _ r) =
      answer response cb' w' (record {
        before = a ∷ r.before;
        chosen = r.chosen;
        after = r.after;
        at = r.at;
        open_at = r.open_at;
        world_at = r.world_at;
        parts = ground (arith, r.parts);
        passed = failed a r.before cb cb1 r.at w w1 r.world_at exc shut raised r.passed;
        shut = r.shut;
        answered = r.answered;
        recorded = r.recorded;
      })
  routed-fail a rest cb cb1 w w1 exc _ cb' w' shut raised (exhausted errors _ _ p) =
      exhausted errors cb' w' (failed a rest cb cb1 cb' w w1 w' exc shut raised p)

  -- The chain calls the adapters in order: it skips those whose breaker is open, records each
  -- failure, stops at the first success and records it, and raises only when all were passed.
  pub attempts-Routed :
      (adapters : List (Adapter W)) (errors : List String) (cb : CircuitBreaker) (w : W)
      → let (o, cb', w') = attempts clock adapters request errors (cb, w) in
        Routed adapters cb w o cb' w'
  unfolding attempts
  attempts-Routed [] errors cb w = exhausted errors cb w (none_left cb w)
  attempts-Routed (a ∷ rest) errors cb w =
      let cb1 : CircuitBreaker = (is_open a.provider_name (clock w) cb).1 in
      let w1 : W = (a.invoke request w).1 in
      elim (Bool-cases (is_open a.provider_name (clock w) cb).0) [
        | inl e ↦
            rw (e, attempts)
              (routed-skip a rest cb cb1 w _ _ _ (ap (λ b. (b, cb1)) e) (
                attempts-Routed rest (errors ++ (a.provider_name <> ": circuit breaker open") ∷ [])
                  cb1 w))
        | inr e ↦ elim (Outcome-cases (a.invoke request w).0) [
          | inl (response, f) ↦
              rw (e, f, attempts)
                (answer response _ _ (record {
                  before = [];
                  chosen = a;
                  after = rest;
                  at = cb;
                  open_at = cb1;
                  world_at = w;
                  parts = refl;
                  passed = none_left cb w;
                  shut = ap (λ b. (b, cb1)) e;
                  answered = ap (λ o. (o, w1)) f;
                  recorded = refl;
                }))
          | inr (exc, f) ↦
              rw (e, f, attempts)
                (routed-fail a rest cb cb1 w w1 exc _ _ _ (ap (λ b. (b, cb1)) e)
                  (ap (λ o. (o, w1)) f)
                  (attempts-Routed rest (errors ++ (a.provider_name <> ": " <> exc) ∷ [])
                    (record_failure a.provider_name (clock w1) cb1) w1))
        ]
      ]
