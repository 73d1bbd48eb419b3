-- ===== src/Routing.antt =====
-- src/routing.py: `CircuitBreaker` and `RoutingEngine`. A clock reading and a cost are natural
-- numbers; the world of the adapters also holds the clock, which `clock` reads. A threshold is in
-- hundredths, and a quotient of two lengths is compared by cross-multiplying.
pub mod Breaker
pub mod Chain
pub mod Costs
pub mod Consensus
pub mod Pipeline
mod Tests
use aieos_agent_harness.Base.{
  ℕ, zero, suc, string_eq, ◌+◌, ◌*◌, ◌/◌, ◌-◌, String, ◌<>◌, Bool, true, false, Option, none, some,
  List, [], ◌∷◌, ◌++◌, map, ltb, leb, eqb, if◌then◌else◌,
}
use aieos_agent_harness.Base.Dict
use aieos_agent_harness.Base.Dict.{Dict}
use aieos_agent_harness.Base.Lists.{length, count_if}
use aieos_agent_harness.Models.{
  AgentRequest, AgentResponse, RoutingStrategy, parallel_consensus, pipeline, fallback, cost_aware,
}
use aieos_agent_harness.Adapter.{Outcome, ok, err, Adapter}

-- `_failures`, `_open_since`, `_max` and `_reset_seconds`.
pub record CircuitBreaker : Type 0 where
  pub failures : Dict String ℕ
  pub open_since : Dict String ℕ
  pub max : ℕ
  pub reset_seconds : ℕ

unfoldable pub failure_count : String → CircuitBreaker → ℕ
failure_count provider cb = Dict.get_or cb.failures provider 0

unfoldable pub record_failure : String → (now : ℕ) → CircuitBreaker → CircuitBreaker
record_failure provider now cb =
    let n = suc (failure_count provider cb) in
    let failures' = Dict.insert provider n cb.failures in
    if leb cb.max n
    then record cb { failures = failures'; open_since = Dict.insert provider now cb.open_since }
    else record cb { failures = failures' }

unfoldable pub record_success : String → CircuitBreaker → CircuitBreaker
record_success provider cb = record cb {
  failures = Dict.erase provider cb.failures;
  open_since = Dict.erase provider cb.open_since;
}

-- `is_open` closes a breaker whose reset period has passed.
unfoldable pub is_open : String → (now : ℕ) → CircuitBreaker → Bool × CircuitBreaker
unfolding record_success
is_open provider now cb = elim (Dict.get cb.open_since provider) [
  | none ↦ (false, cb)
  | some opened_at ↦
      if leb (opened_at + cb.reset_seconds) now
      then (false, record_success provider cb)
      else (true, cb)
]

pub data RoutingError : Type 0 where
  no_workers no_adapters : RoutingError
  step_failed : (step : ℕ) (provider exc : String) → RoutingError
  all_failed : List String → RoutingError
  disagreement : (agreed total threshold : ℕ) → List String → RoutingError

module _ {W : Type 0} (clock : W → ℕ) where
  -- The loop of `_fallback`, which `_cost_aware` repeats.
  unfoldable pub attempts :
      List (Adapter W)
      → AgentRequest
      → (errors : List String) → CircuitBreaker × W
      → Outcome RoutingError AgentResponse × CircuitBreaker × W
  attempts [] request errors (cb, w) = (err (all_failed errors), cb, w)
  attempts (a ∷ adapters) request errors (cb, w) =
      let (opened, cb1) = is_open a.provider_name (clock w) cb in
      elim opened [
        | true ↦
            attempts adapters request (errors ++ (a.provider_name <> ": circuit breaker open") ∷ [])
              (cb1, w)
        | false ↦
            let (answer, w1) = a.invoke request w in
            elim answer [
              | ok response ↦ (ok response, record_success a.provider_name cb1, w1)
              | err exc ↦
                  attempts adapters request (errors ++ (a.provider_name <> ": " <> exc) ∷ [])
                    (record_failure a.provider_name (clock w1) cb1, w1)
            ]
      ]

  unfoldable pub run_fallback :
      List (Adapter W)
      → AgentRequest
      → CircuitBreaker × W
      → Outcome RoutingError AgentResponse × CircuitBreaker × W
  run_fallback adapters request s = attempts adapters request [] s

-- The eligible adapters with their costs: `min_tier` drops the cheaper ones.
unfoldable pub costed :
    {W : Type 0} → Option ℕ → AgentRequest → List (Adapter W) → List (ℕ × Adapter W)
costed min_tier request [] = []
costed min_tier request (a ∷ adapters) =
    let rest = costed min_tier request adapters in
    let cost = a.cost_estimate request in
    elim min_tier [
      | none ↦ (cost, a) ∷ rest
      | some least ↦ if ltb cost least then rest else (cost, a) ∷ rest
    ]

-- `sort(key=...)`, which is stable.
unfoldable pub insert_by : {A : Type 0} → (A → ℕ) → A → List A → List A
insert_by key x [] = x ∷ []
insert_by key x (y ∷ ys) =
    let rest = insert_by key x ys in if leb (key x) (key y) then x ∷ y ∷ ys else y ∷ rest

unfoldable pub sort_by : {A : Type 0} → (A → ℕ) → List A → List A
sort_by key [] = []
sort_by key (x ∷ xs) = insert_by key x (sort_by key xs)

unfoldable pub by_cost :
    {W : Type 0} → Option ℕ → AgentRequest → List (Adapter W) → List (ℕ × Adapter W)
by_cost min_tier request adapters = sort_by (λ p. p.0) (costed min_tier request adapters)

unfoldable pub run_cost_aware :
    {W : Type 0}
    → (clock : W → ℕ) → Option ℕ
    → List (Adapter W)
    → AgentRequest
    → CircuitBreaker × W
    → Outcome RoutingError AgentResponse × CircuitBreaker × W
run_cost_aware clock min_tier adapters request s =
    attempts clock (map (λ p. p.1) (by_cost min_tier request adapters)) request [] s

-- `abs(a - b)`
unfoldable pub distance : ℕ → ℕ → ℕ
distance a b = (a - b) + (b - a)

-- Element `i`, or 0 past the end.
unfoldable pub nth : List ℕ → ℕ → ℕ
nth [] i = 0
nth (x ∷ xs) zero = x
nth (x ∷ xs) (suc i) = nth xs i

unfoldable pub median : List ℕ → ℕ
median lengths = nth (sort_by (λ n. n) lengths) (length lengths / 2)

-- Within 20% of the median.
unfoldable pub agrees : (median : ℕ) → ℕ → Bool
unfolding distance
agrees m n = if eqb m 0 then eqb n 0 else leb (5 * distance n m) m

-- `_count_agreeing`, of the lengths of the contents.
unfoldable pub count_agreeing : List ℕ → ℕ
count_agreeing [] = 0
count_agreeing (n ∷ []) = 1
count_agreeing (n ∷ k ∷ ns) = count_if (agrees (median (n ∷ k ∷ ns))) (n ∷ k ∷ ns)

unfoldable pub responses_of : List (String × Outcome String AgentResponse) → List AgentResponse
responses_of [] = []
responses_of ((p, ok r) ∷ rs) = r ∷ responses_of rs
responses_of ((p, err e) ∷ rs) = responses_of rs

unfoldable pub errors_of : List (String × Outcome String AgentResponse) → List String
errors_of [] = []
errors_of ((p, ok r) ∷ rs) = errors_of rs
errors_of ((p, err e) ∷ rs) = (p <> ": " <> e) ∷ errors_of rs

-- `_parallel_consensus`, given the results of the calls in the order in which they completed. A
-- pool of no workers is refused. `len_of` is Python's `len` on strings.
unfoldable pub run_consensus :
    (len_of : String → ℕ)
    → (threshold : ℕ) → List (String × Outcome String AgentResponse)
    → Outcome RoutingError AgentResponse
run_consensus len_of threshold [] = err no_workers
run_consensus len_of threshold (c ∷ cs) = elim (responses_of (c ∷ cs)) [
  | [] ↦ err (all_failed (errors_of (c ∷ cs)))
  | r ∷ rs ↦
      let total = length (r ∷ rs) + length (errors_of (c ∷ cs)) in
      let agreed = count_agreeing (map (λ x. len_of x.content) (r ∷ rs)) in
      if leb (threshold * total) (agreed * 100)
      then ok r
      else err (disagreement agreed total threshold (errors_of (c ∷ cs)))
]

-- The request of a later step: the fields that the code leaves out take their defaults.
unfoldable pub next_request : AgentRequest → AgentResponse → AgentRequest
next_request request response = record request {
  current_artifact = some response.content;
  declared_inputs = [];
  temperature = none;
}

module _ {W : Type 0} where
  -- The loop of `_pipeline` at step `i`, with the adapters that are left and the last response.
  unfoldable pub pipeline_from :
      (i : ℕ)
      → List (Adapter W)
      → (request current : AgentRequest) → Option AgentResponse
      → W
      → Outcome RoutingError AgentResponse × W
  pipeline_from i [] request current none w = (err no_adapters, w)
  pipeline_from i [] request current (some response) w = (ok response, w)
  pipeline_from i (a ∷ adapters) request current last w =
      let (answer, w1) = a.invoke current w in
      elim answer [
        | err exc ↦ (err (step_failed i a.provider_name exc), w1)
        | ok response ↦
            pipeline_from (suc i) adapters request (next_request request response) (some response)
              w1
      ]

  unfoldable pub run_pipeline :
      List (Adapter W) → AgentRequest → W → Outcome RoutingError AgentResponse × W
  run_pipeline adapters request w = pipeline_from 0 adapters request request none w
