-- ===== src/Routing/Tests.antt =====
-- src/routing.py: three adapters behind one breaker, and the theorems about the routes at them.
use aieos_agent_harness.Base.{
  ℕ, ◌+◌, String, string_eq, ◌≡◌, refl, none, List, [], ◌∷◌, ◌==◌, if◌then◌else◌,
}
use aieos_agent_harness.Base.Dict
use aieos_agent_harness.Models.{AgentRequest, AgentResponse, pre_generation}
use aieos_agent_harness.Adapter.{Outcome, ok, err, Adapter}
use aieos_agent_harness.Routing.{CircuitBreaker, failure_count, attempts}
use aieos_agent_harness.Routing.Chain.{Routed, attempts-Routed}

abbrev closed : CircuitBreaker
closed = record { failures = []; open_since = []; max = 3; reset_seconds = 60 }

abbrev earlier : List ℕ
earlier = 40 ∷ 30 ∷ []

no_failures : failure_count "a" closed ≡ 0
unfolding failure_count Dict.get_or Dict.get
no_failures = refl

no_opening : Dict.get closed.open_since "a" ≡ none
unfolding Dict.get
no_opening = refl

abbrev question : AgentRequest
question = record {
  artifact_type = "SAD";
  event = pre_generation;
  spec_content = "";
  template_content = "";
  prompt_content = "";
  upstream_artifacts = [];
  current_artifact = none;
  correction_constraints = [];
  metadata = [];
  declared_inputs = [];
  temperature = none;
}

abbrev reply : String → AgentResponse
reply content = record {
  content = content;
  provider = "p";
  model = "m";
  tokens_in = 1;
  tokens_out = 2;
  cost_usd = 3;
  latency_ms = 4;
  truncated = none;
}

-- The world counts the calls and is the clock.
abbrev works : String → ℕ → Adapter ℕ
works name cost = record {
  provider_name = name;
  model_name = "m";
  invoke = λ q w. (ok (reply name), w + 1);
  cost_estimate = λ q. cost;
}

abbrev fails : String → ℕ → Adapter ℕ
fails name cost = record (works name cost) { invoke = λ q w. (err "down", w + 1) }

abbrev chain : List (Adapter ℕ)
chain = works "dear" 9 ∷ fails "cheap" 1 ∷ works "middle" 5 ∷ []

attempts-Routed_example :
    let (o, cb', w') = attempts (λ w. w) chain question [] (closed, 0) in
    Routed (λ w. w) question chain closed 0 o cb' w'
attempts-Routed_example = attempts-Routed (λ w. w) question chain [] closed 0

abbrev size : String → ℕ
size s = if s == "aaaa" then 4 else 10

abbrev completed_calls : List (String × Outcome String AgentResponse)
completed_calls = ("p", err "down") ∷ ("q", ok (reply "b")) ∷ ("r", ok (reply "c")) ∷ []
