-- ===== src/Research/Tests.antt =====
-- A search over two constraints, with natural numbers as the floats.
use aieos_agent_harness.Base.{
  ℕ, ◌+◌, ◌≤◌, ◌/◌, String, string_eq, ◌≡◌, ◌≢◌, refl, false, none, some, [], ◌∷◌, ltb, eqb,
  decimal,
}
use aieos_agent_harness.Base.Dict
use aieos_agent_harness.Base.Lists.{length}
use aieos_agent_harness.Adapter.{ok, Adapter}
use aieos_agent_harness.Models.{AgentRequest, pre_generation}
use aieos_agent_harness.Research.{
  Floats, Experiment, Engine, ResearchResult, ge, target_met, is_better, sum_costs, measure_metric,
  is_upward,
}
use aieos_agent_harness.Research.Budget.{optimize-terminates, optimize-bounded}
use aieos_agent_harness.Research.Lengths.{slack}
use aieos_agent_harness.Research.Rounds.{
  Lab, optimize, rounds, start_search, run_variations, experiment, record_experiment, is_met,
  research_result, wanted, experiment_id,
}
use aieos_agent_harness.Research.Variations.{
  generate_variations, vary_context_pruning, pruned, rebuilt, clip,
}

abbrev naturals : Floats
naturals = record {
  F = ℕ;
  nought = 0;
  one = 1;
  lowest = 0;
  highest = 1000;
  less = ltb;
  near = eqb;
  add = λ a b. a + b;
  of_nat = λ n. n;
  of_cost = λ n. n;
  of_latency = λ n. n;
  ratio = λ a b. a / b;
  print = λ n. "n";
}

abbrev lab : Lab ℕ
lab = record {
  codec = record { sha256 = λ s. s; find_json = λ s. none };
  direct = λ s. none;
  now = λ w. "now";
  sources = record { variation_lines = λ s. []; shuffle = λ xs w. (xs, w) };
}

-- Each call costs one more than the call before it.
abbrev adapter : Adapter ℕ
adapter = record {
  provider_name = "p";
  model_name = "m";
  invoke = λ q w. (
    ok (record {
      content = "";
      provider = "p";
      model = "m";
      tokens_in = 1;
      tokens_out = 2;
      cost_usd = w;
      latency_ms = 4;
      truncated = none;
    }),
    w + 1,
  );
  cost_estimate = λ q. 0;
}

abbrev engine : Engine ℕ ℕ
engine = record {
  adapter = adapter;
  var_adapter = adapter;
  metric_name = "cost_usd";
  target = ">= 85";
  operator = ge;
  threshold = 85;
  max_experiments = 1;
  batch_size = 5;
}

abbrev base : AgentRequest
base = record {
  artifact_type = "SAD";
  event = pre_generation;
  spec_content = "";
  template_content = "";
  prompt_content = "";
  upstream_artifacts = ("PRD-1", "text") ∷ [];
  current_artifact = none;
  correction_constraints = [];
  metadata = [];
  declared_inputs = [];
  temperature = none;
}

abbrev tried : String → String → ℕ → Experiment ℕ
tried id desc value = record {
  id = id;
  variation = "";
  variation_description = desc;
  metric_name = "cost_usd";
  metric_value = value;
  cost_usd = value;
  latency_ms = 4;
  timestamp = "now";
  status = "success";
}

-- One experiment is allowed, and two are run.
abbrev found : ResearchResult ℕ
found = record {
  target_met = false;
  experiments_run = 2;
  best_experiment = some (tried "EXP-002" "pruned upstream: PRD-1" 8);
  best_value = 8;
  experiment_history =
      tried "EXP-001" "baseline (no pruning)" 7 ∷ tried "EXP-002" "pruned upstream: PRD-1" 8 ∷ [];
  total_cost_usd = 15;
}

finds : (optimize naturals lab engine base "context_pruning" 7).0 ≡ ok (some found)
unfolding optimize rounds start_search run_variations experiment record_experiment is_met
    research_result wanted experiment_id generate_variations vary_context_pruning pruned rebuilt
    clip target_met is_better sum_costs measure_metric is_upward string_eq Dict.insert decimal
    Dict.keys
finds = refl

optimize-terminates_example : (optimize naturals lab engine base "context_pruning" 7).0 ≢ ok none
optimize-terminates_example = optimize-terminates naturals lab engine base "context_pruning" 7

optimize-bounded_example :
    (found.experiments_run ≤ 1 + slack base "context_pruning")
    × (length found.experiment_history ≡ found.experiments_run)
optimize-bounded_example = optimize-bounded naturals lab engine base "context_pruning" 7 found finds
