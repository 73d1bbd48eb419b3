-- ===== src/Research.antt =====
-- src/auto_research.py: `AutoResearchEngine`. A float is a value of a type `F` with the operations
-- that the engine uses; the shuffles of `random` and the lines that `re` finds are parameters.
pub mod Variations
pub mod Rounds
pub mod Lengths
pub mod Budget
pub mod Best
mod Tests
use aieos_agent_harness.Base.{
  ℕ, ◌+◌, ◌-◌, zero, suc, String, ◌<>◌, string_eq, Bool, true, false, not, ◌&&◌, ◌||◌, Option, none,
  some, List, [], ◌∷◌, ◌++◌, map, ◌==◌, ltb, decimal, if◌then◌else◌,
}
use aieos_agent_harness.Base.Lists.{length, contains, any}
use aieos_agent_harness.Adapter.{Outcome, ok, err, Call, Adapter}
use aieos_agent_harness.Convergence.{Codec, parse_validation_result}
use aieos_agent_harness.Models.{AgentRequest, AgentResponse, ValidationResult}

-- A float: what the engine computes with. `of_cost` and `of_latency` read a response's fields,
-- `ratio a b` is `a / b`, and `near` is `abs(a - b) < 0.001`.
pub record Floats : Type 1 where
  pub F : Type 0
  pub nought : F
  pub one : F
  pub lowest : F
  pub highest : F
  pub less : F → F → Bool
  pub near : F → F → Bool
  pub add : F → F → F
  pub of_nat : ℕ → F
  pub of_cost : ℕ → F
  pub of_latency : ℕ → F
  pub ratio : ℕ → ℕ → F
  pub print : F → String

-- The operators of a target.
pub data Operator : Type 0 where
  ge gt le lt eq : Operator

pub record Experiment (F : Type 0) : Type 0 where
  pub id : String
  pub variation : String
  pub variation_description : String
  pub metric_name : String
  pub metric_value : F
  pub cost_usd : F
  pub latency_ms : F
  pub timestamp : String
  pub status : String

pub record ResearchResult (F : Type 0) : Type 0 where
  pub target_met : Bool
  pub experiments_run : ℕ
  pub best_experiment : Option (Experiment F)
  pub best_value : F
  pub experiment_history : List (Experiment F)
  pub total_cost_usd : F

-- What leaves `optimize`: an unknown strategy.
pub data ResearchError : Type 0 where
  unknown_strategy : String → ResearchError

-- `AutoResearchEngine`, less the adapters, with its target parsed.
pub record Engine (W : Type 0) (F : Type 0) : Type 0 where
  pub adapter : Adapter W
  pub var_adapter : Adapter W
  pub metric_name : String
  pub target : String
  pub operator : Operator
  pub threshold : F
  pub max_experiments : ℕ
  pub batch_size : ℕ

-- `operator in (">=", ">")`
unfoldable pub is_upward : Operator → Bool
is_upward ge = true
is_upward gt = true
is_upward le = false
is_upward lt = false
is_upward eq = false

module _ (fl : Floats) where
  unfoldable pub target_met : Operator → fl.F → fl.F → Bool
  target_met ge threshold value = not (fl.less value threshold)
  target_met gt threshold value = fl.less threshold value
  target_met le threshold value = not (fl.less threshold value)
  target_met lt threshold value = fl.less value threshold
  target_met eq threshold value = fl.near value threshold

  unfoldable pub is_better : Operator → fl.F → fl.F → Bool
  is_better op new best = if is_upward op then fl.less best new else fl.less new best

  -- `sum(e.cost_usd for e in history)`, from `total` on.
  unfoldable pub sum_costs : fl.F → List (Experiment fl.F) → fl.F
  sum_costs total [] = total
  sum_costs total (e ∷ es) = sum_costs (fl.add total e.cost_usd) es

  -- The metric of a response; `none` where it raises, for an unknown metric. `direct` is the number
  -- under "completeness_score" of the content read as JSON, if there is one.
  unfoldable pub measure_metric :
      Codec → (direct : String → Option ℕ) → AgentResponse → String → Option fl.F
  measure_metric codec direct r metric =
      if metric == "cost_usd"
      then some (fl.of_cost r.cost_usd)
      else if metric == "latency_ms"
      then some (fl.of_latency r.latency_ms)
      else if metric == "token_efficiency"
      then some (fl.ratio r.tokens_out (if ltb r.tokens_in 1 then 1 else r.tokens_in))
      else if metric == "completeness_score"
      then elim (parse_validation_result codec r) [
        | some v ↦ some (fl.of_nat v.completeness_score)
        | none ↦ elim (direct r.content) [ none ↦ some fl.nought | some n ↦ some (fl.of_nat n) ]
      ]
      else if metric == "first_pass_rate"
      then elim (parse_validation_result codec r) [
        | some v ↦ some (if v.status == "PASS" then fl.one else fl.nought)
        | none ↦ some fl.nought
      ]
      else none
