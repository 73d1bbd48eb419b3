-- ===== src/Research/Rounds.antt =====
-- src/auto_research.py: `optimize`. The `while` runs on fuel; each round that goes on has run an
-- experiment, so as many rounds as experiments allowed, and one to stop, are enough.
use aieos_agent_harness.Base.{
  ℕ, ◌-◌, zero, suc, String, ◌<>◌, string_eq, decimal, Bool, true, false, Option, none, some, List,
  [], ◌∷◌, ◌++◌, ◌==◌, ltb, if◌then◌else◌,
}
use aieos_agent_harness.Adapter.{ok, err, Call}
use aieos_agent_harness.Convergence.{Codec}
use aieos_agent_harness.Models.{AgentRequest}
use aieos_agent_harness.Research.{
  Floats, Experiment, Engine, ResearchError, ResearchResult, target_met, is_better, sum_costs,
  measure_metric, is_upward,
}
use aieos_agent_harness.Research.Variations.{Sources, Variation, clip, generate_variations}

-- `f"EXP-{n:03d}"`
unfoldable pub experiment_id : ℕ → String
experiment_id n = "EXP-" <> (if ltb n 10 then "00" else if ltb n 100 then "0" else "") <> decimal n

-- The variables of `optimize`.
pub record Search (F : Type 0) : Type 0 where
  pub history : List (Experiment F)
  pub best : Option (Experiment F)
  pub best_value : F
  pub counter : ℕ

-- How the loop over the variations of a round ends.
pub data Round (F : Type 0) : Type 0 where
  met : Search F → Round F
  going : Search F → Round F

-- What a run uses besides the engine.
pub record Lab (W : Type 0) : Type 0 where
  pub codec : Codec
  pub direct : String → Option ℕ
  pub now : W → String
  pub sources : Sources W

module _ (fl : Floats) {W : Type 0} (lab : Lab W) (self : Engine W fl.F) where
  abbrev failed_experiment : String → Variation → W → String → Experiment fl.F
  failed_experiment id (request, desc) w reason = record {
    id = id;
    variation = clip 500 request.prompt_content;
    variation_description = desc;
    metric_name = self.metric_name;
    metric_value = fl.nought;
    cost_usd = fl.nought;
    latency_ms = fl.nought;
    timestamp = lab.now w;
    status = "error: " <> reason;
  }

  -- The experiment of one variation, and the `except` clause, which catches what the call and the
  -- metric raise. The start is read before the call.
  unfoldable pub experiment : ℕ → Variation → W → Experiment fl.F × W
  experiment n (request, desc) w =
      let id = experiment_id n in
      let (answer, w') = self.adapter.invoke request w in
      elim answer [
        | err e ↦ (failed_experiment id (request, desc) w' e, w')
        | ok r ↦ elim (measure_metric fl lab.codec lab.direct r self.metric_name) [
          | none ↦
              (failed_experiment id (request, desc) w' ("Unknown metric: " <> self.metric_name), w')
          | some value ↦ (
            record {
              id = id;
              variation = clip 500 request.prompt_content;
              variation_description = desc;
              metric_name = self.metric_name;
              metric_value = value;
              cost_usd = fl.of_cost r.cost_usd;
              latency_ms = fl.of_latency r.latency_ms;
              timestamp = lab.now w;
              status = "success";
            },
            w',
          )
        ]
      ]

  -- `history.append(exp)`, and the best so far.
  unfoldable pub record_experiment : Experiment fl.F → Search fl.F → Search fl.F
  record_experiment e s =
      let s' = record s { history = s.history ++ e ∷ []; counter = suc s.counter } in
      if e.status == "success"
      then if is_better fl self.operator e.metric_value s.best_value
        then record s' { best = some e; best_value = e.metric_value }
        else s'
      else s'

  unfoldable pub is_met : Experiment fl.F → Bool
  is_met e =
      if e.status == "success"
      then target_met fl self.operator self.threshold e.metric_value
      else false

  unfoldable pub run_variations : List Variation → Search fl.F → W → Round fl.F × W
  run_variations [] s w = (going s, w)
  run_variations (v ∷ vs) s w =
      let (e, w') = experiment (suc s.counter) v w in
      let s' = record_experiment e s in
      elim (is_met e) [ true ↦ (met s', w') | false ↦ run_variations vs s' w' ]

  unfoldable pub research_result : Bool → Search fl.F → ResearchResult fl.F
  research_result target_met s = record {
    target_met = target_met;
    experiments_run = s.counter;
    best_experiment = s.best;
    best_value = s.best_value;
    experiment_history = s.history;
    total_cost_usd = sum_costs fl fl.nought s.history;
  }

  -- `min(self._batch_size, self._max_experiments - exp_counter)`
  unfoldable pub wanted : ℕ → ℕ
  wanted counter =
      let left = self.max_experiments - counter in
      if ltb self.batch_size left then self.batch_size else left

  -- The `while`; `none` where the fuel has run out.
  unfoldable pub rounds :
      AgentRequest
      → String
      → (fuel : ℕ) → Search fl.F
      → Call W ResearchError (Option (ResearchResult fl.F))
  rounds base strategy zero s w = (ok none, w)
  rounds base strategy (suc fuel) s w = elim (ltb s.counter self.max_experiments) [
    | false ↦ (ok (some (research_result false s)), w)
    | true ↦
        let (answer, w1) =
          generate_variations fl lab.sources self base strategy s.history (wanted s.counter) w in
        elim answer [
          | err e ↦ (err e, w1)
          | ok [] ↦ (ok (some (research_result false s)), w1)
          | ok (v ∷ vs) ↦
              let (round, w2) = run_variations (v ∷ vs) s w1 in
              elim round [
                | met s' ↦ (ok (some (research_result true s')), w2)
                | going s' ↦ rounds base strategy fuel s' w2
              ]
        ]
  ]

  unfoldable pub start_search : Search fl.F
  start_search = record {
    history = [];
    best = none;
    best_value = if is_upward self.operator then fl.lowest else fl.highest;
    counter = 0;
  }

  unfoldable pub optimize :
      AgentRequest → String → Call W ResearchError (Option (ResearchResult fl.F))
  optimize base strategy = rounds base strategy (suc self.max_experiments) start_search
