-- ===== src/Research/Best.antt =====
-- src/auto_research.py: the best experiment that `optimize` reports.
use aieos_agent_harness.Base.{string_eq, ◌≡◌, true, false, Option, none, some}
use aieos_agent_harness.Base.Lists.{All}
use aieos_agent_harness.Adapter.{Outcome, ok, err}
use aieos_agent_harness.Research.{
  Floats, Experiment, Engine, ResearchResult, ResearchError, is_better,
}
use aieos_agent_harness.Research.Rounds.{Search, Round, met, going, Lab}

-- `<` on the floats that a metric gives: none is NaN.
pub record IsOrder (fl : Floats) : Type 0 where
  pub irreflexive : (a : fl.F) → fl.less a a ≡ false
  pub transitive : (a b c : fl.F) → fl.less a b ≡ false → fl.less b c ≡ false → fl.less a c ≡ false
  pub asymmetric : (a b : fl.F) → fl.less a b ≡ true → fl.less b a ≡ false

module _ (fl : Floats) {W : Type 0} (lab : Lab W) (self : Engine W fl.F) where
  -- An experiment that failed, or is not better than `best`.
  abbrev pub IsBeaten : fl.F → Experiment fl.F → Type 0
  IsBeaten best e = e.status ≡ "success" → is_better fl self.operator e.metric_value best ≡ false

  module _ (order : IsOrder fl) where
    abbrev IsSearch : Search fl.F → Type 0
    IsSearch s = All (IsBeaten s.best_value) s.history

    abbrev IsRound : Round fl.F → Type 0
    IsRound (met s) = IsSearch s
    IsRound (going s) = IsSearch s

    abbrev IsBest : Outcome ResearchError (Option (ResearchResult fl.F)) → Type 0
    IsBest (err e) = Unit
    IsBest (ok none) = Unit
    IsBest (ok (some r)) = All (IsBeaten r.best_value) r.experiment_history
