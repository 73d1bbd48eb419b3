-- ===== src/Research/Budget.antt =====
-- src/auto_research.py: `optimize` ends, and how many experiments it runs.
use mathlib.Core.Path.{subst}
use aieos_agent_harness.Base.{
  ℕ, ◌+◌, ◌-◌, ◌≤◌, ◌<◌, zero, suc, String, string_eq, ◌≡◌, ◌≢◌, refl, Bool, true, false,
  Bool-cases, inl, inr, ◌⊎◌, Option, none, some, List, [], ◌∷◌, ltb, arith,
}
use aieos_agent_harness.Base.Lists.{length, length-append, List-cases}
use aieos_agent_harness.Adapter.{Outcome, ok, err, Outcome-cases}
use aieos_agent_harness.Models.{AgentRequest}
use aieos_agent_harness.Research.{Floats, Experiment, Engine, ResearchResult, ResearchError}
use aieos_agent_harness.Research.Rounds.{
  Search, Round, met, going, Lab, experiment, record_experiment, is_met, run_variations,
  research_result, wanted, rounds, start_search, optimize,
}
use aieos_agent_harness.Research.Variations.{Variation, generate_variations}
use aieos_agent_harness.Research.Lengths.{slack, length-generate}

pub Round-cases :
    {F : Type 0} (r : Round F) → ((s : Search F) × (r ≡ met s)) ⊎ ((s : Search F) × (r ≡ going s))
Round-cases (met s) = inl (s, refl)
Round-cases (going s) = inr (s, refl)

module _ (fl : Floats) {W : Type 0} (lab : Lab W) (self : Engine W fl.F) where
  -- A search before and after `n` experiments.
  record IsRun (n : ℕ) (s s' : Search fl.F) : Type 0 where
    counted : s'.counter ≡ s.counter + n
    kept : length s'.history ≡ length s.history + n

  record-IsRun :
      (e : Experiment fl.F) (s : Search fl.F) → IsRun 1 s (record_experiment fl lab self e s)
  unfolding record_experiment
  record-IsRun e s = record {
    counted = ground arith;
    kept = ground (arith, length-append s.history (e ∷ []));
  }

  abbrev IsRound : ℕ → Search fl.F → Round fl.F → Type 0
  IsRound n s (going s') = IsRun n s s'
  IsRound n s (met s') = (k : ℕ) × (k ≤ n) × IsRun k s s'

  prepend :
      (n : ℕ) (s s1 : Search fl.F) (round : Round fl.F)
      → IsRun 1 s s1
      → IsRound n s1 round
      → IsRound (suc n) s round
  prepend n s s1 (going s') one h = record {
    counted = omega (arith, one.counted, h.counted);
    kept = omega (arith, one.kept, h.kept);
  }
  prepend n s s1 (met s') one (k, le, h) = (
    suc k,
    omega arith,
    record {
      counted = omega (arith, one.counted, h.counted);
      kept = omega (arith, one.kept, h.kept);
    },
  )

  run_variations-IsRound :
      (vs : List Variation) (s : Search fl.F) (w : W)
      → IsRound (length vs) s (run_variations fl lab self vs s w).0
  unfolding run_variations
  run_variations-IsRound [] s w = record { counted = omega arith; kept = omega arith }
  run_variations-IsRound (v ∷ vs) s w =
      let x = experiment fl lab self (suc s.counter) v w in
      let s1 = record_experiment fl lab self x.0 s in
      let one = record-IsRun x.0 s in
      elim (Bool-cases (is_met fl lab self x.0)) [
        | inl e ↦ rw (e, run_variations) (1, omega arith, one)
        | inr e ↦
            rw (e, run_variations)
              (prepend (length vs) s s1 (run_variations fl lab self vs s1 x.1).0 one
                (run_variations-IsRound vs s1 x.1))
      ]

  wanted-le : (counter : ℕ) → wanted fl lab self counter ≤ self.max_experiments - counter
  unfolding wanted
  wanted-le counter = ground arith

  abbrev IsBounded : AgentRequest → String → ResearchResult fl.F → Type 0
  IsBounded base strategy r =
      (r.experiments_run ≤ self.max_experiments + slack base strategy)
      × (length r.experiment_history ≡ r.experiments_run)

  abbrev IsGood :
      AgentRequest → String → Outcome ResearchError (Option (ResearchResult fl.F)) → Type 0
  IsGood base strategy (err e) = Unit
  IsGood base strategy (ok none) = ⊥
  IsGood base strategy (ok (some r)) = IsBounded base strategy r

  result-IsBounded :
      (base : AgentRequest) (strategy : String) (b : Bool) (s : Search fl.F)
      → s.counter ≤ self.max_experiments + slack base strategy
      → length s.history ≡ s.counter
      → IsBounded base strategy (research_result fl lab self b s)
  unfolding research_result
  result-IsBounded base strategy b s c h = (c, h)

  rounds-IsGood :
      (base : AgentRequest) (strategy : String) (fuel : ℕ) (s : Search fl.F) (w : W)
      → self.max_experiments - s.counter < fuel
      → s.counter ≤ self.max_experiments + slack base strategy
      → length s.history ≡ s.counter
      → IsGood base strategy (rounds fl lab self base strategy fuel s w).0
  unfolding rounds
  rounds-IsGood base strategy zero s w f c h = absurd (omega arith)
  rounds-IsGood base strategy (suc fuel) s w f c h =
      let count = wanted fl lab self s.counter in
      let x = generate_variations fl lab.sources self base strategy s.history count w in
      elim (Bool-cases (ltb s.counter self.max_experiments)) [
        | inr l ↦ rw (l, rounds) (result-IsBounded base strategy false s c h)
        | inl l ↦ elim (Outcome-cases x.0) [
          | inr (e, p) ↦ rw (l, p, rounds) tt
          | inl (vs, p) ↦
              let room : 0 < self.max_experiments - s.counter = ground arith in
              let n =
                length-generate fl lab self base strategy s.history count
                  (self.max_experiments - s.counter) w vs (wanted-le s.counter) room p in
              elim (List-cases vs) [
                | inl q ↦ rw (l, p, q, rounds) (result-IsBounded base strategy false s c h)
                | inr (v, rest, q) ↦
                    let y = run_variations fl lab self (v ∷ rest) s x.1 in
                    let m = run_variations-IsRound (v ∷ rest) s x.1 in
                    let n' : length (v ∷ rest)
                        ≤ self.max_experiments - s.counter + slack base strategy =
                      rw q at n in
                    elim (Round-cases y.0) [
                      | inl (s', z) ↦
                          let (k, le, t) = rw z at m in
                          rw (l, p, q, z, rounds)
                            (result-IsBounded base strategy true s'
                              (omega (arith, t.counted, le, n', room))
                              (omega (arith, t.counted, t.kept, h)))
                      | inr (s', z) ↦
                          let t = rw z at m in
                          rw (l, p, q, z, rounds)
                            (rounds-IsGood base strategy fuel s' y.1
                              (omega (arith, t.counted, f, room))
                              (omega (arith, t.counted, n', room))
                              (omega (arith, t.counted, t.kept, h)))
                    ]
              ]
        ]
      ]

  good-ne :
      (base : AgentRequest) (strategy : String)
      (o : Outcome ResearchError (Option (ResearchResult fl.F)))
      → IsGood base strategy o
      → o ≢ ok none
  good-ne base strategy (err e) g h = cc
  good-ne base strategy (ok none) g h = g
  good-ne base strategy (ok (some r)) g h = cc

  good-IsBounded :
      (base : AgentRequest) (strategy : String)
      (o : Outcome ResearchError (Option (ResearchResult fl.F))) (r : ResearchResult fl.F)
      → IsGood base strategy o
      → o ≡ ok (some r)
      → IsBounded base strategy r
  good-IsBounded base strategy (err e) r g h = cc
  good-IsBounded base strategy (ok none) r g h = absurd g
  good-IsBounded base strategy (ok (some q)) r g h =
      let same : q ≡ r = cc in subst (IsBounded base strategy) same g

  optimize-IsGood :
      (base : AgentRequest) (strategy : String) (w : W)
      → IsGood base strategy (optimize fl lab self base strategy w).0
  unfolding optimize start_search
  optimize-IsGood base strategy w =
      rounds-IsGood base strategy (suc self.max_experiments) _ w (omega arith) (omega arith) refl

  -- The loop of `optimize` ends, whatever the providers and the metric do: one round more than the
  -- experiments that are allowed is enough.
  pub optimize-terminates :
      (base : AgentRequest) (strategy : String) (w : W)
      → (optimize fl lab self base strategy w).0 ≢ ok none
  optimize-terminates base strategy w = good-ne base strategy _ (optimize-IsGood base strategy w)

  -- A run that returns has as many experiments in its history as it counts, and counts no more than
  -- it is allowed; with `context_pruning` it may count more, by at most the upstream artifacts.
  pub optimize-bounded :
      (base : AgentRequest) (strategy : String) (w : W) (r : ResearchResult fl.F)
      → (optimize fl lab self base strategy w).0 ≡ ok (some r)
      → (r.experiments_run ≤ self.max_experiments + slack base strategy)
        × (length r.experiment_history ≡ r.experiments_run)
  optimize-bounded base strategy w r =
      good-IsBounded base strategy _ r (optimize-IsGood base strategy w)
