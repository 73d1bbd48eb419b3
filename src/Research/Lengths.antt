-- ===== src/Research/Lengths.antt =====
-- src/auto_research.py: how many variations a strategy gives.
use aieos_agent_harness.Base.{
  ℕ, ◌+◌, ◌*◌, ◌≤◌, ◌<◌, zero, suc, String, string_eq, ◌≡◌, refl, Bool-cases, inl, inr, List, [],
  ◌∷◌, map, ◌==◌, ltb, if◌then◌else◌, arith,
}
use aieos_agent_harness.Base.Dict.{keys}
use aieos_agent_harness.Base.Lists.{length, length-map, any}
use aieos_agent_harness.Adapter.{ok, Outcome-cases}
use aieos_agent_harness.Models.{AgentRequest}
use aieos_agent_harness.Research.{Floats, Experiment, Engine}
use aieos_agent_harness.Research.Rounds.{Lab}
use aieos_agent_harness.Research.Variations.{
  Sources, Variation, take, replicate, phrased, pruned, same_list, shuffles,
  vary_constraint_ordering, vary_context_pruning, vary_prompt_phrasing, generate_variations,
  meta_prompt, meta_request,
}

length-take : {A : Type 0} (n : ℕ) (xs : List A) → length (take n xs) ≤ n
unfolding take
length-take zero xs = omega arith
length-take (suc n) [] = omega arith
length-take (suc n) (x ∷ xs) = omega (arith, length-take n xs)

length-replicate : {A : Type 0} (n : ℕ) (x : A) → length (replicate n x) ≡ n
unfolding replicate
length-replicate zero x = refl
length-replicate (suc n) x = omega (arith, length-replicate n x)

length-shuffles :
    {W : Type 0} (sources : Sources W) (base : AgentRequest) (n left : ℕ)
    (seen : List (List String)) (w : W)
    → length (shuffles sources base n left seen w).0 ≤ left
unfolding shuffles
length-shuffles sources base zero left seen w = omega arith
length-shuffles sources base (suc n) zero seen w = omega arith
length-shuffles sources base (suc n) (suc left) seen w =
    let x = sources.shuffle base.correction_constraints w in
    elim (Bool-cases (any (same_list x.0) seen)) [
      | inl e ↦ rw (e, shuffles) (length-shuffles sources base n (suc left) seen x.1)
      | inr e ↦
          let rest = length-shuffles sources base n left (x.0 ∷ seen) x.1 in
          rw (e, shuffles) (omega (arith, rest))
    ]

-- What `context_pruning` may run beyond the budget.
abbrev pub slack : AgentRequest → String → ℕ
slack base strategy =
    if strategy == "context_pruning" then length (keys base.upstream_artifacts) else 0

module _ (fl : Floats) {W : Type 0} (lab : Lab W) (self : Engine W fl.F) where
  length-phrasing :
      (base : AgentRequest) (prior : List (Experiment fl.F)) (count : ℕ) (w : W)
      → length (vary_prompt_phrasing fl lab.sources self base prior count w).0 ≤ count
  unfolding vary_prompt_phrasing
  length-phrasing base prior count w =
      let prompt =
        meta_prompt fl self.operator self.metric_name self.target base.prompt_content prior count in
      let x = self.var_adapter.invoke (meta_request fl prompt) w in
      elim (Outcome-cases x.0) [
        | inl (r, e) ↦
            rw (e, vary_prompt_phrasing)
              (length-take count (map (phrased base) (lab.sources.variation_lines r.content)))
        | inr (b, e) ↦ rw (e, vary_prompt_phrasing) (omega arith)
      ]

  length-ordering :
      (base : AgentRequest) (count room : ℕ) (w : W)
      → count ≤ room
      → 0 < room
      → length (vary_constraint_ordering lab.sources base count w).0 ≤ room
  unfolding vary_constraint_ordering
  length-ordering base count room w c r =
      let all_seen = length-shuffles lab.sources base (count * 3) count [] w in
      elim (Bool-cases (ltb (length base.correction_constraints) 2)) [
        | inl e ↦ rw e (omega arith)
        | inr e ↦ rw e (omega (arith, all_seen))
      ]

  -- No more variations than there is room for, but for those of `context_pruning`.
  pub length-generate :
      (base : AgentRequest) (strategy : String) (prior : List (Experiment fl.F)) (count room : ℕ)
      (w : W) (vs : List Variation)
      → count ≤ room
      → 0 < room
      → (generate_variations fl lab.sources self base strategy prior count w).0 ≡ ok vs
      → length vs ≤ room + slack base strategy
  unfolding generate_variations vary_context_pruning
  length-generate base strategy prior count room w vs c r h =
      let same : Variation = (base, "baseline (same request)") in
      let names = length-map (pruned base) (keys base.upstream_artifacts) in
      ground (
        arith,
        h,
        length-phrasing base prior count w,
        length-ordering base count room w c r,
        names,
        length-replicate count same,
      )
