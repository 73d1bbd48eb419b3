-- ===== src/Research/Variations.antt =====
-- src/auto_research.py: the four strategies of `_generate_variations`.
use Prim.Native.String.{String}
use aieos_agent_harness.Base.{
  ℕ, ◌*◌, zero, suc, ◌<>◌, string_eq, decimal, Bool, true, false, not, ◌&&◌, none, List, [], ◌∷◌,
  map, ◌==◌, if◌then◌else◌, ltb,
}
use aieos_agent_harness.Base.Dict
use aieos_agent_harness.Base.Dict.{Dict, keys}
use aieos_agent_harness.Base.Lists.{length, any, keep}
use aieos_agent_harness.Adapter.{ok, err, Call}
use aieos_agent_harness.Models.{AgentRequest, pre_generation}
use aieos_agent_harness.Research.{
  Floats, Experiment, Engine, ResearchError, unknown_strategy, is_upward, Operator,
}

abbrev pub Variation : Type 0
Variation = AgentRequest × String

-- What the strategies use of the libraries: the lines of a text that `re` reads as variations, with
-- their text stripped and not empty; and `random.shuffle`.
pub record Sources (W : Type 0) : Type 0 where
  pub variation_lines : String → List String
  pub shuffle : List String → W → List String × W

-- `text[:n]`
unfoldable pub clip : ℕ → String → String
clip zero s = ""
clip (suc n) String.[] = ""
clip (suc n) (String.◌∷◌ c s) = String.◌∷◌ c (clip n s)

-- `xs[:n]`
unfoldable pub take {ℓ} : {A : Type ℓ} → ℕ → List A → List A
take zero xs = []
take (suc n) [] = []
take (suc n) (x ∷ xs) = x ∷ take n xs

unfoldable pub replicate {ℓ} : {A : Type ℓ} → ℕ → A → List A
replicate zero x = []
replicate (suc n) x = x ∷ replicate n x

unfoldable pub join_with : String → List String → String
join_with sep [] = ""
join_with sep (s ∷ []) = s
join_with sep (s ∷ rest) = s <> sep <> join_with sep rest

unfoldable pub same_list : List String → List String → Bool
same_list [] [] = true
same_list (s ∷ ss) (t ∷ ts) = s == t && same_list ss ts
same_list _ _ = false

-- A variation keeps the base request, less its declared inputs and its temperature, which the
-- constructor call leaves at their defaults.
unfoldable pub rebuilt : AgentRequest → String → AgentRequest
rebuilt base strategy = record base {
  metadata = Dict.insert "variation" strategy base.metadata;
  declared_inputs = [];
  temperature = none;
}

unfoldable pub phrased : AgentRequest → String → Variation
phrased base text = (
  record (rebuilt base "prompt_phrasing") { prompt_content = text },
  "prompt variation: " <> clip 80 text,
)

unfoldable pub reordered : AgentRequest → List String → Variation
reordered base shuffled = (
  record (rebuilt base "constraint_ordering") { correction_constraints = shuffled },
  "constraints reordered: " <> join_with ", " (map (clip 20) (take 3 shuffled)),
)

unfoldable pub pruned : AgentRequest → String → Variation
pruned base key =
    let request = rebuilt base "context_pruning" in
    (
      record request {
        upstream_artifacts = keep (λ (k, _). not (k == key)) base.upstream_artifacts;
        metadata = Dict.insert "pruned" key request.metadata;
      },
      "pruned upstream: " <> key,
    )

unfoldable pub vary_context_pruning : AgentRequest → List Variation
vary_context_pruning base =
    (base, "baseline (no pruning)") ∷ map (pruned base) (keys base.upstream_artifacts)

module _ {W : Type 0} (sources : Sources W) where
  -- The loop over `range(count * 3)`, with `left` variations still wanted.
  unfoldable pub shuffles :
      AgentRequest → (rounds left : ℕ) → (seen : List (List String)) → W → List Variation × W
  shuffles base zero left seen w = ([], w)
  shuffles base (suc rounds) zero seen w = ([], w)
  shuffles base (suc rounds) (suc left) seen w =
      let (shuffled, w') = sources.shuffle base.correction_constraints w in
      elim (any (same_list shuffled) seen) [
        | true ↦ shuffles base rounds (suc left) seen w'
        | false ↦
            let (more, w2) = shuffles base rounds left (shuffled ∷ seen) w' in
            (reordered base shuffled ∷ more, w2)
      ]

  unfoldable pub vary_constraint_ordering : AgentRequest → ℕ → W → List Variation × W
  vary_constraint_ordering base count w =
      if ltb (length base.correction_constraints) 2
      then ((base, "baseline (no reordering possible)") ∷ [], w)
      else shuffles base (count * 3) count [] w

module _ (fl : Floats) where
  -- `sorted(..., key=metric_value, reverse=...)`, which keeps the order of equal values.
  unfoldable pub insert_experiment :
      Operator → Experiment fl.F → List (Experiment fl.F) → List (Experiment fl.F)
  insert_experiment op e [] = e ∷ []
  insert_experiment op e (f ∷ es) =
      let rest = insert_experiment op e es in
      if if is_upward op
        then fl.less e.metric_value f.metric_value
        else fl.less f.metric_value e.metric_value
      then f ∷ rest
      else e ∷ f ∷ es

  unfoldable pub sort_experiments : Operator → List (Experiment fl.F) → List (Experiment fl.F)
  sort_experiments op [] = []
  sort_experiments op (e ∷ es) = insert_experiment op e (sort_experiments op es)

  unfoldable pub prior_context : Operator → List (Experiment fl.F) → String
  prior_context op prior =
      let best = take 3 (sort_experiments op (keep (λ e. e.status == "success") prior)) in
      elim best [
        | [] ↦ ""
        | p ∷ ps ↦
            "\n\nPrior best results:\n"
            <> join_with "\n" (
                map
                  (λ e. "  - Score " <> fl.print e.metric_value <> ": " <> e.variation_description)
                  (p ∷ ps))
            <> "\n\nGenerate variations that build on the strongest patterns above."
      ]

  unfoldable pub meta_prompt :
      Operator → (metric target prompt : String) → List (Experiment fl.F) → ℕ → String
  meta_prompt op metric target prompt prior count =
      "Generate "
      <> decimal count
      <> " alternative phrasings of the following prompt. Each should have the same intent but "
      <> "different structure, emphasis, or constraint wording. Optimizing for: "
      <> metric
      <> " "
      <> target
      <> ".\n\nOriginal prompt:\n---\n"
      <> clip 2000 prompt
      <> "\n---\n"
      <> prior_context op prior
      <> "\n\nOutput exactly "
      <> decimal count
      <> " variations, each on its own line prefixed with 'VARIATION N: ' followed by the full "
      <> "alternative prompt text."

  unfoldable pub meta_request : String → AgentRequest
  meta_request prompt = record {
    artifact_type = "meta-variation";
    event = pre_generation;
    spec_content = "";
    template_content = "";
    prompt_content = prompt;
    upstream_artifacts = [];
    current_artifact = none;
    correction_constraints = [];
    metadata = ("purpose", "generate_variations") ∷ [];
    declared_inputs = [];
    temperature = none;
  }

  module _ {W : Type 0} (sources : Sources W) (self : Engine W fl.F) where
    -- A call that raises leaves no variation.
    unfoldable pub vary_prompt_phrasing :
        AgentRequest → List (Experiment fl.F) → ℕ → W → List Variation × W
    vary_prompt_phrasing base prior count w =
        let prompt =
          meta_prompt self.operator self.metric_name self.target base.prompt_content prior count in
        let (answer, w') = self.var_adapter.invoke (meta_request prompt) w in
        elim answer [
          | err e ↦ ([], w')
          | ok r ↦ (take count (map (phrased base) (sources.variation_lines r.content)), w')
        ]

    unfoldable pub generate_variations :
        AgentRequest → String → List (Experiment fl.F) → ℕ → Call W ResearchError (List Variation)
    generate_variations base strategy prior count w =
        if strategy == "prompt_phrasing"
        then (let (vs, w') = vary_prompt_phrasing base prior count w in (ok vs, w'))
        else if strategy == "constraint_ordering"
        then (let (vs, w') = vary_constraint_ordering sources base count w in (ok vs, w'))
        else if strategy == "context_pruning"
        then (ok (vary_context_pruning base), w)
        else if strategy == "model_comparison"
        then (ok (replicate count (base, "baseline (same request)")), w)
        else (err (unknown_strategy strategy), w)
