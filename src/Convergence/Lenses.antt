-- ===== src/Convergence/Lenses.antt =====
-- src/convergence.py: which lens reviews hold back an artifact that the validator passed.
use mathlib.Core.List.{append-nil}
use aieos_agent_harness.Base.{
  ℕ, String, ◌≡◌, refl, ◌≢◌, ◌∙◌, Option, none, some, Option-cases, Bool-cases, if◌then◌else◌, List,
  [], ◌∷◌, ◌++◌, map, ◌==◌, string_eq, inl, inr, arith,
}
use aieos_agent_harness.Base.Dict.{Dict}
use aieos_agent_harness.Base.Lists.{All}
use aieos_agent_harness.Models.{AgentRequest, AgentResponse, ValidationResult, Issue}
use aieos_agent_harness.Adapter.{Outcome, ok, err, Adapter}
use aieos_agent_harness.Convergence.{
  Codec, ConvergenceLoop, Run, Control, finish, again, Reviews, heard, add_review, review_lens,
  run_lens_reviews, after_lenses, lens_step, decide, parse_validation_result, lens_request,
  is_empty, lens_issue,
}

-- The answer of a lens holds an artifact back: a verdict FAIL that lists at least one issue.
abbrev pub Blocks : Codec → Outcome String AgentResponse → Type 0
Blocks codec (err e) = ⊥
Blocks codec (ok a) =
    (result : ValidationResult) × (parse_validation_result codec a ≡ some result)
    × (result.status ≡ "FAIL")
    × (result.blocking_issues ≢ [])

silent_issues :
    (name : String) (seen : List Issue) (result : ValidationResult)
    → ¬ ((result.status ≡ "FAIL") × (result.blocking_issues ≢ []))
    → (if result.status == "FAIL"
        then seen ++ map (lens_issue name) result.blocking_issues
        else seen)
      ≡ seen
silent_issues name seen result n = elim (Bool-cases (result.status == "FAIL")) [
  | inl p ↦ rw p (go result.blocking_issues (λ ne. n (ground arith, ne)))
  | inr p ↦ rw p refl
]
  where
    go : (issues : List Issue) → ¬ (issues ≢ []) → seen ++ map (lens_issue name) issues ≡ seen
    go [] k = append-nil seen
    go (x ∷ xs) k = absurd (k (λ e. cc))

module _ (codec : Codec) (name : String) (request : AgentRequest) (iteration : ℕ) where
  heard_silent :
      (seen : Reviews) (answer : Outcome String AgentResponse)
      → ¬ Blocks codec answer
      → (heard codec name request iteration seen answer).issues ≡ seen.issues
  unfolding heard add_review
  heard_silent seen (err e) n = refl
  heard_silent seen (ok a) n = elim (Option-cases (parse_validation_result codec a)) [
    | inl e ↦ rw (e, heard) refl
    | inr (result, e) ↦
        rw (e, heard) (silent_issues name seen.issues result (λ (p, q). n (result, e, p, q)))
  ]

module _ {W : Type 0} (codec : Codec) where
  -- No answer of the lens, to any request in any world, blocks.
  abbrev pub IsSilent : Adapter W → Type 0
  IsSilent lens = (q : AgentRequest) (w : W) → ¬ Blocks codec (lens.invoke q w).0

  reviews_silent :
      (lenses : Dict String (Adapter W)) (response : AgentResponse) (request : AgentRequest)
      (iteration : ℕ) (seen : Reviews) (w : W)
      → All (λ (lens : String × Adapter W). IsSilent lens.1) lenses
      → (run_lens_reviews codec lenses response request iteration seen w).0.issues ≡ seen.issues
  unfolding run_lens_reviews review_lens
  reviews_silent [] response request iteration seen w h = refl
  reviews_silent ((name, adapter) ∷ lenses) response request iteration seen w h =
      reviews_silent lenses response request iteration _ _ h.1
      ∙ heard_silent codec name (lens_request name request response) iteration seen _ (h.0 _ w)

-- The control after a decision, as far as the lenses matter: the result returned, if one is.
abbrev pub returned : Control → Option (AgentResponse × ValidationResult)
returned (finish r) = some (r.response, r.result)
returned (again _) = none

-- A lens that raises, that answers with no parseable verdict, that does not say FAIL, or that says
-- FAIL and lists no issue does not block. If no lens blocks, then an artifact that the validator
-- passed is returned as it is, with the validator's own result.
pub silent_lenses :
    {W : Type 0} (codec : Codec) (loop : ConvergenceLoop W) (iteration : ℕ)
    (gen_request : AgentRequest) (response : AgentResponse) (result : ValidationResult) (now : Run)
    (w : W)
    → All (λ (lens : String × Adapter W). IsSilent codec lens.1) loop.lenses
    → result.status ≡ "PASS"
    → returned (decide codec loop iteration gen_request response result now w).0
      ≡ some (response, result)
unfolding decide lens_step after_lenses
silent_lenses codec loop iteration gen_request response result now w h p =
    elim (Bool-cases (result.status == "PASS")) [
      | inl t ↦ rw t (elim (Bool-cases (is_empty loop.lenses)) [
        | inl e ↦ rw e refl
        | inr e ↦ rw e (rw (reviews_silent codec loop.lenses response gen_request _ _ w h) refl)
      ])
      | inr f ↦ absurd (ground arith)
    ]
