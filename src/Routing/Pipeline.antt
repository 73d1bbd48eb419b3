-- ===== src/Routing/Pipeline.antt =====
-- src/routing.py: `_pipeline` in parts.
use aieos_agent_harness.Base.{ℕ, suc, ◌+◌, ◌≡◌, refl, inl, inr, some, List, [], ◌∷◌, ◌++◌, arith}
use aieos_agent_harness.Base.Lists.{length}
use aieos_agent_harness.Models.{AgentRequest, AgentResponse}
use aieos_agent_harness.Adapter.{Outcome, ok, err, Adapter, Outcome-cases}
use aieos_agent_harness.Routing.{RoutingError, next_request, pipeline_from, run_pipeline}

module _ {W : Type 0} (request : AgentRequest) where
  -- The second part of a pipeline, from step `i`, on what the first part came to.
  abbrev pub and_then :
      (i : ℕ)
      → List (Adapter W)
      → Outcome RoutingError AgentResponse × W
      → Outcome RoutingError AgentResponse × W
  and_then i ys (err e, w) = (err e, w)
  and_then i ys (ok r, w) = pipeline_from i ys request (next_request request r) (some r) w

  from-append :
      (i : ℕ) (xs ys : List (Adapter W)) (r : AgentResponse) (w : W)
      → pipeline_from i (xs ++ ys) request (next_request request r) (some r) w
        ≡ and_then
            (i + length xs)
            ys
            (pipeline_from i xs request (next_request request r) (some r) w)
  unfolding pipeline_from
  from-append i [] ys r w = let start : i + 0 ≡ i = omega arith in rw (start, pipeline_from) refl
  from-append i (x ∷ xs) ys r w =
      let later : i + suc (length xs) ≡ suc i + length xs = omega arith in
      elim (Outcome-cases (x.invoke (next_request request r) w).0) [
        | inl (q, e) ↦
            rw (e, pipeline_from, later)
              (from-append (suc i) xs ys q (x.invoke (next_request request r) w).1)
        | inr (d, e) ↦ rw (e, pipeline_from) refl
      ]

  -- A pipeline in two parts is the first part, and then the second on a request that carries the
  -- content of the first part's response as the current artifact. Its steps count on, and it does
  -- not run when the first part raises.
  pub run_pipeline-append :
      (x : Adapter W) (xs ys : List (Adapter W)) (w : W)
      → run_pipeline ((x ∷ xs) ++ ys) request w
        ≡ and_then (length (x ∷ xs)) ys (run_pipeline (x ∷ xs) request w)
  unfolding run_pipeline pipeline_from
  run_pipeline-append x xs ys w =
      let count : length (x ∷ xs) ≡ 1 + length xs = omega arith in
      elim (Outcome-cases (x.invoke request w).0) [
        | inl (q, e) ↦ rw (e, pipeline_from, count) (from-append 1 xs ys q (x.invoke request w).1)
        | inr (d, e) ↦ rw (e, pipeline_from) refl
      ]
