-- ===== src/Convergence/Budget.antt =====
-- src/convergence.py: how many provider calls a run may make, however it ends.
use mathlib.Core.Path.{subst}
use aieos_agent_harness.Base.{
  ℕ, zero, suc, ◌+◌, ◌*◌, ◌≤◌, String, ap, Bool-cases, Option-cases, ◌==◌, string_eq, ltb, ◌-◌, [],
  ◌∷◌, inl, inr, arith,
}
use aieos_agent_harness.Base.Dict.{Dict}
use aieos_agent_harness.Base.Lists.{All, count_if}
use aieos_agent_harness.Models.{AgentRequest, AgentResponse, ValidationResult}
use aieos_agent_harness.Adapter.{
  Outcome, ok, err, Call, Adapter, rethrow, ◌>>=◌, bind-post, rethrow-world,
}
use aieos_agent_harness.Convergence.{
  Codec, ConvergenceLoop, RunError, Run, RunResult, Control, finish, again, Reviews, review_lens,
  run_lens_reviews, decide, lens_step, conclude, validate, iterate, proceed, iterations, run,
  start_run, judge_request, parse_validation_result, is_empty, adapter_failed, lens_request,
  is_true,
}
use aieos_agent_harness.Convergence.Meters.{
  Meters, is_watched, Once, IsWithin, IsMetered, IsWithin-trans, IsWithin-self, mul_le,
}

module _ {W : Type 0} (m : Meters W) where
  reviews-IsWithin :
      (codec : Codec) (lenses : Dict String (Adapter W)) (response : AgentResponse)
      (request : AgentRequest) (iteration : ℕ) (seen : Reviews) (w : W)
      → All (Once m) lenses
      → IsWithin m 0 0
          (count_if (is_watched m) lenses)
          w
          (run_lens_reviews codec lenses response request iteration seen w).1
  unfolding run_lens_reviews review_lens count_if
  reviews-IsWithin codec [] response request iteration seen w h = IsWithin-self m 0 0 0 w
  reviews-IsWithin codec ((name, adapter) ∷ lenses) response request iteration seen w h =
      IsWithin-trans m w _ _ (h.0 (lens_request name request response) w)
        (reviews-IsWithin codec lenses response request iteration _ _ h.1) (omega arith)
        (omega arith) (ground arith)

module _ {W : Type 0} (m : Meters W) (codec : Codec) (loop : ConvergenceLoop W)
    (gen_request val_request : AgentRequest) (h : IsMetered m loop) where
  decide-IsWithin :
      (iteration : ℕ) (response : AgentResponse) (result : ValidationResult) (now : Run) (w : W)
      → IsWithin m 0 0
          (count_if (is_watched m) loop.lenses)
          w
          (decide codec loop iteration gen_request response result now w).1
  unfolding decide lens_step
  decide-IsWithin iteration response result now w = elim (Bool-cases (result.status == "PASS")) [
    | inl p ↦ rw p (elim (Bool-cases (is_empty loop.lenses)) [
      | inl e ↦ rw e (IsWithin-self m 0 0 _ w)
      | inr e ↦ rw e (reviews-IsWithin m codec loop.lenses response gen_request _ _ w h.lens_once)
    ])
    | inr p ↦ rw p (elim (Bool-cases (ltb iteration (loop.max - 1))) [
      | inl l ↦ rw l (IsWithin-self m 0 0 _ w)
      | inr l ↦ rw l (IsWithin-self m 0 0 _ w)
    ])
  ]

  conclude-IsWithin :
      (iteration : ℕ) (now : Run) (response answer : AgentResponse) (w : W)
      → IsWithin m 0 0
          (count_if (is_watched m) loop.lenses)
          w
          (conclude codec loop gen_request val_request iteration now response answer w).1
  unfolding conclude
  conclude-IsWithin iteration now response answer w =
      elim (Option-cases (parse_validation_result codec answer)) [
        | inl e ↦ rw (e, conclude) (IsWithin-self m 0 0 _ w)
        | inr (result, e) ↦ rw (e, conclude) (decide-IsWithin iteration response result _ w)
      ]

  judge-IsWithin :
      (iteration : ℕ) (now : Run) (response : AgentResponse) (w : W)
      → IsWithin m 0 1
          (count_if (is_watched m) loop.lenses)
          w
          ((rethrow adapter_failed (loop.val.invoke (judge_request val_request response))
              >>= conclude codec loop gen_request val_request iteration now response)
            w).1
  judge-IsWithin iteration now response w =
      let judge =
        rethrow {E = RunError} adapter_failed
          (loop.val.invoke (judge_request val_request response)) in
      let once : IsWithin m 0 1 0 w (judge w).1 =
        rw rethrow-world (h.val_once (judge_request val_request response) w) in
      bind-post (IsWithin m 0 1 (count_if (is_watched m) loop.lenses) w) judge
        (conclude codec loop gen_request val_request iteration now response) w
        (IsWithin-trans m w _ _ once (IsWithin-self m 0 0 0 _) (omega arith) (omega arith)
          (omega arith))
        (λ answer w1 e.
          IsWithin-trans m w w1 _
            (subst (λ x. IsWithin m 0 1 0 w x)
              (ap (λ (x : Outcome RunError AgentResponse × W). x.1) e) once)
            (conclude-IsWithin iteration now response answer w1) (omega arith) (omega arith)
            (omega arith))

  validate-IsWithin :
      (iteration : ℕ) (now : Run) (response : AgentResponse) (w : W)
      → IsWithin m 0 1
          (count_if (is_watched m) loop.lenses)
          w
          (validate codec loop gen_request val_request iteration now response w).1
  unfolding validate
  validate-IsWithin iteration now response w = elim (Bool-cases (is_true response.truncated)) [
    | inl cut ↦ rw cut (IsWithin-self m 0 1 _ w)
    | inr whole ↦ rw whole (judge-IsWithin iteration now response w)
  ]

  iterate-IsWithin :
      (iteration : ℕ) (now : Run) (w : W)
      → IsWithin m 1 1
          (count_if (is_watched m) loop.lenses)
          w
          (iterate codec loop gen_request val_request iteration now w).1
  unfolding iterate validate
  iterate-IsWithin iteration now w =
      let ask = rethrow {E = RunError} adapter_failed (loop.gen.invoke now.request) in
      let once : IsWithin m 1 0 0 w (ask w).1 = rw rethrow-world (h.gen_once now.request w) in
      bind-post (IsWithin m 1 1 (count_if (is_watched m) loop.lenses) w) ask
        (validate codec loop gen_request val_request iteration _) w
        (IsWithin-trans m w _ _ once (IsWithin-self m 0 0 0 _) (omega arith) (omega arith)
          (omega arith))
        (λ response w1 e.
          IsWithin-trans m w w1 _
            (subst (λ x. IsWithin m 1 0 0 w x)
              (ap (λ (x : Outcome RunError AgentResponse × W). x.1) e) once)
            (validate-IsWithin iteration _ response w1) (omega arith) (omega arith) (omega arith))

  proceed-IsWithin :
      (left : ℕ) (rest : Run → Call W RunError RunResult) (w : W) (x : Outcome RunError Control × W)
      → ((next : Run) (w1 : W)
          → IsWithin m left left (left * count_if (is_watched m) loop.lenses) w1 (rest next w1).1)
      → IsWithin m 1 1 (count_if (is_watched m) loop.lenses) w x.1
      → IsWithin m
          (suc left)
          (suc left)
          (suc left * count_if (is_watched m) loop.lenses)
          w
          (proceed rest x).1
  unfolding proceed
  proceed-IsWithin left rest w (err e, w1) more once =
      IsWithin-trans m w w1 _ once (IsWithin-self m 0 0 0 _) (omega arith) (omega arith)
        (omega arith)
  proceed-IsWithin left rest w (ok (finish r), w1) more once =
      IsWithin-trans m w w1 _ once (IsWithin-self m 0 0 0 _) (omega arith) (omega arith)
        (omega arith)
  proceed-IsWithin left rest w (ok (again next), w1) more once =
      IsWithin-trans m w w1 _ once (more next w1) (omega arith) (omega arith) (omega arith)

  iterations-IsWithin :
      (left iteration : ℕ) (now : Run) (w : W)
      → IsWithin m left left
          (left * count_if (is_watched m) loop.lenses)
          w
          (iterations codec loop gen_request val_request left iteration now w).1
  unfolding iterations
  iterations-IsWithin zero iteration now w = IsWithin-self m 0 0 _ w
  iterations-IsWithin (suc left) iteration now w =
      proceed-IsWithin left _ w _ (iterations-IsWithin left (iteration + 1))
        (iterate-IsWithin iteration now w)

  -- However it ends, a run makes at most `max` generations, `max` validations, and `max` calls of
  -- any one lens, for adapters that count once by their meter, and lenses with different names.
  pub run-IsWithin :
      (w : W) → IsWithin m loop.max loop.max loop.max w (run codec loop gen_request val_request w).1
  unfolding run
  run-IsWithin w =
      let all = iterations-IsWithin loop.max 0 (start_run codec loop gen_request) w in
      let most : loop.max * count_if (is_watched m) loop.lenses ≤ loop.max =
        mul_le loop.max _ h.one_name in
      IsWithin-trans m w _ _ all (IsWithin-self m 0 0 0 _) (omega arith) (omega arith)
        (omega (arith, most))
