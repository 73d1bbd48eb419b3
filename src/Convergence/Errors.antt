-- ===== src/Convergence/Errors.antt =====
-- src/convergence.py: which runs end in Python's `UnboundLocalError`.
use aieos_agent_harness.Base.{
  String, ℕ, zero, suc, ◌+◌, ◌≡◌, refl, ◌≢◌, ◌↔◌, none, Bool-cases, ◌==◌, string_eq, ltb, eqb, ◌-◌,
  ap, inl, inr, arith,
}
use aieos_agent_harness.Models.{AgentRequest, AgentResponse, ValidationResult}
use aieos_agent_harness.Adapter.{Outcome, ok, err, Call, rethrow, raise_if, ◌>>=◌, bind-err}
use aieos_agent_harness.Convergence.{
  Reviews, Codec, ConvergenceLoop, RunError, unbound_result, Run, RunResult, Control, finish, again,
  conclude, validate, iterate, proceed, iterations, exhausted, run, start_run, judge_request,
  adapter_failed, is_true, truncated_generation, decide, judged, lens_step, corrected, after_lenses,
  is_empty,
}
use aieos_agent_harness.Convergence.Iteration.{recorded, Iterated, iterate-ok}

module _ {W : Type 0} (codec : Codec) (loop : ConvergenceLoop W)
    (gen_request val_request : AgentRequest) where
  conclude-ne-unbound :
      (iteration : ℕ) (now : Run) (response answer : AgentResponse) (w : W)
      → (conclude codec loop gen_request val_request iteration now response answer w).0
        ≢ err unbound_result
  unfolding conclude
  conclude-ne-unbound iteration now response answer w h = ground arith

  rethrow-ne-unbound :
      {A : Type 0} (m : Call W String A) (w : W)
      → (rethrow adapter_failed m w).0 ≢ err unbound_result
  rethrow-ne-unbound m w h = ground arith

  validate-ne-unbound :
      (iteration : ℕ) (now : Run) (response : AgentResponse) (w : W)
      → (validate codec loop gen_request val_request iteration now response w).0
        ≢ err unbound_result
  unfolding validate
  validate-ne-unbound iteration now response w h =
      bind-err (λ _. ⊥)
        (raise_if (is_true response.truncated)
          (truncated_generation val_request.artifact_type (iteration + 1) response.tokens_out))
        (λ _.
          rethrow adapter_failed (loop.val.invoke (judge_request val_request response))
          >>= conclude codec loop gen_request val_request iteration now response)
        w unbound_result h (λ e. ground arith)
        (λ u w1 k.
          bind-err (λ _. ⊥)
            (rethrow adapter_failed (loop.val.invoke (judge_request val_request response)))
            (conclude codec loop gen_request val_request iteration now response) w1 unbound_result k
            (rethrow-ne-unbound (loop.val.invoke (judge_request val_request response)) w1)
            (conclude-ne-unbound iteration now response))

  iterate-ne-unbound :
      (iteration : ℕ) (now : Run) (w : W)
      → (iterate codec loop gen_request val_request iteration now w).0 ≢ err unbound_result
  unfolding iterate
  iterate-ne-unbound iteration now w h =
      bind-err (λ _. ⊥) (rethrow adapter_failed (loop.gen.invoke now.request))
        (validate codec loop gen_request val_request iteration _) w unbound_result h
        (rethrow-ne-unbound (loop.gen.invoke now.request) w) (validate-ne-unbound iteration _)

  abbrev HasLast : Control → Type 0
  HasLast (finish r) = Unit
  HasLast (again next) = next.last ≢ none

  after_lenses-HasLast :
      (iteration : ℕ) (response : AgentResponse) (result : ValidationResult) (reviews : Reviews)
      (now : Run)
      → now.last ≢ none
      → HasLast (after_lenses loop.max iteration gen_request response result reviews now)
  unfolding after_lenses
  after_lenses-HasLast iteration response result reviews now h = ground (arith, h)

  decide-HasLast :
      (iteration : ℕ) (response : AgentResponse) (result : ValidationResult) (now : Run) (w : W)
      → now.last ≢ none
      → HasLast (decide codec loop iteration gen_request response result now w).0
  unfolding decide lens_step corrected after_lenses
  decide-HasLast iteration response result now w h = elim (Bool-cases (result.status == "PASS")) [
    | inl p ↦ rw p (elim (Bool-cases (is_empty loop.lenses)) [
      | inl e ↦ rw e tt
      | inr e ↦ rw e (after_lenses-HasLast iteration response result _ now h)
    ])
    | inr p ↦
        rw p (elim (Bool-cases (ltb iteration (loop.max - 1))) [ inl l ↦ rw l h | inr l ↦ rw l h ])
  ]

  iterate-HasLast :
      {iteration : ℕ} {now : Run} {w w' : W} {c : Control}
      → Iterated codec loop gen_request val_request iteration now w w' c
      → HasLast c
  unfolding judged
  iterate-HasLast {iteration} {now} it = rw (ap (λ (x : Control × W). x.0) it.decided) at (
      decide-HasLast iteration it.response it.result
        (recorded codec loop gen_request val_request iteration now it.response it.answer it.result)
        it.after (λ e. cc))

  proceed-ne-unbound :
      (rest : Run → Call W RunError RunResult) (x : Outcome RunError Control × W)
      → x.0 ≢ err unbound_result
      → ((c : Control) (w1 : W) → x ≡ (ok c, w1) → HasLast c)
      → ((next : Run) (w1 : W) → next.last ≢ none → (rest next w1).0 ≢ err unbound_result)
      → (proceed rest x).0 ≢ err unbound_result
  unfolding proceed
  proceed-ne-unbound rest (err e, w) first last later h = first (ground arith)
  proceed-ne-unbound rest (ok (finish r), w) first last later h = cc
  proceed-ne-unbound rest (ok (again next), w) first last later h =
      later next w (last (again next) w refl) h

  iterations-ne-unbound :
      (left iteration : ℕ) (now : Run) (w : W)
      → (left ≡ 0 → now.last ≢ none)
      → (iterations codec loop gen_request val_request left iteration now w).0 ≢ err unbound_result
  unfolding iterations
  iterations-ne-unbound zero iteration now w some_last h =
      unfold exhausted in ground (arith, some_last refl)
  iterations-ne-unbound (suc left) iteration now w some_last h =
      proceed-ne-unbound _ _ (iterate-ne-unbound iteration now w)
        (λ c w1 e.
          iterate-HasLast (iterate-ok codec loop gen_request val_request iteration now w w1 c e))
        (λ next w1 h. iterations-ne-unbound left (iteration + 1) next w1 (λ _. h)) h

  iterations_none :
      (left : ℕ) (now : Run) (w : W)
      → left ≡ 0
      → (iterations codec loop gen_request val_request left 0 now w).0 ≡ exhausted now
  unfolding iterations
  iterations_none zero now w z = refl
  iterations_none (suc left) now w z = absurd (omega arith)

  -- With no iteration allowed, `run` raises `UnboundLocalError`; with one or more it never does.
  pub run-unbound :
      (w : W) → ((run codec loop gen_request val_request w).0 ≡ err unbound_result) ↔ (loop.max ≡ 0)
  unfolding run start_run exhausted
  run-unbound w = (
    λ h. elim (Bool-cases (eqb loop.max 0)) [
      | inl e ↦ ground arith
      | inr e ↦ absurd (iterations-ne-unbound loop.max 0 _ w (λ z. ground arith) h)
    ],
    λ z. iterations_none loop.max _ w z,
  )
