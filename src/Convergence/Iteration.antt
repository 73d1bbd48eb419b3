-- ===== src/Convergence/Iteration.antt =====
-- src/convergence.py: an iteration of the loop taken apart, for the proofs about `run`.
use mathlib.Core.Path.{subst}
use aieos_agent_harness.Base.{
  ℕ, zero, suc, ◌<◌, ◌+◌, ◌≡◌, refl, ap, false, some, Option-cases, inl, inr, arith,
}
use aieos_agent_harness.Models.{AgentRequest, AgentResponse, ValidationResult}
use aieos_agent_harness.Adapter.{
  Outcome, ok, err, Call, rethrow, raise_if, ◌>>=◌, bind-ok, rethrow-ok, raise_if-ok,
}
use aieos_agent_harness.Convergence.{
  Codec, ConvergenceLoop, RunError, Run, Control, parse_validation_result, judge_request, decide,
  iterate, judged, provenance_of, is_true, adapter_failed, RunResult, finish, again, iterations,
  exhausted, proceed, conclude, validate, truncated_generation,
}

abbrev entered : Run → ℕ → Run
entered run iteration = record run {
  state = record run.state { current_iteration = iteration + 1 };
}

-- What holds at the end of an iteration: `Q` of a result, or `P` before the next iteration.
abbrev pub Step : (ℕ → Run → Type 0) → (RunResult → Type 0) → ℕ → Control → Type 0
Step P Q iteration (finish r) = Q r
Step P Q iteration (again run) = P (iteration + 1) run

module _ {W : Type 0} (codec : Codec) (loop : ConvergenceLoop W)
    (gen_request val_request : AgentRequest) where
  -- The verdict of an iteration, once it is in the ledger.
  abbrev pub recorded : ℕ → Run → AgentResponse → AgentResponse → ValidationResult → Run
  recorded iteration run response answer result =
      judged (iteration + 1) response result
        (provenance_of codec (judge_request val_request response) answer) (entered run iteration)

  -- What an iteration that raises nothing has done.
  pub record Iterated (iteration : ℕ) (run : Run) (w w' : W) (c : Control) : Type 0 where
    pub response : AgentResponse
    pub answer : AgentResponse
    pub result : ValidationResult
    pub between : W
    pub after : W
    pub generated : loop.gen.invoke run.request w ≡ (ok response, between)
    pub complete : is_true response.truncated ≡ false
    pub validated :
        loop.val.invoke (judge_request val_request response) between ≡ (ok answer, after)
    pub parsed : parse_validation_result codec answer ≡ some result
    pub decided :
        decide codec loop iteration gen_request response result
          (recorded iteration run response answer result)
          after
        ≡ (c, w')

  conclude-ok :
      (iteration : ℕ) (run : Run) (response answer : AgentResponse) (w w' : W) (c : Control)
      → conclude codec loop gen_request val_request iteration
          (entered run iteration)
          response
          answer
          w
        ≡ (ok c, w')
      → (result : ValidationResult) × (parse_validation_result codec answer ≡ some result)
        × (decide codec loop iteration gen_request response result
              (recorded iteration run response answer result)
              w
            ≡ (c, w'))
  unfolding conclude
  conclude-ok iteration run response answer w w' c h =
      elim (Option-cases (parse_validation_result codec answer)) [
        | inl e ↦ ground arith
        | inr (result, e) ↦ (result, e, ground arith)
      ]

  pub iterate-ok :
      (iteration : ℕ) (run : Run) (w w' : W) (c : Control)
      → iterate codec loop gen_request val_request iteration run w ≡ (ok c, w')
      → Iterated iteration run w w' c
  unfolding iterate validate
  iterate-ok iteration run w w' c h =
      let run1 = entered run iteration in
      let (response, w1, p1, h1) =
        bind-ok (rethrow adapter_failed (loop.gen.invoke run.request))
          (validate codec loop gen_request val_request iteration run1) w w' c h in
      let (u, w2, p2, h2) =
        bind-ok
          (raise_if (is_true response.truncated)
            (truncated_generation val_request.artifact_type (iteration + 1) response.tokens_out))
          (λ _.
            rethrow adapter_failed (loop.val.invoke (judge_request val_request response))
            >>= conclude codec loop gen_request val_request iteration run1 response)
          w1 w' c h1 in
      let (answer, w3, p3, h3) =
        bind-ok (rethrow adapter_failed (loop.val.invoke (judge_request val_request response)))
          (conclude codec loop gen_request val_request iteration run1 response) w2 w' c h2 in
      let (whole, same) = raise_if-ok (is_true response.truncated) _ w1 w2 u p2 in
      let (result, e, d) = conclude-ok iteration run response answer w3 w' c h3 in
      record {
        response = response;
        answer = answer;
        result = result;
        between = w2;
        after = w3;
        generated =
            rw same at (rethrow-ok adapter_failed (loop.gen.invoke run.request) w w1 response p1);
        complete = whole;
        validated =
            rethrow-ok adapter_failed (loop.val.invoke (judge_request val_request response)) w2 w3
              answer p3;
        parsed = e;
        decided = d;
      }

  module _ (P : ℕ → Run → Type 0) (Q : RunResult → Type 0) where
    proceed-Step :
        (iteration : ℕ) (rest : Run → Call W RunError RunResult) (x : Outcome RunError Control × W)
        (w' : W) (r : RunResult)
        → ((run : Run) (w : W) → P (iteration + 1) run → rest run w ≡ (ok r, w') → Q r)
        → ((c : Control) (w1 : W) → x ≡ (ok c, w1) → Step P Q iteration c)
        → proceed rest x ≡ (ok r, w')
        → Q r
    unfolding proceed
    proceed-Step iteration rest (err e, w) w' r later now h = cc
    proceed-Step iteration rest (ok (finish s), w) w' r later now h =
        subst Q (cc) (now (finish s) w refl)
    proceed-Step iteration rest (ok (again run), w) w' r later now h =
        later run w (now (again run) w refl) h

    -- The rule for the loop: an invariant of the iterations, and what a result has by it.
    pub iterations_rule :
        (bound : ℕ)
        → ((run : Run) (r : RunResult) → P bound run → exhausted run ≡ ok r → Q r)
        → ((iteration : ℕ) (run : Run) (w w' : W) (c : Control)
            → iteration < bound
            → Iterated iteration run w w' c
            → P iteration run
            → Step P Q iteration c)
        → (left iteration : ℕ) (run : Run) (w w' : W) (r : RunResult) → iteration + left ≡ bound
        → P iteration run
        → iterations codec loop gen_request val_request left iteration run w ≡ (ok r, w')
        → Q r
    unfolding iterations
    iterations_rule bound end step zero iteration run w w' r n p h =
        end run r (subst (λ k. P k run) (omega arith) p)
          (ap (λ (x : Outcome RunError RunResult × W). x.0) h)
    iterations_rule bound end step (suc left) iteration run w w' r n p h =
        proceed-Step iteration (iterations codec loop gen_request val_request left (iteration + 1))
          (iterate codec loop gen_request val_request iteration run w) w' r
          (λ run' w1 p' h'.
            iterations_rule bound end step left (iteration + 1) run' w1 w' r (omega arith) p' h')
          (λ c w1 e. step iteration run w w1 c (omega arith) (iterate-ok iteration run w w1 c e) p)
          h
