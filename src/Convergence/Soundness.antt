-- ===== src/Convergence/Soundness.antt =====
-- src/convergence.py: what `ConvergenceLoop.run` returns was generated, and judged as returned.
use mathlib.Core.Path.{subst}
use text.Mathlib.TextEquality.{eq_iff}
use aieos_agent_harness.Base.{
  ℕ, String, ◌≡◌, refl, ap, ◌≢◌, ◌⊎◌, inl, inr, Bool, true, false, Bool-cases, ◌==◌, string_eq, ltb,
  ◌-◌, Option, none, some, [], arith,
}
use aieos_agent_harness.Models.{AgentRequest, AgentResponse, ValidationResult}
use aieos_agent_harness.Adapter.{ok}
use aieos_agent_harness.Convergence.Iteration.{Iterated, recorded, iterations_rule}
use aieos_agent_harness.Convergence.{
  is_true, judged, Codec, ConvergenceLoop, Run, RunResult, Control, finish, again, Reviews,
  is_empty, corrected, lens_failure, parse_validation_result, build_correction_request,
  judge_request, run_lens_reviews, decide, run, start_run, exhausted, lens_step, after_lenses,
}

module _ {W : Type 0} (codec : Codec) (loop : ConvergenceLoop W)
    (gen_request val_request : AgentRequest) where
  -- The generator gave `response`, complete, and then the judge, asked about that response, gave an
  -- answer that parses to `result`.
  pub record IsReply (response : AgentResponse) (result : ValidationResult) : Type 0 where
    pub request : AgentRequest
    pub before : W
    pub between : W
    pub after : W
    pub answer : AgentResponse
    pub complete : response.truncated ≢ some true
    pub generated : loop.gen.invoke request before ≡ (ok response, between)
    pub validated :
        loop.val.invoke (judge_request val_request response) between ≡ (ok answer, after)
    pub parsed : parse_validation_result codec answer ≡ some result

  -- The caller's request with the blocking issues of one verdict of the judge, which failed.
  pub record IsCorrection (q : AgentRequest) : Type 0 where
    pub response : AgentResponse
    pub result : ValidationResult
    pub reply : IsReply response result
    pub failed : result.status ≢ "PASS"
    pub is : q ≡ build_correction_request gen_request result.blocking_issues

  -- The caller's request with the issues of one review round of the lenses, which began with none
  -- where the judge had passed the response that they review.
  pub record IsReviewed (q : AgentRequest) : Type 0 where
    pub response : AgentResponse
    pub result : ValidationResult
    pub reply : IsReply response result
    pub passed : result.status ≡ "PASS"
    pub iteration : ℕ
    pub seen : Reviews
    pub fresh : seen.issues ≡ []
    pub is :
        q
        ≡ build_correction_request gen_request
            (run_lens_reviews codec loop.lenses response gen_request iteration seen
              reply.after).0.issues

  abbrev pub IsAsked : AgentRequest → Type 0
  IsAsked q = (q ≡ gen_request) ⊎ (IsCorrection q ⊎ IsReviewed q)

  pub record IsJudged (response : AgentResponse) (result : ValidationResult) : Type 0 where
    pub reply : IsReply response result
    pub asked : IsAsked reply.request

  record IsSound (run : Run) : Type 0 where
    asked : IsAsked run.request
    last : (a : AgentResponse) (b : ValidationResult) → run.last ≡ some (a, b) → IsJudged a b

  abbrev IsAccepted : RunResult → Type 0
  IsAccepted r = r.result.status ≡ "PASS" → IsJudged r.response r.result

  abbrev IsSoundControl : Control → Type 0
  IsSoundControl (finish r) = IsAccepted r
  IsSoundControl (again run') = IsSound run'

  fail-ne-pass : ◌≢◌ {A = String} "FAIL" "PASS"
  fail-ne-pass = ground (arith, eq_iff "FAIL" "PASS")

  after_lenses-IsSound :
      (iteration : ℕ) (response : AgentResponse) (result : ValidationResult) (reviews : Reviews)
      (run : Run)
      → IsJudged response result
      → IsSound run
      → IsAsked (build_correction_request gen_request reviews.issues)
      → IsSoundControl (after_lenses loop.max iteration gen_request response result reviews run)
  unfolding after_lenses lens_failure
  after_lenses-IsSound iteration response result reviews run j s asked =
      elim (Bool-cases (is_empty reviews.issues)) [
        | inl e ↦ rw e (λ _. j)
        | inr e ↦ rw e (elim (Bool-cases (ltb iteration (loop.max - 1))) [
          | inl l ↦ rw l (record { asked = asked; last = s.last })
          | inr l ↦ rw l (λ p. absurd (fail-ne-pass p))
        ])
      ]

  decide-IsSound :
      (iteration : ℕ) (response : AgentResponse) (result : ValidationResult) (run : Run) (w : W)
      (j : IsJudged response result)
      → j.reply.after ≡ w
      → IsSound run
      → IsSoundControl (decide codec loop iteration gen_request response result run w).0
  unfolding decide lens_step corrected
  decide-IsSound iteration response result run w j here s =
      elim (Bool-cases (result.status == "PASS")) [
        | inl p ↦ rw p (elim (Bool-cases (is_empty loop.lenses)) [
          | inl e ↦ rw e (λ _. j)
          | inr e ↦ rw e (
              after_lenses-IsSound iteration response result _ run j s (
                inr (
                  inr (record {
                    response = response;
                    result = result;
                    reply = j.reply;
                    passed = ground (arith, p);
                    iteration = run.state.current_iteration;
                    seen = record {
                      ledger = run.state.ledger;
                      issues = [];
                      warnings = run.warnings;
                    };
                    fresh = refl;
                    is = rw here refl;
                  }))))
        ])
        | inr p ↦ rw p (elim (Bool-cases (ltb iteration (loop.max - 1))) [
          | inl l ↦ rw l (record {
            asked = inr (
                inl (record {
                  response = response;
                  result = result;
                  reply = j.reply;
                  failed = ground (arith, p);
                  is = refl;
                }));
            last = s.last;
          })
          | inr l ↦ rw l s
        ])
      ]

  is_true-ne : (o : Option Bool) → is_true o ≡ false → o ≢ some true
  is_true-ne none h e = cc
  is_true-ne (some true) h e = cc
  is_true-ne (some false) h e = cc

  recorded-IsSound :
      {iteration : ℕ} {run : Run} {w w' : W} {c : Control}
      (it : Iterated codec loop gen_request val_request iteration run w w' c)
      → IsSound run
      → IsJudged it.response it.result
      → IsSound (
          recorded codec loop gen_request val_request iteration run it.response it.answer it.result)
  unfolding judged
  recorded-IsSound it s j = record {
    asked = s.asked;
    last = λ a b e. subst (λ (x : AgentResponse × ValidationResult). IsJudged x.0 x.1) (cc) j;
  }

  iterate-IsSound :
      {iteration : ℕ} {run : Run} {w w' : W} {c : Control}
      → Iterated codec loop gen_request val_request iteration run w w' c
      → IsSound run
      → IsSoundControl c
  iterate-IsSound {iteration} {run} it s =
      let j : IsJudged it.response it.result = record {
        reply = record {
          request = run.request;
          before = _;
          between = it.between;
          after = it.after;
          answer = it.answer;
          complete = is_true-ne _ it.complete;
          generated = it.generated;
          validated = it.validated;
          parsed = it.parsed;
        };
        asked = s.asked;
      } in
      rw (ap (λ (x : Control × W). x.0) it.decided) at
        (decide-IsSound iteration it.response it.result _ it.after j refl (recorded-IsSound it s j))

  exhausted-IsSound :
      (run : Run) (r : RunResult) → IsSound run → exhausted run ≡ ok r → IsAccepted r
  unfolding exhausted
  exhausted-IsSound run r s h p = s.last r.response r.result (ground arith)

  -- Whatever the adapters do: if `run` returns a result with status PASS, the generator gave the
  -- returned response, complete, and the judge, asked next and about that very response, gave an
  -- answer that parses to the returned result. The generator was asked the caller's request, or the
  -- caller's request with the blocking issues of exactly one verdict, a failing one that the judge
  -- gave on a generated response, or with the issues of exactly one review round of the lenses, begun
  -- with no issues where the judge had passed the reviewed response.
  pub run-IsJudged :
      (w w' : W) (r : RunResult)
      → run codec loop gen_request val_request w ≡ (ok r, w')
      → r.result.status ≡ "PASS"
      → IsJudged r.response r.result
  unfolding run start_run
  run-IsJudged w w' r =
      iterations_rule codec loop gen_request val_request (λ _. IsSound) IsAccepted loop.max
        exhausted-IsSound (λ iteration run w w' c _. iterate-IsSound) loop.max 0 _ w w' r
        (omega arith) (record { asked = inl refl; last = λ a b e. cc })
