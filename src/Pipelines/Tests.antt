-- ===== src/Pipelines/Tests.antt =====
-- A verification with a lint that fails, and a log of two entries. The world counts commands.
use aieos_agent_harness.Base.{
  ℕ, suc, ◌+◌, string_eq, ◌≡◌, ◌↔◌, ◌⊎◌, refl, none, some, [], ◌∷◌, ◌++◌, ◌==◌, if◌then◌else◌,
}
use aieos_agent_harness.Base.Integer.{pos}
use aieos_agent_harness.Adapter.{ok, Adapter}
use aieos_agent_harness.Pipelines.{
  Shell, finished, OrdVerification, PipelineResult, ord_commands, configured, verify, run_commands,
  ord_check, ord_result,
}
use aieos_agent_harness.Pipelines.Verdicts.{AllSucceed, given, verify-pass_iff}

abbrev shell : Shell ℕ
shell command n = (finished (if command == "ruff" then pos 1 else pos 0) "out" "", suc n)

abbrev ai : Adapter ℕ
ai = record {
  provider_name = "mock";
  model_name = "m";
  invoke = λ request n. (
    ok (record {
      content = "ready";
      provider = "mock";
      model = "m";
      tokens_in = 1;
      tokens_out = 1;
      cost_usd = 0;
      latency_ms = 0;
      truncated = none;
    }),
    n + 10,
  );
  cost_estimate = λ request. 0;
}

abbrev pipeline : OrdVerification
pipeline = record { test_cmd = "pytest"; build_cmd = none; lint_cmd = some "ruff" }

both : ord_commands pipeline ≡ ("test_suite", "pytest") ∷ ("lint", "ruff") ∷ []
unfolding ord_commands configured string_eq
both = refl

abbrev verified : PipelineResult
verified = (ord_result (run_commands shell ord_check (ord_commands pipeline) 0).0 "ready")

runs : verify shell ai pipeline "spec" 0 ≡ (ok verified, 12)
unfolding verify run_commands ord_commands configured string_eq
runs = refl

verify-pass_iff_example :
    ((verified.status ≡ "pass")
      ↔ AllSucceed shell (("test_suite", "pytest") ∷ [] ++ given "lint" (some "ruff")) 0)
    × ((verified.status ≡ "pass") ⊎ (verified.status ≡ "fail"))
verify-pass_iff_example = verify-pass_iff shell ai pipeline "spec" verified 0 12 runs
