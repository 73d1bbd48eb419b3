-- ===== src/Convergence/Tests.antt =====
-- A run of the loop over a scripted provider, and the theorems about `run` at that run.
use aieos_agent_harness.Base.{
  ℕ, ◌+◌, String, ◌≡◌, refl, none, some, List, [], ◌∷◌, ◌==◌, string_eq, eqb, if◌then◌else◌, arith,
}
use aieos_agent_harness.Base.Dict
use aieos_agent_harness.Base.Lists.{count_if}
use aieos_agent_harness.Models.{
  AgentRequest, AgentResponse, ValidationResult, pre_generation, Issue,
}
use aieos_agent_harness.Adapter.{ok, Adapter}
use aieos_agent_harness.Convergence.{
  Codec, ConvergenceLoop, RunResult, run, start_run, iterations, iterate, validate, conclude,
  decide, judged, corrected, parse_validation_result, build_correction_request, judge_request,
  provenance_of, proceed,
}
use aieos_agent_harness.Convergence.Verdict.{
  VerdictJson, LedgerEntry, verdict, detect_staleness, detect_oscillation,
}
use aieos_agent_harness.Convergence.Soundness.{IsJudged, run-IsJudged}
use aieos_agent_harness.Convergence.Ledger.{IsAccounted, run-IsAccounted}
use aieos_agent_harness.Convergence.Meters.{Meters, IsMetered, IsWithin}
use aieos_agent_harness.Convergence.Budget.{run-IsWithin}
use aieos_agent_harness.Convergence.Lenses.{IsSilent, returned, silent_lenses}

abbrev gap : Issue
gap = ("gate", "structure") ∷ ("description", "no scope") ∷ []

abbrev json : String → List Issue → VerdictJson
json status issues = record {
  status = some status;
  summary = some "";
  hard_gates = some (("structure", status) ∷ []);
  blocking_issues = some issues;
  warnings = none;
  completeness_score = some 90;
}

-- A text "PASS" or "FAIL" stands for a verdict.
abbrev codec : Codec
codec = record {
  sha256 = λ s. s;
  find_json = λ s.
      if s == "PASS"
      then some (json "PASS" [])
      else if s == "FAIL"
      then some (json "FAIL" (gap ∷ []))
      else none;
}

abbrev reply : String → AgentResponse
reply content = record {
  content = content;
  provider = "p";
  model = "m";
  tokens_in = 1;
  tokens_out = 2;
  cost_usd = 3;
  latency_ms = 4;
  truncated = none;
}

-- The world counts the calls. The second call, the first validation, fails.
abbrev scripted : (ℕ → String) → Adapter ℕ
scripted script = record {
  provider_name = "p";
  model_name = "m";
  invoke = λ q w. (ok (reply (script w)), w + 1);
  cost_estimate = λ q. 0;
}

abbrev loop : ℕ → ConvergenceLoop ℕ
loop max = record {
  gen = scripted (λ w. "text");
  val = scripted (λ w. if eqb w 1 then "FAIL" else "PASS");
  max = max;
  lenses = [];
}

abbrev question : AgentRequest
question = record {
  artifact_type = "SAD";
  event = pre_generation;
  spec_content = "spec";
  template_content = "";
  prompt_content = "prompt";
  upstream_artifacts = [];
  current_artifact = none;
  correction_constraints = [];
  metadata = ("artifact_id", "SAD-1") ∷ [];
  declared_inputs = [];
  temperature = none;
}

abbrev outcome : String → List Issue → ValidationResult
outcome status issues = record {
  status = status;
  summary = "";
  hard_gates = ("structure", status) ∷ [];
  blocking_issues = issues;
  warnings = [];
  completeness_score = 90;
}

abbrev entry : ℕ → ValidationResult → LedgerEntry
entry n result = verdict n result (record {
  validator_prompt_sha256 = "prompt";
  provider = "p";
  model = "m";
  temperature = some 0;
})

abbrev second_time : RunResult
second_time = record {
  response = reply "text";
  result = outcome "PASS" [];
  state = record {
    artifact_id = "SAD-1";
    artifact_type = "SAD";
    max_iterations = 3;
    current_iteration = 2;
    ledger = entry 1 (outcome "FAIL" (gap ∷ [])) ∷ entry 2 (outcome "PASS" []) ∷ [];
  };
  warnings = [];
}

converges : run codec (loop 3) question question 0 ≡ (ok second_time, 4)
unfolding run start_run iterations iterate validate conclude decide judged corrected
    parse_validation_result build_correction_request judge_request provenance_of proceed string_eq
    Dict.get_or Dict.get detect_staleness detect_oscillation
converges = refl

run-IsJudged_example : IsJudged codec (loop 3) question question (reply "text") (outcome "PASS" [])
run-IsJudged_example = run-IsJudged codec (loop 3) question question 0 4 second_time converges refl

run-IsAccounted_example : IsAccounted codec (loop 3) question question second_time
run-IsAccounted_example = run-IsAccounted codec (loop 3) question question 0 4 second_time converges

-- A provider whose calls count themselves, one meter for each kind.
abbrev counting : (ℕ × ℕ × ℕ → ℕ × ℕ × ℕ) → Adapter (ℕ × ℕ × ℕ)
counting bump = record {
  provider_name = "p";
  model_name = "m";
  invoke = λ q w. (ok (reply "PASS"), bump w);
  cost_estimate = λ q. 0;
}

abbrev meters : Meters (ℕ × ℕ × ℕ)
meters = record { gens = λ w. w.0; vals = λ w. w.1; lens_calls = λ w. w.2; watched = "security" }

abbrev metered : ConvergenceLoop (ℕ × ℕ × ℕ)
metered = record {
  gen = counting (λ w. (w.0 + 1, w.1, w.2));
  val = counting (λ w. (w.0, w.1 + 1, w.2));
  max = 3;
  lenses = ("security", counting (λ w. (w.0, w.1, w.2 + 1))) ∷ ("cost", counting (λ w. w)) ∷ [];
}

metered-IsMetered : IsMetered meters metered
unfolding count_if string_eq
metered-IsMetered = record {
  gen_once = λ q w. omega arith;
  val_once = λ q w. omega arith;
  lens_once = (λ q w. omega arith, (λ q w. omega arith, tt));
  one_name = omega arith;
}

run-IsWithin_example :
    IsWithin meters 3 3 3 (0, 0, 0) (run codec metered question question (0, 0, 0)).1
run-IsWithin_example =
    run-IsWithin meters codec metered question question metered-IsMetered (0, 0, 0)

-- A lens that says FAIL and lists no issue.
abbrev vague : Codec
vague = record { sha256 = λ s. s; find_json = λ s. some (json "FAIL" []) }

abbrev reviewed : ConvergenceLoop ℕ
reviewed = record (loop 3) { lenses = ("security", scripted (λ w. "no")) ∷ [] }

vague-IsSilent : IsSilent {W = ℕ} vague (scripted (λ w. "no"))
unfolding parse_validation_result
vague-IsSilent q w (result, parsed, failed, listed) = ground (arith, listed)

silent_lenses_example :
    returned
      (decide vague reviewed 0 question
        (reply "text")
        (outcome "PASS" [])
        (start_run vague reviewed question)
        0).0
    ≡ some (reply "text", outcome "PASS" [])
silent_lenses_example =
    silent_lenses vague reviewed 0 question (reply "text") (outcome "PASS" [])
      (start_run vague reviewed question) 0 (vague-IsSilent, tt) refl

abbrev failing_entry : ℕ → LedgerEntry
failing_entry n = entry n (outcome "FAIL" (gap ∷ []))
