-- ===== src/Calibration/Tests.antt =====
-- src/calibration.py: one gold case judged three times, and the theorems about it.
use aieos_agent_harness.Base.{
  ℕ, ◌+◌, String, string_eq, ◌≡◌, refl, ◌≢◌, ◌↔◌, true, none, some, [], ◌∷◌,
}
use aieos_agent_harness.Base.Dict
use aieos_agent_harness.Base.Dict.{Dict}
use aieos_agent_harness.Base.Lists.{any, count_if}
use aieos_agent_harness.Adapter.{ok, Adapter}
use aieos_agent_harness.Convergence.{Codec, parse_validation_result}
use aieos_agent_harness.Convergence.Verdict.{VerdictJson}
use aieos_agent_harness.Calibration.{
  thresholds, GoldCase, CalibrationRuns, Evidence, Setting, freeze_gate, evidence_of, verdict_of,
  judge_case, judge_cases, run_calibration,
}
use aieos_agent_harness.Calibration.Runs.{AllHeard, run_calibration-AllHeard}
use aieos_agent_harness.Calibration.Scoring.{
  CalibrationReport, verdicts_on, is_false_pass, is_flip, score_gate, score_gates, score_cases,
  below, verdict_for, report_of, score,
}
use aieos_agent_harness.Calibration.Agreement.{IsEnough, labelled}
use aieos_agent_harness.Calibration.Verdicts.{Agree, Strict, EveryGate, score_passes_iff}
use aieos_agent_harness.Calibration.LockFile.{
  LockState, entries, validators_of, entry_of, write_lock, check_lock, write_lock-check_lock,
}

abbrev gold_case : GoldCase
gold_case = record {
  case_id = "case-1";
  artifact_type = "SAD";
  validator = "sad-validator";
  expected_gates = ("structure", "PASS") ∷ ("intent", "FAIL") ∷ [];
  spec_exemption_case = true;
  input_content = "fixture";
}

abbrev json : VerdictJson
json = record {
  status = some "FAIL";
  summary = some "";
  hard_gates = some (("structure", "PASS") ∷ ("intent", "FAIL") ∷ []);
  blocking_issues = some [];
  warnings = none;
  completeness_score = some 90;
}

abbrev codec : Codec
codec = record { sha256 = λ s. s; find_json = λ s. some json }

abbrev judge : Adapter ℕ
judge = record {
  provider_name = "p";
  model_name = "m";
  invoke = λ q w. (
    ok (record {
      content = "";
      provider = "p";
      model = "m";
      tokens_in = 1;
      tokens_out = 2;
      cost_usd = 3;
      latency_ms = 4;
      truncated = none;
    }),
    w + 1,
  );
  cost_estimate = λ q. 0;
}

abbrev setting : Setting
setting = record {
  validator_prompt = "prompt";
  spec_content = "spec";
  template_content = "";
  upstream = [];
}

abbrev gates : Dict String String
gates = ("structure", "PASS") ∷ ("intent", "FAIL") ∷ []

abbrev evidence : ℕ → Evidence
evidence n = record { run = n; status = "FAIL"; summary = ""; blocking_issues = [] }

abbrev calibrated : CalibrationRuns
calibrated = record {
  validator = "sad-validator";
  artifact_type = "SAD";
  provider = "p";
  model = "m";
  prompt_sha256 = "prompt";
  case_runs =
      record {
        gold = gold_case;
        gate_verdicts = gates ∷ gates ∷ gates ∷ [];
        run_evidence = evidence 1 ∷ evidence 2 ∷ evidence 3 ∷ [];
      }
      ∷ [];
}

three_runs : run_calibration codec setting judge (gold_case ∷ []) 0 ≡ (ok calibrated, 3)
unfolding run_calibration judge_cases judge_case verdict_of parse_validation_result evidence_of
three_runs = refl

run_calibration-AllHeard_example :
    AllHeard codec setting judge (gold_case ∷ []) 0 calibrated.case_runs 3
    × (calibrated.prompt_sha256 ≡ "prompt")
run_calibration-AllHeard_example =
    run_calibration-AllHeard codec setting judge (gold_case ∷ []) 0 3 calibrated three_runs

score_passes_iff_example : ((score calibrated freeze_gate).verdict ≡ "PASS") ↔ (
    EveryGate (λ e vs. Agree vs) calibrated.case_runs
    × (freeze_gate ≡ freeze_gate → EveryGate Strict calibrated.case_runs)
    × IsEnough freeze_gate (labelled calibrated.case_runs))
score_passes_iff_example = score_passes_iff calibrated freeze_gate

passes : (score calibrated freeze_gate).verdict ≡ "PASS"
unfolding score report_of verdict_for score_cases score_gates score_gate is_flip verdicts_on any
    string_eq Dict.get_or Dict.get Dict.insert thresholds is_false_pass below count_if
passes = refl

abbrev report : CalibrationReport
report = score calibrated freeze_gate

abbrev old_lock : LockState
old_lock = entries (("prd-validator", some (entry_of report "prd.json")) ∷ [])

abbrev new_lock : LockState
new_lock = entries (
    ("prd-validator", some (entry_of report "prd.json"))
    ∷ ("sad-validator", some (entry_of report "report.json"))
    ∷ [])

writes : write_lock report "report.json" old_lock ≡ ok new_lock
unfolding write_lock validators_of entry_of score report_of verdict_for score_cases score_gates
    score_gate is_flip verdicts_on any string_eq Dict.get_or Dict.get Dict.insert thresholds
    is_false_pass below count_if
writes = refl

write_lock-check_lock_example :
    ((check_lock report.prompt_sha256 report.model new_lock report.validator).is_fresh ≡ true)
    × ((prompt_sha256 model other : String)
        → other ≢ report.validator
        → check_lock prompt_sha256 model new_lock other
          ≡ check_lock prompt_sha256 model old_lock other)
write_lock-check_lock_example = write_lock-check_lock report "report.json" old_lock new_lock writes
