-- ===== src/Calibration.antt =====
-- src/calibration.py: the calibration of a judge against gold cases, and the lock that CI checks.
-- A share of agreement is the pair of its numerator and its denominator, and `agreement_min` is in
-- hundredths. Fields of a gold case and of the runs that no function here reads (who labelled it, the
-- pin of its fixture, the delivered upstream identifiers) are left out, and an error is its code.
-- The hash and the parser of the judge's JSON are the parameters of Convergence.
pub mod Floor
pub mod Runs
pub mod Scoring
pub mod LockFile
pub mod Agreement
pub mod Verdicts
mod Tests
use aieos_agent_harness.Base.{
  ℕ, zero, suc, ◌+◌, ◌*◌, String, string_eq, Bool, true, false, not, ◌&&◌, Option, none, some, List,
  [], ◌∷◌, ◌++◌, map, ltb, leb, ◌==◌, decimal, if◌then◌else◌,
}
use aieos_agent_harness.Base.Dict
use aieos_agent_harness.Base.Dict.{Dict}
use aieos_agent_harness.Base.Lists.{length, any, all, count_if}
use aieos_agent_harness.Models.{
  AgentRequest, AgentResponse, pre_validation, ValidationResult, Issue,
}
use aieos_agent_harness.Adapter.{Outcome, ok, err, Call, Adapter, pure, raise, rethrow, ◌>>=◌}
use aieos_agent_harness.Convergence.{Codec, parse_validation_result}

abbrev pub runs_per_case : ℕ
runs_per_case = 3

abbrev pub floor_min_cases : ℕ
floor_min_cases = 12

abbrev pub floor_min_spec_exemption_cases : ℕ
floor_min_spec_exemption_cases = 2

abbrev pub floor_min_pass_cases : ℕ
floor_min_pass_cases = 1

abbrev pub floor_min_fail_cases : ℕ
floor_min_fail_cases = 1

-- The keys of `THRESHOLDS`.
pub data Role : Type 0 where
  freeze_gate advisory : Role

pub record Thresholds : Type 0 where
  pub agreement_min : ℕ
  pub false_pass_max : Option ℕ

unfoldable pub thresholds : Role → Thresholds
thresholds freeze_gate = record { agreement_min = 90; false_pass_max = some 0 }
thresholds advisory = record { agreement_min = 75; false_pass_max = none }

pub record GoldCase : Type 0 where
  pub case_id : String
  pub artifact_type : String
  pub validator : String
  pub expected_gates : Dict String String
  pub spec_exemption_case : Bool
  pub input_content : String

-- The number, status, summary and blocking issues of one run.
pub record Evidence : Type 0 where
  pub run : ℕ
  pub status : String
  pub summary : String
  pub blocking_issues : List Issue

pub record CaseRuns : Type 0 where
  pub gold : GoldCase
  pub gate_verdicts : List (Dict String String)
  pub run_evidence : List Evidence

pub record CalibrationRuns : Type 0 where
  pub validator : String
  pub artifact_type : String
  pub provider : String
  pub model : String
  pub prompt_sha256 : String
  pub case_runs : List CaseRuns

pub data CalibrationError : Type 0 where
  bad_gold_set below_floor bad_judge_output verdict_fail : CalibrationError
  provider_error : String → CalibrationError

unfoldable pub is_gold_fail : GoldCase → Bool
is_gold_fail c = any (λ (g, v). v == "FAIL") c.expected_gates

unfoldable pub is_gold_pass : GoldCase → Bool
is_gold_pass c = all (λ (g, v). v == "PASS") c.expected_gates

-- `_check_activation_floor`: does it let the gold set through?
unfoldable pub meets_floor : List GoldCase → Bool
meets_floor cases =
    not (ltb (length cases) floor_min_cases)
    && (not (ltb (count_if (λ c. c.spec_exemption_case) cases) floor_min_spec_exemption_cases)
        && (not (ltb (count_if is_gold_pass cases) floor_min_pass_cases)
            && not (ltb (count_if is_gold_fail cases) floor_min_fail_cases)))

-- The arguments of `run_calibration` beside the cases and the judge.
pub record Setting : Type 0 where
  pub validator_prompt : String
  pub spec_content : String
  pub template_content : String
  pub upstream : Dict String String

-- The request of run `n` of a case, from 1.
unfoldable pub case_request : Setting → GoldCase → ℕ → AgentRequest
case_request s c n = record {
  artifact_type = c.artifact_type;
  event = pre_validation;
  spec_content = s.spec_content;
  template_content = s.template_content;
  prompt_content = s.validator_prompt;
  upstream_artifacts = s.upstream;
  current_artifact = some c.input_content;
  correction_constraints = [];
  metadata = ("case_id", c.case_id) ∷ ("calibration_run", decimal n) ∷ [];
  declared_inputs = [];
  temperature = some 0;
}

unfoldable pub evidence_of : ℕ → ValidationResult → Evidence
evidence_of n result = record {
  run = n;
  status = result.status;
  summary = result.summary;
  blocking_issues = result.blocking_issues;
}

-- A verdict that does not parse ends the calibration.
unfoldable pub verdict_of :
    {W : Type 0} → Option ValidationResult → Call W CalibrationError ValidationResult
verdict_of none = raise bad_judge_output
verdict_of (some result) = pure result

-- What one case has come to, its runs in order.
pub record Judged : Type 0 where
  pub gates : List (Dict String String)
  pub evidence : List Evidence
  pub names : String × String

module _ {W : Type 0} (codec : Codec) (s : Setting) (judge : Adapter W) where
  -- The runs of one case from run `n` on, `k` of them. The pair of names is the provider and the
  -- model of the last response.
  unfoldable pub judge_case :
      (k n : ℕ) → GoldCase → String × String → Call W CalibrationError Judged
  judge_case zero n c names = pure (record { gates = []; evidence = []; names = names })
  judge_case (suc k) n c names = do
    response ← rethrow provider_error (judge.invoke (case_request s c n))
    result ← verdict_of (parse_validation_result codec response)
    later ← judge_case k (suc n) c (response.provider, response.model)
    pure (record {
      gates = result.hard_gates ∷ later.gates;
      evidence = evidence_of n result ∷ later.evidence;
      names = later.names;
    })

  unfoldable pub judge_cases :
      List GoldCase → String × String → Call W CalibrationError (List CaseRuns × (String × String))
  judge_cases [] names = pure ([], names)
  judge_cases (c ∷ cases) names = do
    j ← judge_case runs_per_case 1 c names
    rest ← judge_cases cases j.names
    pure (record { gold = c; gate_verdicts = j.gates; run_evidence = j.evidence } ∷ rest.0, rest.1)

  unfoldable pub run_calibration : List GoldCase → Call W CalibrationError CalibrationRuns
  run_calibration [] = raise bad_gold_set
  run_calibration (c ∷ cases) = do
    judged ← judge_cases (c ∷ cases) ("", "")
    pure (record {
      validator = c.validator;
      artifact_type = c.artifact_type;
      provider = judged.1.0;
      model = judged.1.1;
      prompt_sha256 = codec.sha256 s.validator_prompt;
      case_runs = judged.0;
    })
