-- ===== src/Calibration/Scoring.antt =====
-- src/calibration.py: `score` and `_verdict`. The kappa coefficient, which no verdict reads, is
-- left out of the report, and so is the date.
use aieos_agent_harness.Base.{
  ℕ, ◌+◌, ◌*◌, String, string_eq, Bool, false, not, ◌&&◌, none, some, List, [], ◌∷◌, ◌++◌, map, ltb,
  eqb, ◌==◌, if◌then◌else◌,
}
use aieos_agent_harness.Base.Dict
use aieos_agent_harness.Base.Dict.{Dict}
use aieos_agent_harness.Base.Lists.{length, any, count_if}
use aieos_agent_harness.Calibration.{Role, thresholds, CaseRuns, CalibrationRuns, runs_per_case}

-- A row of the gate matrix.
pub record Row : Type 0 where
  pub agreements : ℕ
  pub total : ℕ
  pub false_pass : ℕ
  pub flips : ℕ

abbrev pub empty_row : Row
empty_row = record { agreements = 0; total = 0; false_pass = 0; flips = 0 }

-- The local variables of the loops of `score`. A flip is a case and a gate.
pub record Tally : Type 0 where
  pub agreements : ℕ
  pub total : ℕ
  pub false_pass_count : ℕ
  pub stability_flips : List (String × String)
  pub gates : Dict String Row

abbrev pub empty_tally : Tally
empty_tally = record {
  agreements = 0;
  total = 0;
  false_pass_count = 0;
  stability_flips = [];
  gates = [];
}

-- The verdicts of the runs on one gate; a run that omits it counts as MISSING.
unfoldable pub verdicts_on : String → List (Dict String String) → List String
verdicts_on gate = map (λ rv. Dict.get_or rv gate "MISSING")

-- `expected == "FAIL" and any(v == "PASS" for v in verdicts)`
unfoldable pub is_false_pass : String → List String → Bool
is_false_pass expected verdicts = expected == "FAIL" && any (λ v. v == "PASS") verdicts

-- `len(set(verdicts)) > 1`
unfoldable pub is_flip : List String → Bool
is_flip [] = false
is_flip (v ∷ vs) = any (λ u. not (u == v)) vs

abbrev pub one_if : Bool → ℕ
one_if b = if b then 1 else 0

-- The body of the inner loop, for one gate of one case.
unfoldable pub score_gate : CaseRuns → String → String → Tally → Tally
score_gate cr gate expected t =
    let verdicts = verdicts_on gate cr.gate_verdicts in
    let agreed = count_if (λ v. v == expected) verdicts in
    let false_pass = is_false_pass expected verdicts in
    let flip = is_flip verdicts in
    let row = Dict.get_or t.gates gate empty_row in
    record {
      agreements = t.agreements + agreed;
      total = t.total + length verdicts;
      false_pass_count = t.false_pass_count + one_if false_pass;
      stability_flips =
          if flip then t.stability_flips ++ (cr.gold.case_id, gate) ∷ [] else t.stability_flips;
      gates =
          Dict.insert gate
            (record {
              agreements = row.agreements + agreed;
              total = row.total + length verdicts;
              false_pass = row.false_pass + one_if false_pass;
              flips = row.flips + one_if flip;
            })
            t.gates;
    }

unfoldable pub score_gates : CaseRuns → Dict String String → Tally → Tally
score_gates cr [] t = t
score_gates cr ((gate, expected) ∷ gates) t = score_gates cr gates (score_gate cr gate expected t)

unfoldable pub score_cases : List CaseRuns → Tally → Tally
score_cases [] t = t
score_cases (cr ∷ crs) t = score_cases crs (score_gates cr cr.gold.expected_gates t)

-- `gate_agreement < agreement_min`, where no verdict at all is an agreement of 0.0.
unfoldable pub below : ℕ → (agreements total : ℕ) → Bool
below least agreements total =
    if eqb total 0 then ltb 0 least else ltb (agreements * 100) (least * total)

-- `_verdict`
unfoldable pub verdict_for :
    Role → (agreements total false_passes : ℕ) → List (String × String) → String
verdict_for role agreements total false_passes [] =
    let failing : Bool = elim (thresholds role).false_pass_max [
      | none ↦ false
      | some most ↦ ltb most false_passes
    ] in
    if failing
    then "FAIL"
    else if below (thresholds role).agreement_min agreements total
    then "FAIL"
    else "PASS"
verdict_for role agreements total false_passes (flip ∷ flips) = "FAIL"

pub record CalibrationReport : Type 0 where
  pub validator : String
  pub artifact_type : String
  pub role : Role
  pub provider : String
  pub model : String
  pub prompt_sha256 : String
  pub case_count : ℕ
  pub runs : ℕ
  pub gate_agreement : ℕ × ℕ
  pub false_pass_count : ℕ
  pub stability_flips : List (String × String)
  pub verdict : String
  pub gates : Dict String Row

unfoldable pub report_of : CalibrationRuns → Role → Tally → CalibrationReport
report_of r role t = record {
  validator = r.validator;
  artifact_type = r.artifact_type;
  role = role;
  provider = r.provider;
  model = r.model;
  prompt_sha256 = r.prompt_sha256;
  case_count = length r.case_runs;
  runs = runs_per_case;
  gate_agreement = (t.agreements, t.total);
  false_pass_count = t.false_pass_count;
  stability_flips = t.stability_flips;
  verdict = verdict_for role t.agreements t.total t.false_pass_count t.stability_flips;
  gates = t.gates;
}

unfoldable pub score : CalibrationRuns → Role → CalibrationReport
score r role = report_of r role (score_cases r.case_runs empty_tally)
