-- ===== src/Calibration/Runs.antt =====
-- src/calibration.py: what `run_calibration` has done when it returns, and how often it calls.
use aieos_agent_harness.Base.{
  ℕ, zero, suc, String, ◌≡◌, sym, ap, some, Option-cases, inl, inr, List, [], ◌∷◌, arith,
}
use aieos_agent_harness.Base.Dict.{Dict}
use aieos_agent_harness.Models.{AgentResponse, ValidationResult}
use aieos_agent_harness.Adapter.{Outcome, ok, Adapter, Outcome-cases}
use aieos_agent_harness.Convergence.{Codec, parse_validation_result}
use aieos_agent_harness.Calibration.{
  CalibrationError, GoldCase, Evidence, CaseRuns, CalibrationRuns, Setting, Judged, case_request,
  evidence_of, verdict_of, judge_case, judge_cases, run_calibration, runs_per_case,
}

module _ {W : Type 0} (codec : Codec) (s : Setting) (judge : Adapter W) where
  -- The runs of one case from run `n` on: each is a call of the judge on the case's request, in
  -- the world that the call before it left, and its verdicts and evidence are those of the answer.
  pub data Heard (c : GoldCase)
      : (k n : ℕ) → W → List (Dict String String) → List Evidence → W → Type 0 where
    no_more : (n : ℕ) (w : W) → Heard c zero n w [] [] w
    one_more :
        (k n : ℕ) (w w1 w' : W) (response : AgentResponse) (result : ValidationResult)
        (gates : List (Dict String String)) (evidence : List Evidence)
        → judge.invoke (case_request s c n) w ≡ (ok response, w1)
        → parse_validation_result codec response ≡ some result
        → Heard c k (suc n) w1 gates evidence w'
        → Heard c (suc k) n w (result.hard_gates ∷ gates) (evidence_of n result ∷ evidence) w'

  -- The cases in order, each heard three times.
  pub data AllHeard : List GoldCase → W → List CaseRuns → W → Type 0 where
    no_cases : (w : W) → AllHeard [] w [] w
    one_case :
        (c : GoldCase) (cases : List GoldCase) (w w1 w' : W) (gates : List (Dict String String))
        (evidence : List Evidence) (crs : List CaseRuns)
        → Heard c 3 1 w gates evidence w1
        → AllHeard cases w1 crs w'
        → AllHeard
            (c ∷ cases)
            w
            (record { gold = c; gate_verdicts = gates; run_evidence = evidence } ∷ crs)
            w'

  judge_case-Heard :
      (k n : ℕ) (c : GoldCase) (names : String × String) (w w' : W) (j : Judged)
      → judge_case codec s judge k n c names w ≡ (ok j, w')
      → Heard c k n w j.gates j.evidence w'
  unfolding judge_case verdict_of
  judge_case-Heard zero n c names w w' j h =
      let e : j ≡ (record { gates = []; evidence = []; names = names }) = ground arith in
      let f : w ≡ w' = ground arith in rw (e, sym f) (no_more n w)
  judge_case-Heard (suc k) n c names w w' j h =
      let w1 : W = (judge.invoke (case_request s c n) w).1 in
      elim (Outcome-cases (judge.invoke (case_request s c n) w).0) [
        | inr (exc, f) ↦ absurd (ground arith)
        | inl (response, f) ↦
            let names' : String × String = (response.provider, response.model) in
            let went : Outcome CalibrationError Judged × W =
              judge_case codec s judge k (suc n) c names' w1 in
            elim (Option-cases (parse_validation_result codec response)) [
              | inl p ↦ absurd (ground arith)
              | inr (result, p) ↦ elim (Outcome-cases went.0) [
                | inr (e, g) ↦ absurd (ground arith)
                | inl (later, g) ↦
                    let e : j ≡ (record {
                      gates = result.hard_gates ∷ later.gates;
                      evidence = evidence_of n result ∷ later.evidence;
                      names = later.names;
                    }) =
                      ground arith in
                    let e' : w' ≡ went.1 = ground arith in
                    rw (e, e')
                      (one_more k n w w1 went.1 response result later.gates later.evidence
                        (ap (λ o. (o, w1)) f) p
                        (judge_case-Heard k (suc n) c names' w1 went.1 later
                          (ap (λ o. (o, went.1)) g)))
              ]
            ]
      ]

  judge_cases-AllHeard :
      (cases : List GoldCase) (names : String × String) (w w' : W)
      (j : List CaseRuns × (String × String))
      → judge_cases codec s judge cases names w ≡ (ok j, w')
      → AllHeard cases w j.0 w'
  unfolding judge_cases
  judge_cases-AllHeard [] names w w' j h =
      let e : j.0 ≡ [] = ground arith in let f : w ≡ w' = ground arith in rw (e, sym f) (no_cases w)
  judge_cases-AllHeard (c ∷ cases) names w w' j h =
      let judged : Outcome CalibrationError Judged × W =
        judge_case codec s judge runs_per_case 1 c names w in
      elim (Outcome-cases judged.0) [
        | inr (exc, f) ↦ absurd (ground arith)
        | inl (first, f) ↦
            let went : Outcome CalibrationError (List CaseRuns × (String × String)) × W =
              judge_cases codec s judge cases first.names judged.1 in
            elim (Outcome-cases went.0) [
              | inr (exc, g) ↦ absurd (ground arith)
              | inl (rest, g) ↦
                  let e : j.0
                      ≡ (record {
                        gold = c;
                        gate_verdicts = first.gates;
                        run_evidence = first.evidence;
                      })
                        ∷ rest.0 =
                    ground arith in
                  let e' : w' ≡ went.1 = ground arith in
                  rw (e, e')
                    (one_case c cases w judged.1 went.1 first.gates first.evidence rest.0
                      (judge_case-Heard 3 1 c names w judged.1 first (ap (λ o. (o, judged.1)) f))
                      (judge_cases-AllHeard cases first.names judged.1 went.1 rest
                        (ap (λ o. (o, went.1)) g)))
            ]
      ]

  -- A calibration that returns has called the judge three times in a row on each case, in order
  -- and no other calls between, and its record of a case is what the judge answered there. The
  -- record names the prompt by its hash.
  pub run_calibration-AllHeard :
      (cases : List GoldCase) (w w' : W) (r : CalibrationRuns)
      → run_calibration codec s judge cases w ≡ (ok r, w')
      → AllHeard cases w r.case_runs w' × (r.prompt_sha256 ≡ codec.sha256 s.validator_prompt)
  unfolding run_calibration
  run_calibration-AllHeard [] w w' r h = absurd (ground arith)
  run_calibration-AllHeard (c ∷ cases) w w' r h =
      let went : Outcome CalibrationError (List CaseRuns × (String × String)) × W =
        judge_cases codec s judge (c ∷ cases) ("", "") w in
      elim (Outcome-cases went.0) [
        | inr (exc, g) ↦ absurd (ground arith)
        | inl (judged, g) ↦
            let e : r.case_runs ≡ judged.0 = ground arith in
            let e' : w' ≡ went.1 = ground arith in
            (
              rw (e, e')
                  (judge_cases-AllHeard (c ∷ cases) ("", "") w went.1 judged
                    (ap (λ o. (o, went.1)) g)),
              ground arith,
            )
      ]
