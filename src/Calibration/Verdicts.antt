-- ===== src/Calibration/Verdicts.antt =====
-- src/calibration.py: when a calibration passes, and the ranges of its numbers.
use mathlib.Core.Path.{subst}
use aieos_agent_harness.Base.{
  sym, ap, ◌∙◌, ℕ, String, string_eq, ◌≡◌, refl, ◌≢◌, ◌↔◌, inl, inr, Bool, false, not, Bool-cases,
  List, [], ◌∷◌, ◌++◌, ◌==◌, arith,
}
use aieos_agent_harness.Base.Dict.{Dict}
use aieos_agent_harness.Base.Lists.{All, any, count_if}
use aieos_agent_harness.Calibration.Agreement.{
  IsShare, IsEnough, labelled, is_right, score_cases-IsCounted,
}
use aieos_agent_harness.Calibration.{
  Role, freeze_gate, advisory, thresholds, CaseRuns, CalibrationRuns,
}
use aieos_agent_harness.Calibration.Scoring.{
  Tally, empty_tally, verdicts_on, is_false_pass, is_flip, score_gate, score_gates, score_cases,
  below, verdict_for, report_of, score,
}

-- All runs gave the same verdict.
abbrev pub Agree : List String → Type 0
Agree [] = Unit
Agree (v ∷ vs) = All (λ u. u ≡ v) vs

-- No run passed a gate that should fail.
abbrev pub Strict : String → List String → Type 0
Strict expected vs = expected ≡ "FAIL" → All (λ v. v ≢ "PASS") vs

-- A property of every labelled gate of every case, of its label and the verdicts on it.
abbrev pub EveryGate : (String → List String → Type 0) → List CaseRuns → Type 0
EveryGate P =
    All (λ cr. All (λ (g, e). P e (verdicts_on g cr.gate_verdicts)) cr.gold.expected_gates)

any-none :
    (p : String → Bool) (P : String → Type 0)
    → ((v : String) → (p v ≡ false) ↔ P v)
    → (vs : List String) → (any p vs ≡ false) ↔ All P vs
unfolding any
any-none p P iff [] = (λ h. tt, λ h. refl)
any-none p P iff (v ∷ vs) = (
  λ h. ((iff v).0 (ground arith), (any-none p P iff vs).0 (ground arith)),
  λ (a, b). ground (arith, (iff v).1 a, (any-none p P iff vs).1 b),
)

flip_iff : (vs : List String) → (is_flip vs ≡ false) ↔ Agree vs
unfolding is_flip
flip_iff [] = (λ h. tt, λ h. refl)
flip_iff (v ∷ vs) =
    any-none (λ u. not (u == v)) (λ u. u ≡ v) (λ u. (λ h. ground arith, λ h. ground arith)) vs

false_pass_iff : (e : String) (vs : List String) → (is_false_pass e vs ≡ false) ↔ Strict e vs
unfolding is_false_pass
false_pass_iff e vs =
    let no_pass =
      any-none (λ v. v == "PASS") (λ v. v ≢ "PASS") (λ u. (λ h. ground arith, λ h. ground arith))
        vs in
    (
      λ h f. no_pass.0 (ground arith),
      λ h. elim (Bool-cases (e == "FAIL")) [
        | inl t ↦ ground (arith, no_pass.1 (h (ground arith)))
        | inr t ↦ ground arith
      ],
    )

append-empty : (xs : List (String × String)) (y : String × String) → xs ++ y ∷ [] ≢ []
append-empty [] y = ground arith
append-empty (x ∷ xs) y = ground arith

module _ (cr : CaseRuns) where
  score_gate-stable :
      (g e : String) (t : Tally)
      → ((score_gate cr g e t).stability_flips ≡ [])
        ↔ ((t.stability_flips ≡ []) × Agree (verdicts_on g cr.gate_verdicts))
  unfolding score_gate
  score_gate-stable g e t = elim (Bool-cases (is_flip (verdicts_on g cr.gate_verdicts))) [
    | inl f ↦ (
      λ h. absurd (ground (arith, append-empty t.stability_flips (cr.gold.case_id, g))),
      λ (h, a). absurd (ground (arith, (flip_iff (verdicts_on g cr.gate_verdicts)).1 a)),
    )
    | inr f ↦ (
      λ h. (ground arith, (flip_iff (verdicts_on g cr.gate_verdicts)).0 f),
      λ (h, a). ground arith,
    )
  ]

  score_gate-Strict :
      (g e : String) (t : Tally)
      → ((score_gate cr g e t).false_pass_count ≡ 0)
        ↔ ((t.false_pass_count ≡ 0) × Strict e (verdicts_on g cr.gate_verdicts))
  unfolding score_gate
  score_gate-Strict g e t = (
    λ h. (ground arith, (false_pass_iff e (verdicts_on g cr.gate_verdicts)).0 (ground arith)),
    λ (h, a). ground (arith, (false_pass_iff e (verdicts_on g cr.gate_verdicts)).1 a),
  )

-- A test of the tally that each gate either keeps or spoils, over the two loops of `score`.
module _ (Good : Tally → Type 0) (P : String → List String → Type 0)
    (each : (cr : CaseRuns) (g e : String) (t : Tally)
      → Good (score_gate cr g e t) ↔ (Good t × P e (verdicts_on g cr.gate_verdicts))) where
  gates_iff :
      (cr : CaseRuns) (gs : Dict String String) (t : Tally)
      → Good (score_gates cr gs t)
        ↔ (Good t × All (λ (g, e). P e (verdicts_on g cr.gate_verdicts)) gs)
  unfolding score_gates
  gates_iff cr [] t = (λ h. (h, tt), λ h. h.0)
  gates_iff cr ((g, e) ∷ gs) t = (
    λ h.
        let (a, b) = (gates_iff cr gs (score_gate cr g e t)).0 h in
        let (c, d) = (each cr g e t).0 a in (c, (d, b)),
    λ (a, b). (gates_iff cr gs (score_gate cr g e t)).1 ((each cr g e t).1 (a, b.0), b.1),
  )

  cases_iff :
      (crs : List CaseRuns) (t : Tally) → Good (score_cases crs t) ↔ (Good t × EveryGate P crs)
  unfolding score_cases
  cases_iff [] t = (λ h. (h, tt), λ h. h.0)
  cases_iff (cr ∷ crs) t = (
    λ h.
        let (a, b) = (cases_iff crs (score_gates cr cr.gold.expected_gates t)).0 h in
        let (c, d) = (gates_iff cr cr.gold.expected_gates t).0 a in (c, (d, b)),
    λ (a, b).
        (cases_iff crs (score_gates cr cr.gold.expected_gates t)).1
          ((gates_iff cr cr.gold.expected_gates t).1 (a, b.0), b.1),
  )

fail_is_not_pass : (◌==◌ {A = String} "FAIL" "PASS") ≡ false
unfolding string_eq
fail_is_not_pass = refl

verdict_for_passes_iff :
    (role : Role) (a t f : ℕ) (flips : List (String × String))
    → (verdict_for role a t f flips ≡ "PASS")
      ↔ ((flips ≡ []) × (role ≡ freeze_gate → f ≡ 0) × IsShare role a t)
unfolding verdict_for thresholds below
verdict_for_passes_iff freeze_gate a t f (x ∷ xs) =
    (λ h. absurd (ground (arith, fail_is_not_pass)), λ (h, _, _). absurd (ground arith))
verdict_for_passes_iff advisory a t f (x ∷ xs) =
    (λ h. absurd (ground (arith, fail_is_not_pass)), λ (h, _, _). absurd (ground arith))
verdict_for_passes_iff freeze_gate a t f [] = (
  λ h. (refl, λ _. ground (arith, fail_is_not_pass), ground (arith, fail_is_not_pass)),
  λ (_, none_false, enough). ground (arith, none_false refl),
)
verdict_for_passes_iff advisory a t f [] = (
  λ h. (refl, λ same. absurd (ground arith), ground (arith, fail_is_not_pass)),
  λ (_, _, enough). ground arith,
)

-- A calibration passes exactly when the runs agree with each other on every gate of every case, no
-- run of a freeze-gating judge passes a gate that is labelled FAIL, and enough verdicts agree with
-- their labels: 90% for a freeze-gating judge, 75% for an advisory one, of at least one verdict.
pub score_passes_iff :
    (r : CalibrationRuns) (role : Role)
    → ((score r role).verdict ≡ "PASS") ↔ (
        EveryGate (λ e vs. Agree vs) r.case_runs
        × (role ≡ freeze_gate → EveryGate Strict r.case_runs)
        × IsEnough role (labelled r.case_runs))
unfolding score report_of
score_passes_iff r role =
    let t : Tally = score_cases r.case_runs empty_tally in
    let stable =
      cases_iff (λ t. t.stability_flips ≡ []) (λ e vs. Agree vs) score_gate-stable r.case_runs
        empty_tally in
    let strict =
      cases_iff (λ t. t.false_pass_count ≡ 0) Strict score_gate-Strict r.case_runs empty_tally in
    let passes =
      verdict_for_passes_iff role t.agreements t.total t.false_pass_count t.stability_flips in
    let counted = score_cases-IsCounted r.case_runs empty_tally in
    let pairs = labelled r.case_runs in
    let share : IsShare role t.agreements t.total ≡ IsEnough role pairs =
      ap (λ a. IsShare role a t.total) (omega (arith, counted.agreements))
      ∙ ap (λ n. IsShare role (count_if is_right pairs) n) (omega (arith, counted.total)) in
    (
      λ h.
          let (a, b, c) = passes.0 h in
          ((stable.0 a).1, λ freezing. (strict.0 (b freezing)).1, subst (λ x. x) share c),
      λ (a, b, c). passes.1 (
        stable.1 (refl, a),
        λ freezing. strict.1 (refl, b freezing),
        subst (λ x. x) (sym share) c,
      ),
    )

-- A judge that passes as a freeze gate passes as an advisory one.
pub score-advisory :
    (r : CalibrationRuns)
    → (score r freeze_gate).verdict ≡ "PASS"
    → (score r advisory).verdict ≡ "PASS"
unfolding score report_of
score-advisory r h =
    let t : Tally = score_cases r.case_runs empty_tally in
    let (a, b, c) =
      (verdict_for_passes_iff freeze_gate t.agreements t.total t.false_pass_count
          t.stability_flips).0
        h in
    (verdict_for_passes_iff advisory t.agreements t.total t.false_pass_count t.stability_flips).1
      (a, λ same. b refl, (c.0, omega (arith, c.1)))
