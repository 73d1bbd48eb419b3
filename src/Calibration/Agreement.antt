-- ===== src/Calibration/Agreement.antt =====
-- src/calibration.py: how many verdicts `score` counts, and how many as agreeing with their labels.
use aieos_agent_harness.Base.{
  ℕ, ◌+◌, ◌*◌, ◌≤◌, ◌<◌, String, string_eq, ◌≡◌, refl, Bool, List, [], ◌∷◌, ◌++◌, map, ◌==◌, arith,
}
use aieos_agent_harness.Base.Dict.{Dict}
use aieos_agent_harness.Base.Lists.{length, count_if, length-append, length-map, count_if-append}
use aieos_agent_harness.Calibration.{Role, freeze_gate, advisory, CaseRuns}
use aieos_agent_harness.Calibration.Scoring.{
  Tally, verdicts_on, score_gate, score_gates, score_cases,
}

-- The share of `agreements` that the role asks for, in hundredths, of at least one verdict.
abbrev pub IsShare : Role → (agreements total : ℕ) → Type 0
IsShare freeze_gate agreements total = (0 < total) × (90 * total ≤ agreements * 100)
IsShare advisory agreements total = (0 < total) × (75 * total ≤ agreements * 100)

-- Every verdict on a labelled gate of the case, each behind the label.
abbrev pub labelled_on : List (Dict String String) → Dict String String → List (String × String)
labelled_on runs [] = []
labelled_on runs ((gate, label) ∷ gates) =
    map (λ (v : String). (label, v)) (verdicts_on gate runs) ++ labelled_on runs gates

-- Every verdict on a labelled gate of any case, each behind the label.
abbrev pub labelled : List CaseRuns → List (String × String)
labelled [] = []
labelled (cr ∷ crs) = labelled_on cr.gate_verdicts cr.gold.expected_gates ++ labelled crs

abbrev pub is_right : String × String → Bool
is_right (label, v) = v == label

-- The share that the role asks for of verdicts that are equal to their label.
abbrev pub IsEnough : Role → List (String × String) → Type 0
IsEnough role pairs = IsShare role (count_if is_right pairs) (length pairs)

count_right :
    (label : String) (vs : List String)
    → count_if is_right (map (λ (v : String). (label, v)) vs) ≡ count_if (λ v. v == label) vs
unfolding count_if
count_right label [] = refl
count_right label (v ∷ vs) = ground (arith, count_right label vs)

-- What the two loops of `score` count, from the tally on.
pub record IsCounted (t t' : Tally) (pairs : List (String × String)) : Type 0 where
  pub agreements : t'.agreements ≡ t.agreements + count_if is_right pairs
  pub total : t'.total ≡ t.total + length pairs

IsCounted-append :
    (t u v : Tally) (xs ys : List (String × String))
    → IsCounted t u xs
    → IsCounted u v ys
    → IsCounted t v (xs ++ ys)
IsCounted-append t u v xs ys a b = record {
  agreements = omega (arith, a.agreements, b.agreements, count_if-append is_right xs ys);
  total = omega (arith, a.total, b.total, length-append xs ys);
}

score_gate-IsCounted :
    (cr : CaseRuns) (g e : String) (t : Tally)
    → IsCounted t
        (score_gate cr g e t)
        (map (λ (v : String). (e, v)) (verdicts_on g cr.gate_verdicts))
unfolding score_gate
score_gate-IsCounted cr g e t =
    let vs = verdicts_on g cr.gate_verdicts in
    record {
      agreements = omega (arith, count_right e vs);
      total = omega (arith, length-map {B = String × String} (λ (v : String). (e, v)) vs);
    }

score_gates-IsCounted :
    (cr : CaseRuns) (gs : Dict String String) (t : Tally)
    → IsCounted t (score_gates cr gs t) (labelled_on cr.gate_verdicts gs)
unfolding score_gates count_if
score_gates-IsCounted cr [] t = record { agreements = omega arith; total = omega arith }
score_gates-IsCounted cr ((g, e) ∷ gs) t =
    IsCounted-append t (score_gate cr g e t) _ _ (labelled_on cr.gate_verdicts gs)
      (score_gate-IsCounted cr g e t) (score_gates-IsCounted cr gs (score_gate cr g e t))

pub score_cases-IsCounted :
    (crs : List CaseRuns) (t : Tally) → IsCounted t (score_cases crs t) (labelled crs)
unfolding score_cases count_if
score_cases-IsCounted [] t = record { agreements = omega arith; total = omega arith }
score_cases-IsCounted (cr ∷ crs) t =
    let t1 = score_gates cr cr.gold.expected_gates t in
    IsCounted-append t t1 _ (labelled_on cr.gate_verdicts cr.gold.expected_gates) (labelled crs)
      (score_gates-IsCounted cr cr.gold.expected_gates t) (score_cases-IsCounted crs t1)
