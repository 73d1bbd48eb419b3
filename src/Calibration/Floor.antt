-- ===== src/Calibration/Floor.antt =====
-- src/calibration.py: the activation floor of a gold set.
use aieos_agent_harness.Base.{◌≤◌, ◌≡◌, ◌↔◌, Bool, true, List, ◌∷◌, arith, string_eq}
use aieos_agent_harness.Base.Lists.{length, count_if}
use aieos_agent_harness.Calibration.{GoldCase, is_gold_fail, is_gold_pass, meets_floor}

-- The gold set has at least these numbers of cases, of spec exemptions, and of cases of each label.
abbrev pub IsActive : List GoldCase → Type 0
IsActive cases =
    (12 ≤ length cases)
    × (2 ≤ count_if (λ c. c.spec_exemption_case) cases)
    × (1 ≤ count_if is_gold_pass cases)
    × (1 ≤ count_if is_gold_fail cases)

floor_iff : (cases : List GoldCase) → (meets_floor cases ≡ true) ↔ IsActive cases
unfolding meets_floor
floor_iff cases = (λ h. (ground arith, ground arith, ground arith, ground arith), λ h. ground arith)

count-grows :
    (p : GoldCase → Bool) (c : GoldCase) (cases : List GoldCase)
    → count_if p cases ≤ count_if p (c ∷ cases)
unfolding count_if
count-grows p c cases = ground arith

-- The floor lets exactly the gold sets through that have at least twelve cases, two spec
-- exemptions, a case labelled PASS on every gate and a case labelled FAIL on some gate; and a set
-- above the floor stays above it when a case is added.
pub meets_floor_iff :
    (cases : List GoldCase)
    → ((meets_floor cases ≡ true) ↔ IsActive cases)
      × ((c : GoldCase) → meets_floor cases ≡ true → meets_floor (c ∷ cases) ≡ true)
meets_floor_iff cases = (
  floor_iff cases,
  λ c h.
      let (a, b, p, f) = (floor_iff cases).0 h in
      (floor_iff (c ∷ cases)).1 (
        omega arith,
        omega (arith, count-grows (λ c. c.spec_exemption_case) c cases),
        omega (arith, count-grows is_gold_pass c cases),
        omega (arith, count-grows is_gold_fail c cases),
      ),
)
