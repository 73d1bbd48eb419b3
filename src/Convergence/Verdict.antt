-- ===== src/Convergence/Verdict.antt =====
-- src/convergence.py: reading a judge's verdict, the ledger of verdicts, and the two detectors that
-- warn of a loop that makes no progress.
use aieos_agent_harness.Base.{
  ℕ, String, Bool, false, not, ◌&&◌, Option, none, some, List, [], ◌∷◌, ◌==◌, string_eq, option_eq,
  if◌then◌else◌,
}
use aieos_agent_harness.Base.Lists.{any, contains, keep}
use aieos_agent_harness.Base.Dict
use aieos_agent_harness.Base.Dict.{Dict}
use aieos_agent_harness.Models.{ValidationResult, Issue}

-- The validator's JSON object; a key that is absent is `none`.
pub record VerdictJson : Type 0 where
  pub status : Option String
  pub summary : Option String
  pub hard_gates : Option (Dict String String)
  pub blocking_issues : Option (List Issue)
  pub warnings : Option (List Issue)
  pub completeness_score : Option ℕ

-- `data.get(key, default)`
abbrev pub or_default {ℓ} : {A : Type ℓ} → Option A → A → A
or_default none a = a
or_default (some b) a = b

-- The required keys, and the result once they are there.
verdict_of_fields :
    VerdictJson
    → Option String
    → Option String
    → Option (Dict String String)
    → Option (List Issue)
    → Option ValidationResult
verdict_of_fields j (some status) (some summary) (some gates) (some issues) = some (record {
  status = status;
  summary = summary;
  hard_gates = gates;
  blocking_issues = issues;
  warnings = or_default j.warnings [];
  completeness_score = or_default j.completeness_score 0;
})
verdict_of_fields j _ _ _ _ = none

-- The last part of `parse_validation_result`, from the decoded object on.
unfoldable pub verdict_of_json : VerdictJson → Option ValidationResult
unfolding verdict_of_fields
verdict_of_json j = verdict_of_fields j j.status j.summary j.hard_gates j.blocking_issues

pub record Provenance : Type 0 where
  pub validator_prompt_sha256 : String
  pub provider : String
  pub model : String
  pub temperature : Option ℕ

-- The two shapes of a ledger entry.
pub data LedgerEntry : Type 0 where
  verdict : ℕ → ValidationResult → Provenance → LedgerEntry
  lens_verdict : ℕ → String → String → List Issue → Provenance → LedgerEntry

pub record ConvergenceState : Type 0 where
  pub artifact_id : String
  pub artifact_type : String
  pub max_iterations : ℕ
  pub current_iteration : ℕ
  pub ledger : List LedgerEntry

-- `entry.get("hard_gates", {})`
unfoldable pub entry_gates : LedgerEntry → Dict String String
entry_gates (verdict _ r _) = r.hard_gates
entry_gates (lens_verdict _ _ _ _ _) = []

-- `entry.get("blocking_issues", [])`
unfoldable pub entry_issues : LedgerEntry → List Issue
entry_issues (verdict _ r _) = r.blocking_issues
entry_issues (lens_verdict _ _ _ issues _) = issues

-- `{k for k, v in entry.get("hard_gates", {}).items() if v == "FAIL"}`
unfoldable pub failed_gates : LedgerEntry → List String
unfolding keep entry_gates Dict.keys
failed_gates e = Dict.keys (keep (λ (gate, v). v == "FAIL") (entry_gates e))

-- `{issue.get("gate"): issue.get("description") for issue in issues}`, looked up at `gate`: the last
-- issue of that gate gives the description, and the outer `none` means that the gate is no key.
unfoldable pub description_of : String → List Issue → Option (Option String)
unfolding Dict.get
description_of gate [] = none
description_of gate (issue ∷ issues) = elim (description_of gate issues) [
  | some d ↦ some d
  | none ↦ if Dict.get issue "gate" == some gate then some (Dict.get issue "description") else none
]

-- `gate in prev_issues and gate in curr_issues` with the same description
abbrev pub same_description : Option (Option String) → Option (Option String) → Bool
same_description (some d) (some c) = d == c
same_description _ _ = false

abbrev pub last_two : List LedgerEntry → Option (LedgerEntry × LedgerEntry)
last_two [] = none
last_two (a ∷ []) = none
last_two (a ∷ b ∷ []) = some (a, b)
last_two (a ∷ b ∷ c ∷ l) = last_two (b ∷ c ∷ l)

abbrev pub last_three : List LedgerEntry → Option (LedgerEntry × LedgerEntry × LedgerEntry)
last_three [] = none
last_three (a ∷ []) = none
last_three (a ∷ b ∷ []) = none
last_three (a ∷ b ∷ c ∷ []) = some (a, b, c)
last_three (a ∷ b ∷ c ∷ d ∷ l) = last_three (b ∷ c ∷ d ∷ l)

-- The part of `_detect_staleness` after the test on the ledger's length.
unfoldable pub stale : LedgerEntry → LedgerEntry → Bool
unfolding any contains failed_gates description_of
stale prev curr =
    any
      (λ gate.
        contains (failed_gates curr) gate
        && same_description (description_of gate (entry_issues prev))
            (description_of gate (entry_issues curr)))
      (failed_gates prev)

unfoldable pub detect_staleness : ConvergenceState → Bool
unfolding stale
detect_staleness state = elim (last_two state.ledger) [
  | none ↦ false
  | some (prev, curr) ↦ stale prev curr
]

-- The part of `_detect_oscillation` after the test on the ledger's length.
unfoldable pub oscillates : LedgerEntry → LedgerEntry → LedgerEntry → Bool
unfolding any contains failed_gates
oscillates a b c =
    any (λ gate. not (contains (failed_gates b) gate) && contains (failed_gates c) gate)
      (failed_gates a)

unfoldable pub detect_oscillation : ConvergenceState → Bool
unfolding oscillates
detect_oscillation state = elim (last_three state.ledger) [
  | none ↦ false
  | some (a, b, c) ↦ oscillates a b c
]
