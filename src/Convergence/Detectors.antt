-- ===== src/Convergence/Detectors.antt =====
-- src/convergence.py: what the two detectors detect, gate by gate.
use aieos_agent_harness.Base.{
  String, ◌≡◌, refl, ◌↔◌, true, Option, none, some, List, [], ◌∷◌, ◌==◌, string_eq, option_eq,
  arith, ◌⊎◌,
}
use aieos_agent_harness.Base.Lists.{any_sound, any_complete, contains, keep}
use aieos_agent_harness.Base.Dict
use aieos_agent_harness.Base.Dict.{Dict}
use aieos_agent_harness.Convergence.Verdict.{
  LedgerEntry, entry_gates, entry_issues, failed_gates, description_of, same_description, stale,
  oscillates,
}

abbrev pub HasFail : String → Dict String String → Type 0
HasFail gate [] = ⊥
HasFail gate ((g, v) ∷ d) = ((gate ≡ g) × (v ≡ "FAIL")) ⊎ HasFail gate d

-- The verdict of the entry on this gate is FAIL.
abbrev pub Failed : String → LedgerEntry → Type 0
Failed gate e = HasFail gate (entry_gates e)

failing : Dict String String → List String
unfolding Dict.keys keep
failing d = Dict.keys (keep (λ (g, v). v == "FAIL") d)

contains-failing :
    (gate : String) (d : Dict String String) → (contains (failing d) gate ≡ true) ↔ HasFail gate d
unfolding contains failing
contains-failing gate [] = (λ h. cc, λ h. absurd h)
contains-failing gate ((g, v) ∷ d) =
    (λ h. ground (arith, contains-failing gate d), λ h. ground (arith, contains-failing gate d))

Failed-iff :
    (gate : String) (e : LedgerEntry) → (contains (failed_gates e) gate ≡ true) ↔ Failed gate e
unfolding failed_gates failing
Failed-iff gate e = contains-failing gate (entry_gates e)

-- Oscillation: some gate fails in the first entry, not in the second, and again in the third.
pub oscillates_iff :
    (a b c : LedgerEntry)
    → (oscillates a b c ≡ true)
      ↔ ((gate : String) × Failed gate a × (¬ Failed gate b) × Failed gate c)
unfolding oscillates
oscillates_iff a b c = (
  λ h.
      let (gate, m, t) = any_sound _ (failed_gates a) h in
      (
        gate,
        (Failed-iff gate a).0 m,
        λ f. ground (arith, (Failed-iff gate b).1 f),
        (Failed-iff gate c).0 (ground arith),
      ),
  λ (gate, fa, nb, fc).
      any_complete _ (failed_gates a) gate ((Failed-iff gate a).1 fa)
        (ground (arith, Failed-iff gate b, Failed-iff gate c)),
)

same_sound :
    (x y : Option (Option String))
    → same_description x y ≡ true
    → (d : Option String) × (x ≡ some d) × (y ≡ some d)
same_sound none y h = cc
same_sound (some d) none h = cc
same_sound (some d) (some c) h = (d, refl, ground arith)

-- Staleness: some gate fails in both entries, and both describe it, in the same words or both in none.
pub stale_iff :
    (prev curr : LedgerEntry)
    → (stale prev curr ≡ true) ↔ (
        (gate : String) × Failed gate prev
        × Failed gate curr
        × (d : Option String) × (description_of gate (entry_issues prev) ≡ some d)
        × (description_of gate (entry_issues curr) ≡ some d))
unfolding stale
stale_iff prev curr = (
  λ h.
      let (gate, m, t) = any_sound _ (failed_gates prev) h in
      let (d, p, q) =
        same_sound (description_of gate (entry_issues prev))
          (description_of gate (entry_issues curr)) (ground arith) in
      (gate, (Failed-iff gate prev).0 m, (Failed-iff gate curr).0 (ground arith), d, p, q),
  λ (gate, fp, fc, d, p, q).
      any_complete _ (failed_gates prev) gate ((Failed-iff gate prev).1 fp)
        (rw (p, q, (Failed-iff gate curr).1 fc) (ground arith)),
)
