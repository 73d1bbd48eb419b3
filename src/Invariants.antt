-- ===== src/Invariants.antt =====
-- src/invariants.py: the upstream dependencies, and the freeze-before-promote check on the statuses
-- that `state.read_frozen_artifacts` has read. A check's reason, its text, is left out.
pub mod Upstream
pub mod Promotion
mod Tests
use Prim.Native.Char.{code}
use Prim.Native.String.{String}
use aieos_agent_harness.Base.{
  string_eq, Bool, true, false, not, ◌&&◌, List, [], ◌∷◌, eqb, leb, ◌==◌, if◌then◌else◌,
}
use aieos_agent_harness.Base.Dict
use aieos_agent_harness.Base.Dict.{Dict}
use aieos_agent_harness.Base.Lists.{contains, keep}
use aieos_agent_harness.Models.{
  ArtifactStatus, frozen, status_eq, LifecycleEvent, event_eq, FreezeGateDecision,
}
use aieos_agent_harness.Convergence.Verdict.{ConvergenceState}

abbrev pub upstream_dependencies : Dict String (List String)
upstream_dependencies =
    ("PRD", [])
    ∷ ("ACF", "PRD" ∷ [])
    ∷ ("SAD", "PRD" ∷ [])
    ∷ ("TDD", "ACF" ∷ "SAD" ∷ [])
    ∷ ("WDD", "TDD" ∷ [])
    ∷ ("ORD", "WDD" ∷ [])
    ∷ ("QAER", "ORD" ∷ [])
    ∷ ("VP", "QAER" ∷ [])
    ∷ ("TCR", "VP" ∷ [])
    ∷ ("QGR", "TCR" ∷ [])
    ∷ ("RER", "ORD" ∷ [])
    ∷ ("RCF", "RER" ∷ [])
    ∷ ("RP", "RCF" ∷ [])
    ∷ ("RR", "RP" ∷ [])
    ∷ ("RHR", "RR" ∷ [])
    ∷ ("SDR", "DPRD" ∷ [])
    ∷ ("DPRD", [])
    ∷ ("SOER", "DPRD" ∷ [])
    ∷ ("VER", "SOER" ∷ [])
    ∷ ("TM", "SAD" ∷ [])
    ∷ ("SAR", "TDD" ∷ [])
    ∷ ("DAR", "TDD" ∷ [])
    ∷ ("CER", [])
    ∷ ("CSPEC", "TDD" ∷ [])
    ∷ ("FFLR", [])
    ∷ ("DSR", "TDD" ∷ [])
    ∷ ("PDR", [])
    ∷ ("ISPEC", [])
    ∷ ("EM", [])
    ∷ ("UDR", [])
    ∷ ("ARR", "TDD" ∷ [])
    ∷ ("SKA", [])
    ∷ ("DHR", [])
    ∷ []

-- `aid.split("-")[0]`: the text before the first hyphen, or all of it.
unfoldable pub type_of : String → String
type_of String.[] = ""
type_of (String.◌∷◌ c s) = let rest = type_of s in if eqb (code c) 45 then "" else String.◌∷◌ c rest

-- `frozen_types`
unfoldable pub frozen_types : Dict String ArtifactStatus → List String
frozen_types [] = []
frozen_types ((aid, status) ∷ d) =
    let rest = frozen_types d in if status == frozen then type_of aid ∷ rest else rest

-- `[r for r in required if r not in frozen_types]`
unfoldable pub missing : Dict String ArtifactStatus → List String → List String
missing statuses = keep (λ r. not (contains (frozen_types statuses) r))

unfoldable pub is_empty : List String → Bool
is_empty [] = true
is_empty (x ∷ xs) = false

unfoldable pub check_freeze_before_promote :
    Dict String (List String) → Dict String ArtifactStatus → String → Bool
check_freeze_before_promote deps statuses artifact_type =
    is_empty (missing statuses (Dict.get_or deps artifact_type []))
