-- ===== src/Invariants/Promotion.antt =====
-- src/invariants.py: what `check_freeze_before_promote` checks.
use aieos_agent_harness.Base.{
  String, string_eq, ◌≡◌, refl, ◌↔◌, ◌⊎◌, inl, inr, true, Bool-cases, List, [], ◌∷◌, ◌==◌, arith,
}
use aieos_agent_harness.Base.Dict
use aieos_agent_harness.Base.Dict.{Dict}
use aieos_agent_harness.Base.Lists.{All, contains, keep}
use aieos_agent_harness.Models.{ArtifactStatus, frozen, status_eq}
use aieos_agent_harness.Invariants.{
  type_of, frozen_types, missing, is_empty, check_freeze_before_promote,
}

-- Some artifact of the type is frozen.
abbrev pub HasFrozen : String → Dict String ArtifactStatus → Type 0
HasFrozen type [] = ⊥
HasFrozen type ((aid, status) ∷ d) = ((type ≡ type_of aid) × (status ≡ frozen)) ⊎ HasFrozen type d

contains-frozen_types :
    (type : String) (d : Dict String ArtifactStatus)
    → (contains (frozen_types d) type ≡ true) ↔ HasFrozen type d
unfolding contains frozen_types
contains-frozen_types type [] = (λ h. cc, λ h. absurd h)
contains-frozen_types type ((aid, status) ∷ d) = elim (Bool-cases (status == frozen)) [
  | inl f ↦ (
    λ h. elim (Bool-cases (type == type_of aid)) [
      | inl e ↦ inl (ground arith, ground arith)
      | inr e ↦ inr ((contains-frozen_types type d).0 (ground arith))
    ],
    λ h. elim h [
      | inl (e, _) ↦ ground arith
      | inr later ↦ ground (arith, (contains-frozen_types type d).1 later)
    ],
  )
  | inr f ↦ (
    λ h. inr ((contains-frozen_types type d).0 (ground arith)),
    λ h. elim h [
      | inl (_, same) ↦ absurd (ground arith)
      | inr later ↦ ground (arith, (contains-frozen_types type d).1 later)
    ],
  )
]

missing-nil :
    (d : Dict String ArtifactStatus) (required : List String)
    → (is_empty (missing d required) ≡ true) ↔ All (λ r. HasFrozen r d) required
unfolding missing keep is_empty
missing-nil d [] = (λ h. tt, λ h. refl)
missing-nil d (r ∷ required) = elim (Bool-cases (contains (frozen_types d) r)) [
  | inl c ↦ (
    λ h. ((contains-frozen_types r d).0 c, (missing-nil d required).0 (ground arith)),
    λ h. ground (arith, (missing-nil d required).1 h.1),
  )
  | inr c ↦
      (λ h. absurd (ground arith), λ h. absurd (ground (arith, (contains-frozen_types r d).1 h.0)))
]

-- The check of an artifact type passes exactly when every type that it requires has a frozen
-- artifact; a type with no requirements passes.
pub check_freeze_before_promote_iff :
    (deps : Dict String (List String)) (statuses : Dict String ArtifactStatus)
    (artifact_type : String)
    → (check_freeze_before_promote deps statuses artifact_type ≡ true)
      ↔ All (λ r. HasFrozen r statuses) (Dict.get_or deps artifact_type [])
unfolding check_freeze_before_promote
check_freeze_before_promote_iff deps statuses artifact_type =
    missing-nil statuses (Dict.get_or deps artifact_type [])
