-- ===== src/Invariants/Tests.antt =====
-- src/invariants.py: the table and one set of statuses, and the theorems about the checks at them.
use aieos_agent_harness.Base.{String, string_eq, [], ◌∷◌}
use aieos_agent_harness.Base.Dict.{Dict}
use aieos_agent_harness.Models.{ArtifactStatus, frozen, draft}

abbrev statuses : Dict String ArtifactStatus
statuses = ("PRD-INIT-001", frozen) ∷ ("SAD-INIT-001", draft) ∷ []
