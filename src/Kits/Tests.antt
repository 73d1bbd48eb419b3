-- ===== src/Kits/Tests.antt =====
-- Two kits, and the inputs that an artifact declares.
use aieos_agent_harness.Base.{string_eq, none, some, List, [], ◌∷◌, ◌==◌, if◌then◌else◌}
use aieos_agent_harness.State.{Disk}
use aieos_agent_harness.Kits.{Kit, DeclaredInput}

abbrev kits : List Kit
kits =
    record { name = "aieos-a"; read = λ path. none }
    ∷ record {
      name = "aieos-b";
      read = λ path. if path == "docs/specs/prd-spec.md" then some "spec" else none;
    }
    ∷ []

abbrev declared : List DeclaredInput
declared =
    record { ref = "principles.md"; role = "principles"; source = "framework" }
    ∷ record { ref = "brief.md"; role = "brief"; source = "human" }
    ∷ []

abbrev disk : Disk
disk = record {
  sdlc = some (("prd.md", "| Artifact ID | PRD-1 |\n| Status | FROZEN |\n") ∷ []);
  er = none;
  journal = none;
}
