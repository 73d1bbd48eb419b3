-- ===== src/Kits.antt =====
-- src/inputs.py, and of src/cli.py the functions that find a kit's files and the frozen artifacts:
-- what a generation is given. `yaml` has read the manifest; `lower` is Python's `str.lower`.
pub mod Inputs
mod Tests
use aieos_agent_harness.Base.{
  String, ◌<>◌, string_eq, Bool, true, false, not, ◌||◌, Option, none, some, List, [], ◌∷◌, ◌==◌,
  if◌then◌else◌,
}
use aieos_agent_harness.Base.Dict
use aieos_agent_harness.Base.Dict.{Dict}
use aieos_agent_harness.Adapter.{Outcome, ok, err}
use aieos_agent_harness.State.{Disk, status_label, same_codes, normalized_upper, codes}
use aieos_agent_harness.State.Cells.{cell, artifact_id}

-- A directory `aieos-*` of the framework's root, in the order of `sorted`: its name, and the text of
-- the file at a path below it, `none` where there is no file.
pub record Kit : Type 0 where
  pub name : String
  pub read : String → Option String

-- The texts found so far.
pub record KitFiles : Type 0 where
  pub spec : String
  pub template : String
  pub prompt : String

unfoldable pub or_kept : Option String → String → String
or_kept none s = s
or_kept (some t) s = t

-- One kit's round: the files that it has replace those found before.
unfoldable pub look_in : String → Kit → KitFiles → KitFiles
look_in type kit found = record {
  spec = or_kept (kit.read ("docs/specs/" <> type <> "-spec.md")) found.spec;
  template = or_kept (kit.read ("docs/artifacts/" <> type <> "-template.md")) found.template;
  prompt = or_kept (kit.read ("docs/prompts/" <> type <> "-prompt.md")) found.prompt;
}

-- The loop of `_resolve_kit_files`: it ends at the first kit after which there is a spec.
unfoldable pub search_kits : String → List Kit → KitFiles → KitFiles
search_kits type [] found = found
search_kits type (kit ∷ kits) found =
    let now = look_in type kit found in
    elim (now.spec == "") [ true ↦ search_kits type kits now | false ↦ now ]

unfoldable pub resolve_kit_files : (lower : String → String) → List Kit → String → KitFiles
resolve_kit_files lower kits artifact_type =
    search_kits (lower artifact_type) kits (record { spec = ""; template = ""; prompt = "" })

-- The validator's prompt: of the first kit that has one.
unfoldable pub validator_prompt : String → List Kit → String
validator_prompt type [] = ""
validator_prompt type (kit ∷ kits) =
    elim (kit.read ("docs/validators/" <> type <> "-validator.md")) [
      | none ↦ validator_prompt type kits
      | some text ↦ text
    ]

-- Whether a file is a frozen artifact, and with which ID.
unfoldable pub frozen_id : String → Option String
frozen_id text = elim (cell artifact_id text) [
  | none ↦ none
  | some aid ↦ elim (cell status_label text) [
    | none ↦ none
    | some raw ↦ if same_codes (normalized_upper raw) (codes "FROZEN") then some aid else none
  ]
]

unfoldable pub collect_frozen : Dict String String → Dict String String → Dict String String
collect_frozen [] artifacts = artifacts
collect_frozen ((_, text) ∷ files) artifacts = elim (frozen_id text) [
  | none ↦ collect_frozen files artifacts
  | some aid ↦ collect_frozen files (Dict.insert aid text artifacts)
]

unfoldable pub collect_upstream_artifacts : Disk → Dict String String
collect_upstream_artifacts disk = elim disk.sdlc [
  | none ↦ []
  | some files ↦ collect_frozen files []
]

-- What the manifest declares. An absent key has its default, "" or "input" for the role.
pub record DeclaredInput : Type 0 where
  pub ref : String
  pub role : String
  pub source : String

pub record ManifestArtifact : Type 0 where
  pub spec_file : String
  pub inputs : List DeclaredInput

pub record ManifestKit : Type 0 where
  pub repository : String
  pub artifacts : List ManifestArtifact

unfoldable pub declared_in : String → List ManifestArtifact → Option (List DeclaredInput)
declared_in spec_file [] = none
declared_in spec_file (a ∷ rest) =
    let later = declared_in spec_file rest in
    if a.spec_file == spec_file then some a.inputs else later

-- The first kit with an artifact of the type: its repository, and what the artifact declares.
unfoldable pub declared_for : String → List ManifestKit → Option (String × List DeclaredInput)
declared_for spec_file [] = none
declared_for spec_file (kit ∷ kits) = elim (declared_in spec_file kit.artifacts) [
  | none ↦ declared_for spec_file kits
  | some inputs ↦ some (kit.repository, inputs)
]

-- The loop over the declared inputs. `framework` reads below the kit, `human` below the initiative;
-- the error names the file that is missing.
unfoldable pub resolve_inputs :
    (framework human : String → Option String)
    → List DeclaredInput
    → Dict String String
    → Outcome String (Dict String String)
resolve_inputs framework human [] resolved = ok resolved
resolve_inputs framework human (i ∷ rest) resolved =
    let key = i.role <> ": " <> i.ref in
    elim (i.source == "framework") [
      | true ↦ elim (framework i.ref) [
        | none ↦ err i.ref
        | some text ↦ resolve_inputs framework human rest (Dict.insert key text resolved)
      ]
      | false ↦ elim (i.source == "human") [
        | true ↦ elim (human i.ref) [
          | none ↦ resolve_inputs framework human rest resolved
          | some text ↦ resolve_inputs framework human rest (Dict.insert key text resolved)
        ]
        | false ↦ resolve_inputs framework human rest resolved
      ]
    ]

unfoldable pub resolve_declared_inputs :
    (lower : String → String)
    → (manifest : Option (List ManifestKit)) → (framework : String → String → Option String)
    → (human : String → Option String) → String
    → Outcome String (Dict String String)
resolve_declared_inputs lower manifest framework human artifact_type = elim manifest [
  | none ↦ ok []
  | some kits ↦ elim (declared_for (lower artifact_type <> "-spec.md") kits) [
    | none ↦ ok []
    | some (repository, inputs) ↦ resolve_inputs (framework repository) human inputs []
  ]
]
