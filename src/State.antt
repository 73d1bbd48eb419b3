-- ===== src/State.antt =====
-- src/state.py: the governed files of an initiative: the artifacts under docs/sdlc, the engagement
-- record and the journal.
pub mod Cells
pub mod Files
pub mod Record
pub mod Bars
pub mod Heads
pub mod Values
pub mod RoundTrip
mod Tests
use Prim.Native.Nat.{Ordering}
use Prim.Native.Char.{code}
use Prim.Native.String.{String, compare}
use aieos_agent_harness.Base.{
  ℕ, ◌-◌, leb, option_eq, ◌<>◌, string_eq, Bool, true, false, not, ◌&&◌, ◌||◌, Option, none, some,
  List, [], ◌∷◌, ◌++◌, ◌==◌, eqb, if◌then◌else◌,
}
use aieos_agent_harness.Base.Dict
use aieos_agent_harness.Base.Dict.{Dict}
use aieos_agent_harness.Adapter.{Outcome, ok, err}
use aieos_agent_harness.Models.{
  status_eq, ArtifactStatus, draft, validated, freeze_pending, frozen, halted, faulted,
}
use Cells.{Token, escaped, artifact_id, cell, set_cell, has_row, is_space}

-- What is on disk. `sdlc` holds the *.md files of docs/sdlc by name, in sorted order, and is `none`
-- where there is no such directory; `er` and `journal` are `none` where there is no such file.
pub record Disk : Type 0 where
  pub sdlc : Option (Dict String String)
  pub er : Option String
  pub journal : Option String

-- What the functions raise. `bad_template` is `re.error`.
pub data StateError : Type 0 where
  no_sdlc : StateError
  no_artifact : String → StateError
  no_status_cell : String → StateError
  no_block : StateError
  bad_template : String → StateError
  bad_count : String → StateError
  no_file : StateError

abbrev precedes : String → String → Bool
precedes s t = elim (compare s t) [ Ordering.lt ↦ true | _ ↦ false ]

-- A write to a file: in its place, or as a new file in the sorted order.
unfoldable pub write_file : String → String → Dict String String → Dict String String
write_file name text [] = (name, text) ∷ []
write_file name text ((n, t) ∷ files) =
    let rest = write_file name text files in
    if name == n
    then (name, text) ∷ files
    else if precedes name n
    then (name, text) ∷ (n, t) ∷ files
    else (n, t) ∷ rest

-- `status.value`
unfoldable pub status_value : ArtifactStatus → String
status_value draft = "DRAFT"
status_value validated = "VALIDATED"
status_value freeze_pending = "FREEZE_PENDING"
status_value frozen = "FROZEN"
status_value halted = "HALTED"
status_value faulted = "FAULTED"

-- Upper case, as far as it can give an ASCII letter for one character.
unfoldable pub upper : ℕ → ℕ
upper c =
    if leb 97 c && leb c 122 then c - 32 else if eqb c 305 then 73 else if eqb c 383 then 83 else c

-- The code points of `raw.upper()`.
unfoldable pub normalized_upper : String → List ℕ
normalized_upper String.[] = []
normalized_upper (String.◌∷◌ c s) = upper (code c) ∷ normalized_upper s

-- The code points of `raw.upper().replace(" ", "_")`.
unfoldable pub normalized : String → List ℕ
normalized String.[] = []
normalized (String.◌∷◌ c s) = (if eqb (code c) 32 then b'_' else upper (code c)) ∷ normalized s

unfoldable pub codes : String → List ℕ
codes String.[] = []
codes (String.◌∷◌ c s) = code c ∷ codes s

unfoldable pub same_codes : List ℕ → List ℕ → Bool
same_codes [] [] = true
same_codes (c ∷ cs) (d ∷ ds) = eqb c d && same_codes cs ds
same_codes _ _ = false

-- The status that a cell names: the first whose value it spells, and `draft` for any other text.
unfoldable pub status_named : List ArtifactStatus → String → ArtifactStatus
status_named [] raw = draft
status_named (s ∷ rest) raw =
    let other = status_named rest raw in
    if same_codes (normalized raw) (codes (status_value s)) then s else other

unfoldable pub parse_status : String → ArtifactStatus
parse_status = status_named (draft ∷ validated ∷ freeze_pending ∷ frozen ∷ halted ∷ faulted ∷ [])

abbrev pub status_label : List Token
status_label = escaped "Status"

-- One round of the loop of `read_frozen_artifacts`.
unfoldable pub read_artifact : String → Dict String ArtifactStatus → Dict String ArtifactStatus
read_artifact text results = elim (cell artifact_id text) [
  | none ↦ results
  | some aid ↦ elim (cell status_label text) [
    | none ↦ results
    | some raw ↦ Dict.insert aid (parse_status raw) results
  ]
]

unfoldable pub read_artifacts :
    Dict String String → Dict String ArtifactStatus → Dict String ArtifactStatus
read_artifacts [] results = results
read_artifacts ((_, text) ∷ files) results = read_artifacts files (read_artifact text results)

unfoldable pub read_frozen_artifacts : Disk → Dict String ArtifactStatus
read_frozen_artifacts disk = elim disk.sdlc [ none ↦ [] | some files ↦ read_artifacts files [] ]

unfoldable pub is_artifact_frozen : Disk → String → Bool
is_artifact_frozen disk aid = Dict.get (read_frozen_artifacts disk) aid == some frozen

-- Whether a file's `Artifact ID` cell is the one looked for.
unfoldable pub names_artifact : String → String → Bool
names_artifact aid text = elim (cell artifact_id text) [ none ↦ false | some a ↦ a == aid ]

-- The first file with the ID, by name and text.
unfoldable pub find_file : String → Dict String String → Option (String × String)
find_file aid [] = none
find_file aid ((name, text) ∷ files) =
    let rest = find_file aid files in if names_artifact aid text then some (name, text) else rest

unfoldable pub find_artifact_path : Disk → String → Outcome StateError (String × String)
find_artifact_path disk aid = elim disk.sdlc [
  | none ↦ err no_sdlc
  | some files ↦ elim (find_file aid files) [ none ↦ err (no_artifact aid) | some f ↦ ok f ]
]

-- The text of a file under docs/sdlc replaced.
unfoldable pub store_text : String → String → Disk → Disk
store_text name text disk = record disk {
  sdlc = elim disk.sdlc [ none ↦ none | some files ↦ some (write_file name text files) ];
}

unfoldable pub write_artifact_status :
    Disk → String → ArtifactStatus → Outcome StateError String × Disk
write_artifact_status disk aid status = elim (find_artifact_path disk aid) [
  | err e ↦ (err e, disk)
  | ok (name, text) ↦ elim (cell status_label text) [
    | none ↦ (err (no_status_cell aid), disk)
    | some _ ↦ (ok name, store_text name (set_cell status_label (status_value status) text) disk)
  ]
]
