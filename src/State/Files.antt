-- ===== src/State/Files.antt =====
-- src/state.py: which file a write reaches, and what a search finds.
use aieos_agent_harness.Base.{
  String, string_eq, ◌≡◌, ◌≢◌, refl, true, Bool-cases, inl, inr, none, some, [], ◌∷◌, ◌==◌,
  if◌then◌else◌, arith, Option-cases,
}
use aieos_agent_harness.Base.Dict
use aieos_agent_harness.Base.Dict.{Dict}
use aieos_agent_harness.Adapter.{ok}
use aieos_agent_harness.Models.{ArtifactStatus}
use aieos_agent_harness.State.{
  Disk, write_file, store_text, find_file, find_artifact_path, names_artifact,
  write_artifact_status, precedes, status_label, status_value,
}
use aieos_agent_harness.State.Cells.{cell, set_cell}

-- A file that is written holds the new text, and every other file what it held.
pub get-write_file :
    (name other text : String) (files : Dict String String)
    → Dict.get (write_file name text files) other
      ≡ (if other == name then some text else Dict.get files other)
unfolding Dict.get write_file
get-write_file name other text [] = refl
get-write_file name other text ((n, t) ∷ files) =
    let rest = get-write_file name other text files in
    elim (Bool-cases (name == n)) [
      | inl e ↦ ground (arith, e)
      | inr e ↦ elim (Bool-cases (precedes name n)) [
        | inl p ↦ ground (arith, e, p)
        | inr p ↦ ground (arith, e, p, rest)
      ]
    ]

-- What is found has the ID that was looked for.
find_file-names :
    (aid name text : String) (files : Dict String String)
    → find_file aid files ≡ some (name, text)
    → names_artifact aid text ≡ true
unfolding find_file
find_file-names aid name text [] h = cc
find_file-names aid name text ((n, t) ∷ files) h = elim (Bool-cases (names_artifact aid t)) [
  | inl e ↦ ground (arith, h, e)
  | inr e ↦ find_file-names aid name text files (ground (arith, h, e))
]

pub find_artifact_path-names :
    (disk : Disk) (aid name text : String)
    → find_artifact_path disk aid ≡ ok (name, text)
    → names_artifact aid text ≡ true
unfolding find_artifact_path
find_artifact_path-names disk aid name text h = elim (Option-cases disk.sdlc) [
  | inl e ↦ absurd (ground (arith, h, e))
  | inr (files, e) ↦ elim (Option-cases (find_file aid files)) [
    | inl f ↦ absurd (ground (arith, h, e, f))
    | inr (x, f) ↦ find_file-names aid name text files (ground (arith, h, e, f))
  ]
]

-- `write_artifact_status` fails with the disk untouched, or succeeds on the file that carries the ID,
-- which then holds its text with the first Status cell replaced; no other file changes.
pub write_artifact_status-local :
    (disk : Disk) (aid name text : String) (status : ArtifactStatus) (files : Dict String String)
    → disk.sdlc ≡ some files
    → find_artifact_path disk aid ≡ ok (name, text)
    → cell status_label text ≢ none
    → ((write_artifact_status disk aid status).0 ≡ ok name)
      × ((other : String)
          → elim (write_artifact_status disk aid status).1.sdlc [
            | none ↦ none
            | some fs ↦ Dict.get fs other
          ]
            ≡ (if other == name
                then some (set_cell status_label (status_value status) text)
                else Dict.get files other))
unfolding write_artifact_status store_text
write_artifact_status-local disk aid name text status files s f c =
    elim (Option-cases (cell status_label text)) [
      | inl e ↦ absurd (c e)
      | inr (v, e) ↦ (
        ground (arith, f, e),
        λ other.
            rw (f, e, s)
              (get-write_file name other (set_cell status_label (status_value status) text) files),
      )
    ]
