-- ===== src/State/Tests.antt =====
-- One artifact on disk, pending its freeze, with its Status cell in another spelling.
use aieos_agent_harness.Base.{String, string_eq, ◌≡◌, ◌≢◌, refl, none, some, [], ◌∷◌}
use aieos_agent_harness.Adapter.{ok}
use aieos_agent_harness.Base.Dict
use aieos_agent_harness.State.RoundTrip.{write_artifact_status-parse_status}
use aieos_agent_harness.Models.{freeze_pending, frozen}
use aieos_agent_harness.State.{
  Disk, find_artifact_path, find_file, names_artifact, status_label, status_value, parse_status,
  write_artifact_status, status_named, same_codes, normalized, codes, upper,
}
use aieos_agent_harness.State.Cells.{
  cell, cell_at, open_cell, lazy_value, label, spaces, bar, skip_spaces, is_space, fold, escaped,
  set_cell, text_size, upto,
}

abbrev pending : String
pending = "| Artifact  ID | PRD-1 |\n|status|  Freeze pending |\nText"

abbrev disk : Disk
disk = record { sdlc = some (("prd.md", pending) ∷ []); er = none; journal = none }

finds : find_artifact_path disk "PRD-1" ≡ ok ("prd.md", pending)
unfolding find_artifact_path find_file names_artifact cell cell_at open_cell lazy_value label spaces
    bar skip_spaces is_space fold escaped string_eq
finds = refl

reads : cell status_label pending ≡ some "Freeze pending"
unfolding cell cell_at open_cell lazy_value label spaces bar skip_spaces is_space fold escaped
reads = refl

reads_status : parse_status "Freeze pending" ≡ freeze_pending
unfolding parse_status status_named same_codes normalized codes upper status_value
reads_status = refl

writes :
    set_cell status_label "FROZEN" pending ≡ "| Artifact  ID | PRD-1 |\n|status| FROZEN |\nText"
unfolding set_cell cell_at open_cell lazy_value label spaces bar skip_spaces is_space fold escaped
    text_size upto
writes = refl

reads-ne : cell status_label pending ≢ none
reads-ne e = let k = reads in cc

write_artifact_status-parse_status_example :
    ((write_artifact_status disk "PRD-1" frozen).0 ≡ ok "prd.md")
    × ((t raw : String) × (elim (write_artifact_status disk "PRD-1" frozen).1.sdlc [
      | none ↦ none
      | some fs ↦ Dict.get fs "prd.md"
    ]
          ≡ some t)
        × (cell status_label t ≡ some raw)
        × (parse_status raw ≡ frozen))
write_artifact_status-parse_status_example =
    write_artifact_status-parse_status disk "PRD-1" "prd.md" pending frozen
      (("prd.md", pending) ∷ []) refl finds reads-ne
