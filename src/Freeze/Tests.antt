-- ===== src/Freeze/Tests.antt =====
-- A decision that freezes an artifact on disk, and one that is refused.
use text.Mathlib.TextEquality.{eq_iff}
use aieos_agent_harness.Base.{
  String, string_eq, option_eq, ◌≡◌, refl, true, false, none, some, [], ◌∷◌,
}
use aieos_agent_harness.Base.Dict
use aieos_agent_harness.Adapter.{ok, err}
use aieos_agent_harness.Models.{FreezeGateDecision, FreezeResult, approve, frozen}
use aieos_agent_harness.State.{
  Disk, find_artifact_path, find_file, names_artifact, write_artifact_status, status_value,
  store_text, write_file,
}
use aieos_agent_harness.State.Cells.{
  cell, cell_at, open_cell, lazy_value, label, spaces, bar, skip_spaces, is_space, fold, escaped,
  set_cell, text_size, upto, has_row,
}
use aieos_agent_harness.State.Record.{
  upsert_document_control_rows, update_rows, insert_rows, behind_table, split_lines, in_table,
  ends_newline, row_line, join,
}
use aieos_agent_harness.Freeze.{
  Surroundings, Targets, apply_freeze_decision, check_guards, check_authorized_freeze, is_approving,
  hash_artifact_content, normalize_from, write_freeze, write_provenance, text_of, finish_freeze,
  count_freeze, unauthorized, owner_of,
}
use aieos_agent_harness.Freeze.Effects.{apply-others}
use aieos_agent_harness.Freeze.Guards.{IsCleared, is_refusal, apply-refused, apply-authorized}

abbrev pending : String
pending = "| Artifact ID | PRD-1 |\n| Status | FREEZE_PENDING |\n"

abbrev disk : Disk
disk = record { sdlc = some (("prd.md", pending) ∷ []); er = none; journal = none }

abbrev env : Surroundings
env = record {
  sha256 = λ s. "hash";
  expand = λ s. some s;
  int_of = λ s. some 0;
  now = "now";
  today = "today";
}

abbrev targets : Targets
targets = record { er_given = false; journal_given = false }

abbrev decision : FreezeGateDecision
decision = record {
  artifact_id = "PRD-1";
  outcome = approve;
  content_hash = "hash";
  decided_by = "ann";
  auto_freeze_attempted = false;
  conditions = [];
  rationale = "";
  owner = none;
}

abbrev result : FreezeResult
result = record {
  artifact_id = "PRD-1";
  status = frozen;
  path = "prd.md";
  decided_by = "ann";
  frozen_count = none;
  owner = some "ann";
}

finds : find_artifact_path disk "PRD-1" ≡ ok ("prd.md", pending)
unfolding find_artifact_path find_file names_artifact cell cell_at open_cell lazy_value label spaces
    bar skip_spaces is_space fold escaped string_eq
finds = refl

freezes : (apply_freeze_decision env targets decision disk).0 ≡ ok result
unfolding apply_freeze_decision check_guards check_authorized_freeze is_approving
    hash_artifact_content normalize_from write_freeze write_provenance text_of finish_freeze
    count_freeze owner_of find_artifact_path find_file names_artifact write_artifact_status
    status_value store_text write_file cell cell_at open_cell lazy_value label spaces bar
    skip_spaces is_space fold escaped set_cell text_size upto has_row upsert_document_control_rows
    update_rows insert_rows behind_table split_lines in_table ends_newline row_line join string_eq
    Dict.get
freezes = refl

apply-authorized_example :
    (text : String) × IsCleared env decision disk "prd.md" text
    × (result.status ≡ frozen)
    × (result.decided_by ≡ "ann")
    × (result.artifact_id ≡ "PRD-1")
apply-authorized_example = apply-authorized env targets decision disk result freezes

apply-others_example :
    text_of "sad.md" (apply_freeze_decision env targets decision disk).1 ≡ text_of "sad.md" disk
apply-others_example =
    apply-others env targets decision disk "prd.md" pending "sad.md" finds
      (λ e. let k = (eq_iff "sad.md" "prd.md").1 e in cc)

abbrev automatic : FreezeGateDecision
automatic = record decision { auto_freeze_attempted = true }

refuses : (apply_freeze_decision env targets automatic disk).0 ≡ err unauthorized
unfolding apply_freeze_decision check_guards check_authorized_freeze
refuses = refl

refusal : is_refusal unauthorized ≡ true
unfolding is_refusal
refusal = refl

apply-refused_example : (apply_freeze_decision env targets automatic disk).1 ≡ disk
apply-refused_example = apply-refused env targets automatic disk unauthorized refusal refuses
