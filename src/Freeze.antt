-- ===== src/Freeze.antt =====
-- src/freeze.py: `apply_freeze_decision`, the one writer of FROZEN, on the disk of src/state.py. The
-- hook `on_post_freeze` is left out: it is called last, with the result.
pub mod Guards
pub mod Effects
mod Tests
use Prim.Native.Char.{code}
use Prim.Native.String.{String}
use aieos_agent_harness.Base.{
  ℕ, suc, string_eq, option_eq, Bool, true, false, not, ◌&&◌, ◌||◌, Option, none, some, List, [],
  ◌∷◌, ◌==◌, eqb, if◌then◌else◌,
}
use aieos_agent_harness.Base.Dict
use aieos_agent_harness.Adapter.{Outcome, ok, err}
use aieos_agent_harness.Models.{
  FreezeGateDecision, FreezeResult, DecisionOutcome, approve, approve_with_conditions, block,
  remediate_and_retry, require_redesign, rollback, frozen,
}
use aieos_agent_harness.State.{
  Disk, StateError, no_file, find_artifact_path, write_artifact_status, store_text,
}
use aieos_agent_harness.State.Cells.{skip_spaces, is_space}
use aieos_agent_harness.State.Record.{
  ErStateBlock, upsert_document_control_rows, read_er_state_block, write_er_state_block,
  append_journal_entry,
}

-- The codes of a `FreezeError`, and `crashed`, an exception of another class.
pub data FreezeError : Type 0 where
  unauthorized not_approved not_found hash_mismatch state_error : FreezeError
  crashed : StateError → FreezeError

-- What the function uses of the standard library: SHA-256, the templates of `re`, `int`, and the
-- clock, with the time and with the day.
pub record Surroundings : Type 0 where
  pub sha256 : String → String
  pub expand : String → Option String
  pub int_of : String → Option ℕ
  pub now : String
  pub today : String

-- The paths that the caller gives, or `None`.
pub record Targets : Type 0 where
  pub er_given : Bool
  pub journal_given : Bool

unfoldable pub is_approving : DecisionOutcome → Bool
is_approving approve = true
is_approving approve_with_conditions = true
is_approving block = false
is_approving remediate_and_retry = false
is_approving require_redesign = false
is_approving rollback = false

unfoldable pub outcome_value : DecisionOutcome → String
outcome_value approve = "APPROVE"
outcome_value approve_with_conditions = "APPROVE_WITH_CONDITIONS"
outcome_value block = "BLOCK"
outcome_value remediate_and_retry = "REMEDIATE_AND_RETRY"
outcome_value require_redesign = "REQUIRE_REDESIGN"
outcome_value rollback = "ROLLBACK"

-- `check_authorized_freeze(decision).passed`
unfoldable pub check_authorized_freeze : FreezeGateDecision → Bool
check_authorized_freeze d = not d.auto_freeze_attempted && not (skip_spaces d.decided_by == "")

-- Line ends as `\n`: after a `\r`, a `\n` that follows is dropped with it.
unfoldable pub normalize_from : Bool → String → String
normalize_from after String.[] = String.[]
normalize_from after (String.◌∷◌ c s) = elim (eqb (code c) 13) [
  | true ↦ String.◌∷◌ "\n" (normalize_from true s)
  | false ↦ elim (after && eqb (code c) 10) [
    | true ↦ normalize_from false s
    | false ↦ String.◌∷◌ c (normalize_from false s)
  ]
]

unfoldable pub hash_artifact_content : Surroundings → String → String
hash_artifact_content env text = env.sha256 (normalize_from false text)

strip_end : String → String
strip_end String.[] = String.[]
strip_end (String.◌∷◌ c s) =
    let rest = strip_end s in
    if is_space (code c) && rest == "" then String.[] else String.◌∷◌ c rest

-- `(decision.owner or "").strip() or decision.decided_by`
unfoldable pub owner_of : FreezeGateDecision → String
unfolding strip_end
owner_of d =
    let given = strip_end (skip_spaces (elim d.owner [ none ↦ "" | some o ↦ o ])) in
    if given == "" then d.decided_by else given

-- The guards, in their order: the file and its text where the freeze may go on.
unfoldable pub check_guards :
    Surroundings → Targets → FreezeGateDecision → Disk → Outcome FreezeError (String × String)
check_guards env targets d disk =
    if not (check_authorized_freeze d)
    then err unauthorized
    else if not (is_approving d.outcome)
    then err not_approved
    else elim (find_artifact_path disk d.artifact_id) [
      | err e ↦ err not_found
      | ok (name, text) ↦
          if not (hash_artifact_content env text == d.content_hash)
          then err hash_mismatch
          else if targets.er_given && disk.er == none
          then err state_error
          else if targets.journal_given && disk.journal == none
          then err state_error
          else ok (name, text)
    ]

-- The text of one file under docs/sdlc.
unfoldable pub text_of : String → Disk → Option String
text_of name disk = elim disk.sdlc [ none ↦ none | some files ↦ Dict.get files name ]

-- The provenance rows, written into the file that is frozen already.
unfoldable pub write_provenance :
    Surroundings → FreezeGateDecision → String → Disk → Outcome FreezeError (Unit {0}) × Disk
write_provenance env d name disk = elim (text_of name disk) [
  | none ↦ (err (crashed no_file), disk)
  | some text ↦
      elim (upsert_document_control_rows env.expand text
        (("Owner", owner_of d) ∷ ("Frozen By", d.decided_by) ∷ ("Frozen Date", env.today) ∷ [])) [
          | err e ↦ (err (crashed e), disk)
          | ok text' ↦ (ok tt, store_text name text' disk)
        ]
]

-- The count in the engagement record, if a path is given.
unfoldable pub count_freeze : Surroundings → Targets → Disk → Outcome FreezeError (Option ℕ) × Disk
count_freeze env targets disk = if not targets.er_given then (ok none, disk) else elim disk.er [
  | none ↦ (err (crashed no_file), disk)
  | some text ↦ elim (read_er_state_block env.int_of text) [
    | err e ↦ (err (crashed e), disk)
    | ok state ↦
        let state' = record state {
          frozen_count = suc state.frozen_count;
          last_updated = env.now;
        } in
        elim (write_er_state_block env.expand text state') [
          | err e ↦ (err (crashed e), disk)
          | ok text' ↦ (ok (some state'.frozen_count), record disk { er = some text' })
        ]
  ]
]

-- The journal entry, if a path is given.
unfoldable pub journal_freeze : Surroundings → Targets → FreezeGateDecision → Disk → Disk
journal_freeze env targets d disk = if not targets.journal_given then disk else record disk {
  journal = some (
      append_journal_entry env.now disk.journal "Freeze" (
        ("Artifact", d.artifact_id)
        ∷ ("Event", "POST_FREEZE")
        ∷ ("Outcome", outcome_value d.outcome)
        ∷ ("Decided By", d.decided_by)
        ∷ ("Content Hash", d.content_hash)
        ∷ []));
}

unfoldable pub finish_freeze :
    Surroundings
    → Targets
    → FreezeGateDecision
    → String
    → Disk
    → Outcome FreezeError FreezeResult × Disk
finish_freeze env targets d name disk =
    let (counted, disk') = count_freeze env targets disk in
    elim counted [
      | err e ↦ (err e, disk')
      | ok frozen_count ↦ (
        ok (record {
          artifact_id = d.artifact_id;
          status = frozen;
          path = name;
          decided_by = d.decided_by;
          frozen_count = frozen_count;
          owner = some (owner_of d);
        }),
        journal_freeze env targets d disk',
      )
    ]

unfoldable pub write_freeze :
    Surroundings → Targets → FreezeGateDecision → Disk → Outcome FreezeError FreezeResult × Disk
write_freeze env targets d disk =
    let (written, disk1) = write_artifact_status disk d.artifact_id frozen in
    elim written [
      | err e ↦ (err (crashed e), disk1)
      | ok name ↦
          let (provenance, disk2) = write_provenance env d name disk1 in
          elim provenance [ err e ↦ (err e, disk2) | ok _ ↦ finish_freeze env targets d name disk2 ]
    ]

unfoldable pub apply_freeze_decision :
    Surroundings → Targets → FreezeGateDecision → Disk → Outcome FreezeError FreezeResult × Disk
apply_freeze_decision env targets d disk = elim (check_guards env targets d disk) [
  | err e ↦ (err e, disk)
  | ok _ ↦ write_freeze env targets d disk
]
