-- ===== src/Driver.antt =====
-- src/driver.py: `HarnessDriver`, the facade of a conductor. The world `W` holds the disk of the
-- initiative, which adapters may change too.
pub mod Frozen
pub mod Converged
mod Tests
use aieos_agent_harness.Base.{
  ℕ, String, ◌<>◌, string_eq, option_eq, Bool, true, false, not, Option, none, some, List, [], ◌∷◌,
  ◌==◌, if◌then◌else◌,
}
use aieos_agent_harness.Base.Dict
use aieos_agent_harness.Base.Dict.{Dict}
use aieos_agent_harness.Adapter.{
  Outcome, ok, err, Call, Adapter, pure, raise, rethrow, ◌>>=◌, ◌>>◌, raise_if,
}
use aieos_agent_harness.Convergence.{Codec, ConvergenceLoop, RunError, RunResult, run}
use aieos_agent_harness.Convergence.Verdict.{LedgerEntry}
use aieos_agent_harness.Freeze.{Surroundings, Targets, FreezeError, apply_freeze_decision}
use aieos_agent_harness.Invariants.{upstream_dependencies, check_freeze_before_promote}
use aieos_agent_harness.Kits.{
  Kit, KitFiles, ManifestKit, resolve_kit_files, validator_prompt, collect_upstream_artifacts,
  resolve_declared_inputs,
}
use aieos_agent_harness.Models.{
  AgentRequest, pre_generation, pre_validation, LifecycleResult, converged, escalation_needed,
  already_frozen, status_eq, frozen, FreezeGateDecision, FreezeResult,
}
use aieos_agent_harness.State.{
  Disk, StateError, no_file, read_frozen_artifacts, is_artifact_frozen, store_text,
}
use aieos_agent_harness.State.Cells.{artifact_id, has_row}
use aieos_agent_harness.State.Record.{
  ErStateBlock, upsert_document_control_rows, ends_newline, read_er_state_block,
}

-- The framework's root: its kits, its manifest, and the files below a kit.
pub record Root : Type 0 where
  pub kits : List Kit
  pub manifest : Option (List ManifestKit)
  pub framework : String → String → Option String

-- The object that `__init__` builds.
pub record HarnessDriver (W : Type 0) : Type 0 where
  pub path : String
  pub name : String
  pub gen : Adapter W
  pub val : Adapter W
  pub max_iterations : ℕ
  pub root : Option Root

-- What the driver uses of its surroundings: the disk in the world, the files below the initiative,
-- the append to .aieos/verdicts.jsonl, and Python's `str.upper` and `str.lower`.
pub record Platform (W : Type 0) : Type 0 where
  pub codec : Codec
  pub env : Surroundings
  pub disk : W → Disk
  pub set_disk : Disk → W → W
  pub human : W → String → Option String
  pub log_verdicts : String → List LedgerEntry → Call W String (Unit {0})
  pub upper : String → String
  pub lower : String → String
  pub hyphens : String → String

pub data DriverError : Type 0 where
  no_root : DriverError
  upstream_not_frozen : String → DriverError
  no_spec : String → DriverError
  missing_input : String → DriverError
  loop_raised : RunError → DriverError
  log_failed : String → DriverError
  frozen_artifact : String → DriverError
  bad_document : StateError → DriverError

-- The two requests of a run.
pub record Requests : Type 0 where
  pub gen : AgentRequest
  pub val : AgentRequest

unfoldable pub requests_for :
    String
    → String
    → KitFiles
    → (judge_prompt : String) → (upstream declared : Dict String String) → Requests
requests_for path artifact_type files judge_prompt upstream declared = record {
  gen = record {
    artifact_type = artifact_type;
    event = pre_generation;
    spec_content = files.spec;
    template_content = files.template;
    prompt_content = files.prompt;
    upstream_artifacts = upstream;
    current_artifact = none;
    correction_constraints = [];
    metadata = ("initiative", path) ∷ ("artifact_id", artifact_type) ∷ [];
    declared_inputs = declared;
    temperature = none;
  };
  val = record {
    artifact_type = artifact_type;
    event = pre_validation;
    spec_content = files.spec;
    template_content = files.template;
    prompt_content = if judge_prompt == "" then files.prompt else judge_prompt;
    upstream_artifacts = upstream;
    current_artifact = none;
    correction_constraints = [];
    metadata = ("initiative", path) ∷ [];
    declared_inputs = declared;
    temperature = none;
  };
}

-- The document that is written at FREEZE_PENDING.
unfoldable pub pending_document :
    (String → Option String) → (aid artifact_type content : String) → Outcome StateError String
pending_document expand aid artifact_type content =
    if has_row artifact_id content
    then elim (upsert_document_control_rows expand content
        (("Artifact ID", aid) ∷ ("Status", "FREEZE_PENDING") ∷ ("Last Validation", "PASS") ∷ [])) [
          | err e ↦ err e
          | ok doc ↦ ok (if ends_newline doc then doc else doc <> "\n")
        ]
    else ok (
        "# " <> artifact_type
        <> "\n\n## Document Control\n\n| Field | Value |\n|-------|-------|\n| Artifact ID | "
        <> aid <> " |\n| Status | FREEZE_PENDING |\n| Last Validation | PASS |\n\n" <> content
        <> "\n")

-- `mkdir(parents=True, exist_ok=True)`
unfoldable pub make_sdlc : Disk → Disk
make_sdlc disk = record disk { sdlc = elim disk.sdlc [ none ↦ some [] | some files ↦ some files ] }

module _ {W : Type 0} (p : Platform W) (self : HarnessDriver W) where
  -- `_artifact_id`; `hyphens` is `str.replace(" ", "-")`.
  unfoldable pub artifact_id_of : String → String
  artifact_id_of artifact_type =
      let given = p.hyphens (p.upper self.name) in
      artifact_type <> "-" <> (if given == "" then "INIT" else given) <> "-001"

  unfoldable pub is_frozen : String → W → Bool
  is_frozen artifact_type w = is_artifact_frozen (p.disk w) (artifact_id_of artifact_type)

  unfoldable pub persist_verdicts : String → RunResult → Call W DriverError (Unit {0})
  persist_verdicts artifact_type r =
      rethrow log_failed (p.log_verdicts artifact_type r.state.ledger)

  unfoldable pub persist_freeze_pending : String → String → Call W DriverError (Unit {0})
  persist_freeze_pending artifact_type content w =
      let aid = artifact_id_of artifact_type in
      if is_frozen artifact_type w
      then (err (frozen_artifact aid), w)
      else let w1 = p.set_disk (make_sdlc (p.disk w)) w in
        elim (pending_document p.env.expand aid artifact_type content) [
          | err e ↦ (err (bad_document e), w1)
          | ok doc ↦
              (ok tt, p.set_disk (store_text (p.lower artifact_type <> ".md") doc (p.disk w1)) w1)
        ]

  abbrev pub driver_loop : ConvergenceLoop W
  driver_loop = record { gen = self.gen; val = self.val; max = self.max_iterations; lenses = [] }

  -- What follows the loop of `run_artifact`.
  unfoldable pub conclude_artifact : String → RunResult → Call W DriverError LifecycleResult
  conclude_artifact artifact_type r =
      if r.result.status == "PASS"
      then persist_freeze_pending artifact_type r.response.content >> pure converged
      else pure escalation_needed

  -- From the loop on.
  unfoldable pub run_requests : String → Requests → Call W DriverError LifecycleResult
  run_requests artifact_type requests = do
    r ← rethrow loop_raised (run p.codec driver_loop requests.gen requests.val)
    persist_verdicts artifact_type r
    conclude_artifact artifact_type r

  -- From the kit's files on.
  unfoldable pub generate : Root → String → Call W DriverError LifecycleResult
  generate root artifact_type w =
      let files = resolve_kit_files p.lower root.kits artifact_type in
      if files.spec == ""
      then (err (no_spec artifact_type), w)
      else elim (resolve_declared_inputs p.lower root.manifest root.framework (p.human w)
          artifact_type) [
            | err ref ↦ (err (missing_input ref), w)
            | ok declared ↦
                run_requests artifact_type
                  (requests_for self.path artifact_type files
                    (validator_prompt (p.lower artifact_type) root.kits)
                    (collect_upstream_artifacts (p.disk w)) declared)
                  w
          ]

  unfoldable pub run_artifact : String → Call W DriverError LifecycleResult
  run_artifact artifact_type w = elim self.root [
    | none ↦ (err no_root, w)
    | some root ↦
        if is_frozen artifact_type w
        then (ok already_frozen, w)
        else if not (
            check_freeze_before_promote upstream_dependencies (read_frozen_artifacts (p.disk w))
              artifact_type)
        then (err (upstream_not_frozen artifact_type), w)
        else generate root artifact_type w
  ]

  unfoldable pub run_artifact_lifecycle :
      AgentRequest → AgentRequest → Call W DriverError LifecycleResult
  run_artifact_lifecycle gen_request val_request = do
    r ← rethrow loop_raised (run p.codec driver_loop gen_request val_request)
    persist_verdicts gen_request.artifact_type r
    pure (if r.result.status == "PASS" then converged else escalation_needed)

  unfoldable pub read_layer_state : Call W StateError ErStateBlock
  read_layer_state w = elim (p.disk w).er [
    | none ↦ (err no_file, w)
    | some text ↦ (read_er_state_block p.env.int_of text, w)
  ]

  -- The freeze, with the engagement record and the journal where they are on disk.
  unfoldable pub apply_decision : FreezeGateDecision → Call W FreezeError FreezeResult
  apply_decision d w =
      let disk = p.disk w in
      let targets : Targets = record {
        er_given = not (disk.er == none);
        journal_given = not (disk.journal == none);
      } in
      let (r, disk') = apply_freeze_decision p.env targets d disk in (r, p.set_disk disk' w)
