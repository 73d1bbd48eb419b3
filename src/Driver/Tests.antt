-- ===== src/Driver/Tests.antt =====
-- A conductor that drives one artifact, over a provider that passes at once.
use aieos_agent_harness.Base.{
  arith, ℕ, ◌+◌, String, ◌<>◌, string_eq, option_eq, ◌≡◌, refl, true, false, none, some, [], ◌∷◌,
}
use aieos_agent_harness.Base.Dict
use aieos_agent_harness.Base.Lists.{contains, keep}
use aieos_agent_harness.Adapter.{ok, Adapter}
use aieos_agent_harness.Convergence.{
  Codec, run, start_run, iterations, iterate, validate, conclude, decide, judged,
  parse_validation_result, judge_request, provenance_of, proceed,
}
use aieos_agent_harness.Driver.{
  Platform, HarnessDriver, Root, artifact_id_of, is_frozen, persist_verdicts,
  persist_freeze_pending, conclude_artifact, run_requests, generate, run_artifact, requests_for,
  make_sdlc, pending_document,
}
use aieos_agent_harness.Driver.Converged.{IsBacked, run_artifact-converged}
use aieos_agent_harness.Invariants.{
  upstream_dependencies, check_freeze_before_promote, missing, is_empty,
}
use aieos_agent_harness.Kits.{
  look_in, or_kept, search_kits, resolve_kit_files, validator_prompt, collect_upstream_artifacts,
  collect_frozen, resolve_declared_inputs,
}
use aieos_agent_harness.Models.{converged, AgentResponse, frozen, status_eq}
use aieos_agent_harness.State.{
  Disk, read_frozen_artifacts, read_artifacts, read_artifact, is_artifact_frozen, store_text,
  write_file, parse_status, status_named, same_codes, normalized, codes, upper, status_value,
}
use aieos_agent_harness.State.Cells.{
  cell, cell_at, open_cell, lazy_value, label, spaces, bar, skip_spaces, is_space, fold, escaped,
  has_row,
}

abbrev World : Type 0
World = Disk × ℕ

abbrev answer : AgentResponse
answer = record {
  content = "PASS";
  provider = "p";
  model = "m";
  tokens_in = 1;
  tokens_out = 2;
  cost_usd = 3;
  latency_ms = 4;
  truncated = none;
}

abbrev answering : Adapter World
answering = record {
  provider_name = "p";
  model_name = "m";
  invoke = λ q w. (ok answer, (w.0, w.1 + 1));
  cost_estimate = λ q. 0;
}

abbrev codec : Codec
codec = record {
  sha256 = λ s. s;
  find_json = λ s. some (record {
    status = some s;
    summary = some "";
    hard_gates = some (("structure", s) ∷ []);
    blocking_issues = some [];
    warnings = none;
    completeness_score = some 90;
  });
}

abbrev platform : Platform World
platform = record {
  codec = codec;
  env = record {
    sha256 = λ s. s;
    expand = λ s. some s;
    int_of = λ s. some 0;
    now = "now";
    today = "today";
  };
  disk = λ w. w.0;
  set_disk = λ d w. (d, w.1);
  human = λ w ref. none;
  log_verdicts = λ type ledger w. (ok tt, w);
  upper = λ s. s;
  lower = λ s. s;
  hyphens = λ s. s;
}

abbrev root : Root
root = record {
  kits = record { name = "aieos-a"; read = λ path. some "text" } ∷ [];
  manifest = none;
  framework = λ repository ref. none;
}

abbrev driver : HarnessDriver World
driver = record {
  path = "/i";
  name = "I";
  gen = answering;
  val = answering;
  max_iterations = 3;
  root = some root;
}

abbrev blank : World
blank = (record { sdlc = none; er = none; journal = none }, 0)

abbrev document : String
document =
    "# PRD\n\n## Document Control\n\n| Field | Value |\n|-------|-------|\n"
    <> "| Artifact ID | PRD-I-001 |\n| Status | FREEZE_PENDING |\n| Last Validation | PASS |\n\nPASS\n"

abbrev after : World
after = (record { sdlc = some (("PRD.md", document) ∷ []); er = none; journal = none }, 2)

drives : run_artifact platform driver "PRD" blank ≡ (ok converged, after)
unfolding run_artifact generate run_requests conclude_artifact persist_freeze_pending
    persist_verdicts is_frozen artifact_id_of requests_for make_sdlc pending_document run start_run
    iterations iterate validate conclude decide judged parse_validation_result judge_request
    provenance_of proceed string_eq Dict.get_or Dict.get look_in or_kept search_kits
    resolve_kit_files validator_prompt collect_upstream_artifacts collect_frozen
    resolve_declared_inputs is_artifact_frozen read_frozen_artifacts read_artifacts
    check_freeze_before_promote missing is_empty keep contains store_text write_file has_row
    open_cell label spaces bar skip_spaces is_space fold option_eq
drives = refl

run_artifact-converged_example :
    (is_frozen platform driver "PRD" blank ≡ false)
    × (check_freeze_before_promote upstream_dependencies (read_frozen_artifacts blank.0) "PRD"
        ≡ true)
    × IsBacked platform driver "PRD" blank
run_artifact-converged_example = run_artifact-converged platform driver "PRD" blank after drives

abbrev frozen_world : World
frozen_world = (
  record {
    sdlc = some (("PRD.md", "| Artifact ID | PRD-I-001 |\n| Status | FROZEN |\n") ∷ []);
    er = none;
    journal = none;
  },
  0,
)

on_disk :
    Dict.get (read_frozen_artifacts frozen_world.0) (artifact_id_of platform driver "PRD")
    ≡ some frozen
unfolding artifact_id_of read_frozen_artifacts read_artifacts read_artifact parse_status
    status_named same_codes normalized codes upper status_value cell cell_at open_cell lazy_value
    label spaces bar skip_spaces is_space fold escaped string_eq option_eq Dict.get Dict.insert
on_disk = refl

stands : is_frozen platform driver "PRD" frozen_world ≡ true
unfolding is_frozen is_artifact_frozen
stands = ground (arith, on_disk)
