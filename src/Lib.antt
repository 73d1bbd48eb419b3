-- ===== src/Lib.antt =====
-- The agent harness: a verification library for the program's own logic, one module per component.
--
-- How the program is put together. A driver locks an initiative (src/lock.py), asks a provider for
-- an artifact and a judge for a verdict until the judge passes it or the budget is spent
-- (src/convergence.py), and reaches its providers through routes with a circuit breaker
-- (src/routing.py). The conductor's facade (src/driver.py) runs that loop for one artifact type,
-- on the files of the kits (src/inputs.py) and on the frozen artifacts on disk (src/state.py), and
-- leaves the result pending; a human's decision then freezes it (src/freeze.py). A plan of work
-- items is run group by group over the same loop (src/orchestrator.py, src/execution_ledger.py),
-- and a search for a better prompt runs experiments (src/auto_research.py). Every provider call
-- can be logged and summed up (src/observability.py), a plan is parsed from Markdown
-- (src/wdd_parser.py), and pipelines run commands before they ask a model (src/pipelines.py). A
-- judge is itself measured against gold cases before its verdicts count (src/calibration.py). The
-- CI/CD substrate registers adapters behind a check of their attestations and runs tasks on them,
-- with events that tell of the run (src/cicd/registry.py, src/cicd/attestation.py,
-- src/cicd/agents.py, src/cicd/events.py), and a binder sends lifecycle events to adapters
-- (src/lifecycle.py).
--
-- Which file models which part:
-- Base: equality tests, lists and dicts over the native numbers, decimal numerals.
-- Models: the enums and dataclasses of src/models.py.
-- Adapter: the protocol of src/adapters/base.py. A provider is an external service, so it is a
--   parameter: a function over a world `W` that each call may change and that may raise.
-- Convergence: `ConvergenceLoop`; `run` is `start_run`, then `iterations`, each an `iterate`:
--   the generation with its truncation guard, `validate`, `decide`. Verdict has the ledger entries
--   and the two detectors `_detect_staleness` and `_detect_oscillation`.
-- Lock: `acquire_lock`, `renew_lock`, `release_lock`, `is_takeable`, on a record of the two
--   files. `acquire_read` is the part of `acquire_lock` behind its read, so that calls can
--   interleave. Sessions has sequences of calls, Race one interleaving.
-- Routing: `CircuitBreaker`, and `attempts`, the loop that `_fallback` and `_cost_aware` share;
--   `run_pipeline` is `_pipeline`, `run_consensus` is `_parallel_consensus` given the results in
--   the order of completion.
-- Calibration: `_check_activation_floor` is `meets_floor`, `run_calibration` keeps its name;
--   Scoring has `score` and `_verdict`, LockFile has `write_lock` and `check_lock`.
-- Invariants: the table `UPSTREAM_DEPENDENCIES` and `check_freeze_before_promote` of
--   src/invariants.py, on the statuses that the state module has read; `check_authorized_freeze`
--   stands in Freeze.
-- State: src/state.py on a record of the files on disk. State/Cells has the regular expressions
--   of a table's cells as functions on the text, `re.search` as `cell` and `re.sub` as `set_cell`;
--   State/Record has `upsert_document_control_rows`, the engagement record and the journal. Bars,
--   Heads and Values take a match of the pattern of a cell apart: what its head is, what stands
--   behind it, and what value is read.
-- Freeze: `apply_freeze_decision`; `check_guards` is the part before its first write,
--   `write_freeze` the part from there on.
-- Kits: `resolve_declared_inputs` of src/inputs.py, and `_resolve_kit_files` and
--   `_collect_upstream_artifacts` of src/cli.py.
-- Driver: `HarnessDriver`; `generate` is `run_artifact` from the kit's files on,
--   `apply_decision` is its `apply_freeze_decision`.
-- Wdd: the data of src/wdd_parser.py, and `build_context` of src/context_builder.py. Items has
--   one item's section, `_parse_item_section`; Grouping has `_parse_work_groups`, on a store of
--   the items that groups and dict share; Overlay has `_overlay_execution_plan` and
--   `parse_wdd_for_execution`.
-- Pipelines: `ORDVerificationPipeline.verify` and `CodebaseAnalysisPipeline.analyze`; Health has
--   `HealthReviewPipeline.review` and its `_read_metrics`.
-- Observability: `record` and `read_records` of `ObservabilityLayer`, as `record_invocation` and
--   `read_records`; Summaries has the four aggregates, each with the part behind the reading of
--   the log as a function of its own.
-- ExecutionLedger: `ExecutionLedger`; a change of a status in place is a `put` of the changed
--   status. File has `save` and `load` on the lines of the Markdown file, Patterns the patterns of
--   its rows with a matcher that backtracks; Rows and Saved take a row apart.
-- Orchestrator: `WDDOrchestrator`, with `_execute_group_phase_sync` and `_execute_item_phase`;
--   Items has `_execute_group_independent`, Groups has `execute` and `_check_file_overlap`.
-- Research: `AutoResearchEngine`; Variations has `_generate_variations` and its strategies,
--   Rounds has `optimize`.
-- Lifecycle: `LifecycleBinder`; `collect` is the loop of `resolve`, `execute` keeps its name.
-- Cicd: src/cicd/models.py; Registry has `CapabilityRegistry`, Attestation has
--   `AttestationVerifier.__call__` as `verify`, Agents has `DeterministicAgent.receive_task` as
--   `receive_task` and `LLMAgent.receive_task` as `receive_task_llm`. Events has `RunEventEmitter`
--   and the emitting agents; Reports has a run of tasks on them and the reading of the dicts of
--   its events, which are not in the source.
-- A module's other children hold its proofs; a module named Tests holds runs at concrete inputs.
--
-- Bounds. The loop of `run` recurses on the `max_iterations` of the code, that of `LLMAgent` on
-- the retries that are left, the others on the lists they walk. Two definitions run on fuel: the
-- `while` of `optimize`, whose rounds each run an experiment, so that one round more than
-- `max_experiments` is enough; and the replacement of every match in a text, which takes a
-- character or more each time and gets the size of the text. Floats are scaled integers and
-- quotients are compared by cross-multiplying, except in Research, where they are a type with the
-- operations that the engine uses; a clock is a natural number or the text that it prints.
--
-- Parameters. SHA-256, the JSON of a reply and of a registry entry, `int`, `str.upper` and
-- `str.lower` on names, the templates of `re.sub`, the decoded YAML manifest, the processes of the
-- host, files outside docs/sdlc, the artifact store, the fetcher of attestations, the JSON of a
-- log's line, `datetime.fromisoformat`, what the regular expressions of src/wdd_parser.py find,
-- the shell of the pipelines and every provider are arguments. The tasks of a thread pool run one
-- after the other in an order that is an argument too; a theorem that needs it assumes that each
-- submitted task completes once. Writes to files succeed where the model gives them no error.
--
-- Not modelled: the other invariant checks, reading the journal back, the two searches of the
-- context builder, the configuration, the providers themselves and the commands; they are files,
-- processes and text around the parts above. Where a line of the log has a value of another JSON
-- type than the log is written with, the code goes on with it; the model stops with an error.
pub mod Adapter
pub mod Base
pub mod Calibration
pub mod Cicd
pub mod Convergence
pub mod Driver
pub mod ExecutionLedger
pub mod Freeze
pub mod Invariants
pub mod Kits
pub mod Lifecycle
pub mod Lock
pub mod Models
pub mod Observability
pub mod Orchestrator
pub mod Pipelines
pub mod Research
pub mod Routing
pub mod State
pub mod Wdd
