-- ===== src/Orchestrator.antt =====
-- src/orchestrator.py: `WDDOrchestrator`, which runs the groups of a plan over the convergence loop
-- and the execution ledger. The tasks of a thread pool run one after the other, in the order of
-- `as_completed`; files and the clock belong to the world.
pub mod Items
pub mod Groups
pub mod Counts
pub mod ItemCounts
pub mod Complete
pub mod Execute
pub mod Modes
mod Tests
use aieos_agent_harness.Base.{
  ℕ, ◌+◌, suc, String, ◌<>◌, string_eq, Bool, true, false, not, Option, none, some, List, [], ◌∷◌,
  ◌++◌, ◌==◌, if◌then◌else◌, eqb, ltb, map,
}
use aieos_agent_harness.Base.Dict
use aieos_agent_harness.Base.Dict.{Dict}
use aieos_agent_harness.Base.Integer.{pos}
use aieos_agent_harness.Base.Lists.{length, keep, contains, sum}
use aieos_agent_harness.Models.{AgentRequest, AgentResponse, post_generation, post_validation}
use aieos_agent_harness.Adapter.{Outcome, ok, err, Call, Adapter, pure, raise, rethrow, ◌>>=◌, ◌>>◌}
use aieos_agent_harness.Convergence.{Codec, ConvergenceLoop, RunError, RunResult, run}
use aieos_agent_harness.ExecutionLedger.{
  ExecutionLedger, ItemPhaseStatus, GroupGateResult, record_phase_start, record_phase_complete,
  record_phase_failed, record_group_gate, is_item_phase_complete, get_item_status,
}
use aieos_agent_harness.Wdd.{
  ExecutionItem, ExecutionGroup, ExecutionPlan, ItemContext, Extractors, build_context, phases,
}

pub record ExecutionResult : Type 0 where
  pub status : String
  pub groups_completed : ℕ
  pub groups_total : ℕ
  pub items_completed : ℕ
  pub items_total : ℕ
  pub items_failed : ℕ
  pub items_human_pending : ℕ
  pub ledger_path : String

-- The object that `__init__` builds, less the ledger, which the methods pass on.
pub record WddOrchestrator (W : Type 0) : Type 0 where
  pub plan : ExecutionPlan
  pub initiative : String
  pub adapters : Dict String (Adapter W)
  pub wdd_content : String
  pub tdd_content : String
  pub acf_content : String
  pub dcf_content : String
  pub phase_prompts : Dict String String
  pub gen_name : String
  pub val_name : String
  pub review_name : String
  pub ledger_path : String

-- What a task raises.
pub data PhaseError : Type 0 where
  no_adapter : String → PhaseError
  loop_raised : RunError → PhaseError
  write_failed : String → PhaseError

-- A task of the thread pool: an item with the context of its phase.
pub record Task : Type 0 where
  pub item : ExecutionItem
  pub context : ItemContext

-- What the orchestrator uses of its surroundings: the codec of the loop, the searches over text,
-- the clock, files (`read_text` is `none` where there is no file), `str(e)`, and the order in which
-- the pool completes the tasks that were submitted.
pub record Runtime (W : Type 0) : Type 0 where
  pub codec : Codec
  pub extract : Extractors
  pub now : W → String
  pub read_text : W → String → Option String
  pub write_text : String → String → Call W String (Unit {0})
  pub message : PhaseError → String
  pub tasks_completed : List Task → List Task
  pub items_completed : List ExecutionItem → List ExecutionItem

pub record Produced : Type 0 where
  pub output_path : String
  pub validation_status : String
  pub convergence_iterations : ℕ

-- `completed`, `failed`, `human`
pub record Counters : Type 0 where
  pub completed : ℕ
  pub failed : ℕ
  pub human : ℕ

abbrev pub no_counters : Counters
no_counters = record { completed = 0; failed = 0; human = 0 }

-- The state of a group's run: the ledger, the counters, and the tasks submitted and not yet done.
pub record GroupRun : Type 0 where
  pub ledger : ExecutionLedger
  pub tally : Counters
  pub tasks : List Task

unfoldable pub output_path : String → String → String → String
output_path initiative id phase = initiative <> "/docs/sdlc/" <> id <> "-" <> phase <> ".md"

-- `self._adapters[name]`
unfoldable pub adapter_named :
    {W : Type 0} → Dict String (Adapter W) → String → Call W PhaseError (Adapter W)
adapter_named adapters name w = elim (Dict.get adapters name) [
  | none ↦ (err (no_adapter name), w)
  | some a ↦ (ok a, w)
]

unfoldable pub phase_request : ExecutionItem → String → ItemContext → AgentRequest
phase_request item phase context = record {
  artifact_type = item.id <> "-" <> phase;
  event = post_generation;
  spec_content = context.dcf_sections;
  template_content = "";
  prompt_content = context.phase_prompt;
  upstream_artifacts =
      ("wdd_item", context.wdd_item_text)
      ∷ ("tdd", context.tdd_sections)
      ∷ ("acf", context.acf_sections)
      ∷ [];
  current_artifact = none;
  correction_constraints = [];
  metadata =
      ("item_id", item.id)
      ∷ ("phase", phase)
      ∷ ("work_group", item.work_group)
      ∷ ("human_author", "orchestrator")
      ∷ [];
  declared_inputs = [];
  temperature = none;
}

unfoldable pub phase_val_request : ExecutionItem → String → ItemContext → AgentRequest
phase_val_request item phase context = record {
  artifact_type = item.id <> "-" <> phase;
  event = post_validation;
  spec_content = context.dcf_sections;
  template_content = "";
  prompt_content = "Validate this output against the spec constraints.";
  upstream_artifacts = [];
  current_artifact = none;
  correction_constraints = [];
  metadata = ("item_id", item.id) ∷ ("phase", phase) ∷ [];
  declared_inputs = [];
  temperature = none;
}

-- `ConvergenceLoop(gen_adapter, val_adapter)`: three iterations, no lens.
abbrev pub default_loop : {W : Type 0} → Adapter W → Adapter W → ConvergenceLoop W
default_loop gen val = record { gen = gen; val = val; max = 3; lenses = [] }

module _ {W : Type 0} (rt : Runtime W) (self : WddOrchestrator W) where
  -- The loop's result written to disk.
  unfoldable pub store_output : String → String → RunResult → Call W PhaseError Produced
  store_output id phase r = do
    rethrow write_failed (rt.write_text (output_path self.initiative id phase) r.response.content)
    pure (record {
      output_path = output_path self.initiative id phase;
      validation_status = r.result.status;
      convergence_iterations = r.state.current_iteration;
    })

  unfoldable pub execute_item_phase :
      ExecutionItem → String → ItemContext → Call W PhaseError Produced
  execute_item_phase item phase context = do
    gen ←
        adapter_named self.adapters (if phase == "review" then self.review_name else self.gen_name)
    val ← adapter_named self.adapters self.val_name
    r ← rethrow loop_raised (
        run rt.codec (default_loop gen val) (phase_request item phase context)
          (phase_val_request item phase context))
    store_output item.id phase r

  -- The prior output of one phase: recorded, with a path, and on disk.
  unfoldable pub prior_output : Dict String ItemPhaseStatus → W → String → Option String
  prior_output statuses w phase = elim (Dict.get statuses phase) [
    | none ↦ none
    | some s ↦ elim s.output_path [
      | none ↦ none
      | some path ↦ if path == "" then none else rt.read_text w path
    ]
  ]

  unfoldable pub prior_outputs : Dict String ItemPhaseStatus → W → List String → Dict String String
  prior_outputs statuses w [] = []
  prior_outputs statuses w (phase ∷ rest) =
      let outputs = prior_outputs statuses w rest in
      elim (prior_output statuses w phase) [ none ↦ outputs | some text ↦ (phase, text) ∷ outputs ]

  unfoldable pub get_prior_outputs : ExecutionLedger → W → String → Dict String String
  get_prior_outputs ledger w id = prior_outputs (get_item_status ledger id) w phases

  unfoldable pub context_of : ExecutionLedger → W → ExecutionItem → String → ItemContext
  context_of ledger w item phase =
      build_context rt.extract item self.wdd_content self.tdd_content self.acf_content
        self.dcf_content (Dict.get_or self.phase_prompts phase "")
        (get_prior_outputs ledger w item.id)

  -- A phase of a human's item: started, and recorded as pending.
  unfoldable pub record_human : W → String → ExecutionLedger → String → ExecutionLedger
  record_human w id ledger phase =
      record_phase_complete id phase "pending-human" "PENDING" 0 (rt.now w)
        (record_phase_start id phase "human" (rt.now w) ledger)

  -- One round of the loop that submits the items of a phase.
  unfoldable pub submit_item : String → W → ExecutionItem → GroupRun → GroupRun
  submit_item phase w item g =
      if item.assignee_type == "Human"
      then record g {
        ledger = record_human w item.id g.ledger phase;
        tally = record g.tally {
          human = if phase == "tests" then suc g.tally.human else g.tally.human;
        };
      }
      else if is_item_phase_complete g.ledger item.id phase
      then record g {
        tally = record g.tally {
          completed = if phase == "review" then suc g.tally.completed else g.tally.completed;
        };
      }
      else record g {
        ledger = record_phase_start item.id phase self.gen_name (rt.now w) g.ledger;
        tasks = g.tasks ++ record { item = item; context = context_of g.ledger w item phase } ∷ [];
      }

  unfoldable pub submit : String → W → List ExecutionItem → GroupRun → GroupRun
  submit phase w [] g = g
  submit phase w (item ∷ items) g = submit phase w items (submit_item phase w item g)

  -- The body of `for future in as_completed(futures)`: what a finished task leaves.
  unfoldable pub settle : String → String → W → Outcome PhaseError Produced → GroupRun → GroupRun
  settle phase id w (ok r) g = record g {
    ledger =
        record_phase_complete id phase r.output_path r.validation_status r.convergence_iterations
          (rt.now w) g.ledger;
    tally = record g.tally {
      completed = if phase == "review" then suc g.tally.completed else g.tally.completed;
    };
  }
  settle phase id w (err e) g = record g {
    ledger = record_phase_failed id phase (rt.message e) (rt.now w) g.ledger;
    tally = record g.tally {
      failed = if phase == "review" then suc g.tally.failed else g.tally.failed;
    };
  }

  unfoldable pub drain : String → List Task → GroupRun → W → GroupRun × W
  drain phase [] g w = (g, w)
  drain phase (task ∷ tasks) g w =
      let (answer, w') = execute_item_phase task.item phase task.context w in
      drain phase tasks (settle phase task.item.id w' answer g) w'

  -- One phase of `_execute_group_phase_sync`.
  unfoldable pub sync_phase : List ExecutionItem → String → GroupRun → W → GroupRun × W
  sync_phase items phase g w =
      let g' = submit phase w items (record g { tasks = [] }) in
      drain phase (rt.tasks_completed g'.tasks) g' w

  unfoldable pub sync_phases : List ExecutionItem → List String → GroupRun → W → GroupRun × W
  sync_phases items [] g w = (g, w)
  sync_phases items (phase ∷ rest) g w =
      let (g', w') = sync_phase items phase g w in sync_phases items rest g' w'

  unfoldable pub execute_group_phase_sync :
      ExecutionGroup → ExecutionLedger → W → (Counters × ExecutionLedger) × W
  execute_group_phase_sync group ledger w =
      let start : GroupRun = record { ledger = ledger; tally = no_counters; tasks = [] } in
      let (g, w') = sync_phases group.items phases start w in ((g.tally, g.ledger), w')
