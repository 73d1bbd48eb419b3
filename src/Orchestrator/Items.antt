-- ===== src/Orchestrator/Items.antt =====
-- src/orchestrator.py: mode B, `_execute_group_independent`, where each item runs its four phases.
use aieos_agent_harness.Base.{suc, String, string_eq, List, [], ◌∷◌, ◌++◌, ◌==◌, if◌then◌else◌}
use aieos_agent_harness.Adapter.{Outcome, ok, err}
use aieos_agent_harness.ExecutionLedger.{ExecutionLedger, record_phase_start, record_phase_complete}
use aieos_agent_harness.Orchestrator.{
  Runtime, WddOrchestrator, PhaseError, Counters, no_counters, execute_item_phase, context_of,
  record_human,
}
use aieos_agent_harness.Wdd.{ExecutionItem, ExecutionGroup, phases}

-- The state of the pool: the ledger, the counters, and the items submitted.
pub record Pool : Type 0 where
  pub ledger : ExecutionLedger
  pub tally : Counters
  pub items : List ExecutionItem

unfoldable pub counted : Outcome PhaseError (Unit {0}) → Counters → Counters
counted (ok _) t = record t { completed = suc t.completed }
counted (err _) t = record t { failed = suc t.failed }

module _ {W : Type 0} (rt : Runtime W) (self : WddOrchestrator W) where
  -- `_execute_item_all_phases`. An exception leaves the ledger as it stands.
  unfoldable pub execute_phases :
      ExecutionItem
      → List String
      → ExecutionLedger
      → W
      → (Outcome PhaseError (Unit {0}) × ExecutionLedger) × W
  execute_phases item [] ledger w = ((ok tt, ledger), w)
  execute_phases item (phase ∷ rest) ledger w =
      let context = context_of rt self ledger w item phase in
      let started = record_phase_start item.id phase self.gen_name (rt.now w) ledger in
      let (answer, w') = execute_item_phase rt self item phase context w in
      elim answer [
        | err e ↦ ((err e, started), w')
        | ok r ↦
            execute_phases item rest
              (record_phase_complete item.id phase r.output_path r.validation_status
                r.convergence_iterations (rt.now w') started)
              w'
      ]

  unfoldable pub record_human_phases : W → String → List String → ExecutionLedger → ExecutionLedger
  record_human_phases w id [] ledger = ledger
  record_human_phases w id (phase ∷ rest) ledger =
      record_human_phases w id rest (record_human rt self w id ledger phase)

  -- One round of the loop that submits the items.
  unfoldable pub submit_one : W → ExecutionItem → Pool → Pool
  submit_one w item g =
      if item.assignee_type == "Human"
      then record g {
        ledger = record_human_phases w item.id phases g.ledger;
        tally = record g.tally { human = suc g.tally.human };
      }
      else record g { items = g.items ++ item ∷ [] }

  unfoldable pub submit_all : W → List ExecutionItem → Pool → Pool
  submit_all w [] g = g
  submit_all w (item ∷ items) g = submit_all w items (submit_one w item g)

  unfoldable pub drain_items :
      List ExecutionItem → Counters → ExecutionLedger → W → (Counters × ExecutionLedger) × W
  drain_items [] t ledger w = ((t, ledger), w)
  drain_items (item ∷ items) t ledger w =
      let ((answer, ledger'), w') = execute_phases item phases ledger w in
      drain_items items (counted answer t) ledger' w'

  unfoldable pub execute_group_independent :
      ExecutionGroup → ExecutionLedger → W → (Counters × ExecutionLedger) × W
  execute_group_independent group ledger w =
      let g =
        submit_all w group.items (record { ledger = ledger; tally = no_counters; items = [] }) in
      drain_items (rt.items_completed g.items) g.tally g.ledger w
