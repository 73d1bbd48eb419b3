-- ===== src/Orchestrator/ItemCounts.antt =====
-- src/orchestrator.py: the counters of a group that runs in mode B.
use aieos_agent_harness.Base.{◌+◌, string_eq, ◌≡◌, refl, ◌∙◌, List, [], ◌∷◌, arith}
use aieos_agent_harness.Base.Lists.{length, count_if, length-append}
use aieos_agent_harness.Base.Reorder.{length-Reordered}
use aieos_agent_harness.Adapter.{Outcome, ok, err}
use aieos_agent_harness.ExecutionLedger.{ExecutionLedger}
use aieos_agent_harness.Orchestrator.{Runtime, WddOrchestrator, Counters, no_counters, PhaseError}
use aieos_agent_harness.Orchestrator.Items.{
  Pool, submit_one, submit_all, counted, drain_items, execute_phases, execute_group_independent,
}
use aieos_agent_harness.Wdd.{ExecutionItem, ExecutionGroup, phases}
use aieos_agent_harness.Orchestrator.Counts.{humans, agents, IsFair, IsAccounted}

counted_once :
    (answer : Outcome PhaseError (Unit {0})) (t : Counters)
    → ((counted answer t).human ≡ t.human)
      × ((counted answer t).completed + (counted answer t).failed ≡ t.completed + t.failed + 1)
unfolding counted
counted_once (ok _) t = (refl, omega arith)
counted_once (err _) t = (refl, omega arith)

module _ {W : Type 0} (rt : Runtime W) (self : WddOrchestrator W) where
  module _ (fair : IsFair rt) where
    submit_all_counts :
        (w : W) (items : List ExecutionItem) (g : Pool)
        → ((submit_all rt self w items g).tally.completed ≡ g.tally.completed)
          × ((submit_all rt self w items g).tally.failed ≡ g.tally.failed)
          × ((submit_all rt self w items g).tally.human ≡ g.tally.human + humans items)
          × (length (submit_all rt self w items g).items ≡ length g.items + agents items)
    unfolding submit_all submit_one count_if
    submit_all_counts w [] g = (refl, refl, omega arith, omega arith)
    submit_all_counts w (item ∷ items) g = ground (
      arith,
      submit_all_counts w items (submit_one rt self w item g),
      length-append g.items (item ∷ []),
    )

    drain_items_counts :
        (items : List ExecutionItem) (t : Counters) (ledger : ExecutionLedger) (w : W)
        → ((drain_items rt self items t ledger w).0.0.human ≡ t.human)
          × ((drain_items rt self items t ledger w).0.0.completed
                + (drain_items rt self items t ledger w).0.0.failed
              ≡ t.completed + t.failed + length items)
    unfolding drain_items
    drain_items_counts [] t ledger w = (refl, omega arith)
    drain_items_counts (item ∷ items) t ledger w =
        let x = execute_phases rt self item phases ledger w in
        let rest = drain_items_counts items (counted x.0.0 t) x.0.1 x.1 in
        let one = counted_once x.0.0 t in (rest.0 ∙ one.0, omega (arith, rest.1, one.1))

    -- After a group in mode B, each item that is not a human's has been counted once, as completed
    -- or as failed, and each human's item once, as pending.
    pub independent-IsAccounted :
        (group : ExecutionGroup) (ledger : ExecutionLedger) (w : W)
        → IsAccounted group.items (execute_group_independent rt self group ledger w).0.0
    unfolding execute_group_independent
    independent-IsAccounted group ledger w =
        let start : Pool = record { ledger = ledger; tally = no_counters; items = [] } in
        let g = submit_all rt self w group.items start in
        let sub = submit_all_counts w group.items start in
        let done = drain_items_counts (rt.items_completed g.items) g.tally g.ledger w in
        let same = length-Reordered (fair.items g.items) in
        record { finished = omega (arith, sub, done, same); waiting = omega (arith, sub, done) }
