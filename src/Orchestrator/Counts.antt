-- ===== src/Orchestrator/Counts.antt =====
-- src/orchestrator.py: the counters of a group's run account for every item.
use aieos_agent_harness.Base.{
  ℕ, ◌+◌, String, string_eq, ◌≡◌, refl, ◌∙◌, Bool, true, false, not, List, [], ◌∷◌, ◌==◌, arith,
}
use aieos_agent_harness.Base.Lists.{length, count_if, length-append}
use aieos_agent_harness.Base.Reorder.{Reordered, length-Reordered}
use aieos_agent_harness.Adapter.{Outcome, ok, err}
use aieos_agent_harness.ExecutionLedger.{ExecutionLedger}
use aieos_agent_harness.Orchestrator.{
  Runtime, WddOrchestrator, Task, Counters, no_counters, GroupRun, Produced, PhaseError,
  submit_item, submit, settle, drain, sync_phase, sync_phases, execute_group_phase_sync,
  execute_item_phase, context_of,
}
use aieos_agent_harness.Wdd.{ExecutionItem, ExecutionGroup}

abbrev pub is_human : ExecutionItem → Bool
is_human item = item.assignee_type == "Human"

abbrev pub humans : List ExecutionItem → ℕ
humans = count_if is_human

abbrev pub agents : List ExecutionItem → ℕ
agents = count_if (λ i. not (is_human i))

pub humans-agents : (items : List ExecutionItem) → humans items + agents items ≡ length items
unfolding count_if
humans-agents [] = omega arith
humans-agents (i ∷ is) = ground (arith, humans-agents is)

-- `as_completed` yields each task that was submitted, once.
pub record IsFair {W : Type 0} (rt : Runtime W) : Type 0 where
  pub tasks : (ts : List Task) → Reordered (rt.tasks_completed ts) ts
  pub items : (is : List ExecutionItem) → Reordered (rt.items_completed is) is

-- Every item of the group is counted, once.
pub record IsAccounted (items : List ExecutionItem) (t : Counters) : Type 0 where
  pub finished : t.completed + t.failed ≡ agents items
  pub waiting : t.human ≡ humans items

module _ {W : Type 0} (rt : Runtime W) (self : WddOrchestrator W) where
  -- What the loop that submits does to the counters, in the review and in the other phases.
  record IsSubmitted (phase : String) (items : List ExecutionItem) (g g' : GroupRun) : Type 0 where
    failed : g'.tally.failed ≡ g.tally.failed
    tested : (phase == "tests") ≡ true → g'.tally.human ≡ g.tally.human + humans items
    untested : (phase == "tests") ≡ false → g'.tally.human ≡ g.tally.human
    reviewed :
        (phase == "review") ≡ true
        → g'.tally.completed + length g'.tasks ≡ g.tally.completed + length g.tasks + agents items
    unreviewed : (phase == "review") ≡ false → g'.tally.completed ≡ g.tally.completed

  submit_item-IsSubmitted :
      (phase : String) (w : W) (item : ExecutionItem) (g : GroupRun)
      → IsSubmitted phase (item ∷ []) g (submit_item rt self phase w item g)
  unfolding submit_item count_if
  submit_item-IsSubmitted phase w item g = record {
    failed = ground arith;
    tested = λ e. ground arith;
    untested = λ e. ground arith;
    reviewed = λ e.
        let one : Task = record {
          item = item;
          context = context_of rt self g.ledger w item phase;
        } in
        ground (arith, length-append g.tasks (one ∷ []));
    unreviewed = λ e. ground arith;
  }

  submit-IsSubmitted :
      (phase : String) (w : W) (items : List ExecutionItem) (g : GroupRun)
      → IsSubmitted phase items g (submit rt self phase w items g)
  unfolding submit count_if
  submit-IsSubmitted phase w [] g = record {
    failed = refl;
    tested = λ e. omega arith;
    untested = λ e. refl;
    reviewed = λ e. omega arith;
    unreviewed = λ e. refl;
  }
  submit-IsSubmitted phase w (item ∷ items) g =
      let one = submit_item-IsSubmitted phase w item g in
      let rest = submit-IsSubmitted phase w items (submit_item rt self phase w item g) in
      record {
        failed = rest.failed ∙ one.failed;
        tested = λ e. ground (arith, rest.tested e, one.tested e);
        untested = λ e. rest.untested e ∙ one.untested e;
        reviewed = λ e. ground (arith, rest.reviewed e, one.reviewed e);
        unreviewed = λ e. rest.unreviewed e ∙ one.unreviewed e;
      }

  record IsDrained (phase : String) (n : ℕ) (t t' : Counters) : Type 0 where
    human : t'.human ≡ t.human
    reviewed : (phase == "review") ≡ true → t'.completed + t'.failed ≡ t.completed + t.failed + n
    unreviewed : (phase == "review") ≡ false → (t'.completed ≡ t.completed) × (t'.failed ≡ t.failed)

  settle-IsDrained :
      (phase id : String) (w : W) (answer : Outcome PhaseError Produced) (g : GroupRun)
      → IsDrained phase 1 g.tally (settle rt self phase id w answer g).tally
  unfolding settle
  settle-IsDrained phase id w (ok r) g = record {
    human = refl;
    reviewed = λ e. ground arith;
    unreviewed = λ e. ground arith;
  }
  settle-IsDrained phase id w (err r) g = record {
    human = refl;
    reviewed = λ e. ground arith;
    unreviewed = λ e. ground arith;
  }

  drain-IsDrained :
      (phase : String) (tasks : List Task) (g : GroupRun) (w : W)
      → IsDrained phase (length tasks) g.tally (drain rt self phase tasks g w).0.tally
  unfolding drain
  drain-IsDrained phase [] g w = record {
    human = refl;
    reviewed = λ e. omega arith;
    unreviewed = λ e. (refl, refl);
  }
  drain-IsDrained phase (task ∷ tasks) g w =
      let x = execute_item_phase rt self task.item phase task.context w in
      let g' = settle rt self phase task.item.id x.1 x.0 g in
      let one = settle-IsDrained phase task.item.id x.1 x.0 g in
      let rest = drain-IsDrained phase tasks g' x.1 in
      record {
        human = rest.human ∙ one.human;
        reviewed = λ e. omega (arith, rest.reviewed e, one.reviewed e);
        unreviewed = λ e. (
          (rest.unreviewed e).0 ∙ (one.unreviewed e).0,
          (rest.unreviewed e).1 ∙ (one.unreviewed e).1,
        );
      }

  module _ (fair : IsFair rt) where
    -- What one phase does to the counters.
    record IsPhased (phase : String) (items : List ExecutionItem) (t t' : Counters) : Type 0 where
      tested : (phase == "tests") ≡ true → t'.human ≡ t.human + humans items
      untested : (phase == "tests") ≡ false → t'.human ≡ t.human
      reviewed :
          (phase == "review") ≡ true
          → t'.completed + t'.failed ≡ t.completed + t.failed + agents items
      unreviewed :
          (phase == "review") ≡ false → (t'.completed ≡ t.completed) × (t'.failed ≡ t.failed)

    sync_phase-IsPhased :
        (items : List ExecutionItem) (phase : String) (g : GroupRun) (w : W)
        → IsPhased phase items g.tally (sync_phase rt self items phase g w).0.tally
    unfolding sync_phase
    sync_phase-IsPhased items phase g w =
        let start : GroupRun = record g { tasks = [] } in
        let g' = submit rt self phase w items start in
        let sub = submit-IsSubmitted phase w items start in
        let done = drain-IsDrained phase (rt.tasks_completed g'.tasks) g' w in
        let same = length-Reordered (fair.tasks g'.tasks) in
        record {
          tested = λ e. done.human ∙ sub.tested e;
          untested = λ e. done.human ∙ sub.untested e;
          reviewed = λ e. omega (arith, done.reviewed e, sub.reviewed e, sub.failed, same);
          unreviewed =
              λ e. ((done.unreviewed e).0 ∙ sub.unreviewed e, (done.unreviewed e).1 ∙ sub.failed);
        }

    -- Where each task that is submitted completes once, in whatever order: after the four phases of a
    -- group in mode A, each item that is not a human's has been counted once, as completed or as
    -- failed, and each human's item once, as pending.
    pub phase_sync-IsAccounted :
        (group : ExecutionGroup) (ledger : ExecutionLedger) (w : W)
        → IsAccounted group.items (execute_group_phase_sync rt self group ledger w).0.0
    unfolding execute_group_phase_sync sync_phases string_eq
    phase_sync-IsAccounted group ledger w =
        let start : GroupRun = record { ledger = ledger; tally = no_counters; tasks = [] } in
        let r1 = sync_phase rt self group.items "tests" start w in
        let r2 = sync_phase rt self group.items "plan" r1.0 r1.1 in
        let r3 = sync_phase rt self group.items "code" r2.0 r2.1 in
        let p1 = sync_phase-IsPhased group.items "tests" start w in
        let p2 = sync_phase-IsPhased group.items "plan" r1.0 r1.1 in
        let p3 = sync_phase-IsPhased group.items "code" r2.0 r2.1 in
        let p4 = sync_phase-IsPhased group.items "review" r3.0 r3.1 in
        record {
          finished =
              omega (
                arith,
                p1.unreviewed refl,
                p2.unreviewed refl,
                p3.unreviewed refl,
                p4.reviewed refl,
              );
          waiting =
              omega (arith, p1.tested refl, p2.untested refl, p3.untested refl, p4.untested refl);
        }
