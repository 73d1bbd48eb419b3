-- ===== src/Orchestrator/Groups.antt =====
-- src/orchestrator.py: `execute` and `_check_file_overlap`, the groups one after the other.
use aieos_agent_harness.Base.{
  ℕ, suc, ◌+◌, String, string_eq, true, false, not, List, [], ◌∷◌, ◌++◌, map, ◌==◌, eqb, ltb,
  if◌then◌else◌,
}
use aieos_agent_harness.Base.Integer.{pos}
use aieos_agent_harness.Base.Lists.{length, keep, contains, sum}
use aieos_agent_harness.ExecutionLedger.{ExecutionLedger, GroupGateResult, record_group_gate}
use aieos_agent_harness.Orchestrator.{
  Runtime, WddOrchestrator, ExecutionResult, Counters, execute_group_phase_sync,
}
use aieos_agent_harness.Orchestrator.Items.{execute_group_independent}
use aieos_agent_harness.Wdd.{ExecutionItem, ExecutionGroup}

-- `set(a.files_touched) & set(b.files_touched)`
unfoldable pub shared_files : ExecutionItem → ExecutionItem → List String
shared_files a b = keep (contains b.files_touched) a.files_touched

-- The inner loop, over the items behind `a`.
unfoldable pub overlaps_with :
    ExecutionItem → List ExecutionItem → List (String × String × List String)
overlaps_with a [] = []
overlaps_with a (b ∷ rest) =
    let found = overlaps_with a rest in
    elim (shared_files a b) [ [] ↦ found | f ∷ fs ↦ (a.id, b.id, f ∷ fs) ∷ found ]

unfoldable pub check_file_overlap : List ExecutionItem → List (String × String × List String)
check_file_overlap [] = []
check_file_overlap (a ∷ rest) = overlaps_with a rest ++ check_file_overlap rest

-- The mode that a group runs in: an overlap forces `phase_sync`.
unfoldable pub mode_of : ExecutionGroup → String
mode_of group = elim (check_file_overlap group.items) [ [] ↦ group.mode | _ ∷ _ ↦ "phase_sync" ]

-- The work group gate.
unfoldable pub gate_of : ExecutionGroup → Counters → GroupGateResult
gate_of group t = record {
  group_name = group.name;
  status = if eqb t.failed 0 then "passed" else "failed";
  tests_before = 0;
  tests_after = 0;
  tests_delta = pos 0;
  lint_clean = true;
  items_completed = t.completed;
  items_total = length (keep (λ i. not (i.assignee_type == "Human")) group.items);
  gate_file_path = "";
}

-- The counters of `execute`.
pub record Totals : Type 0 where
  pub groups : ℕ
  pub completed : ℕ
  pub failed : ℕ
  pub human : ℕ

unfoldable pub add_tally : Counters → Totals → Totals
add_tally t s = record s {
  completed = s.completed + t.completed;
  failed = s.failed + t.failed;
  human = s.human + t.human;
}

-- The status of a run in which `done` groups of `total` have passed.
unfoldable pub run_status : (done total : ℕ) → String
run_status done total =
    if eqb done total then "complete" else if ltb 0 done then "partial" else "failed"

module _ {W : Type 0} (rt : Runtime W) (self : WddOrchestrator W) where
  unfoldable pub execute_group :
      ExecutionGroup → ExecutionLedger → W → (Counters × ExecutionLedger) × W
  execute_group group ledger w =
      if mode_of group == "independent"
      then execute_group_independent rt self group ledger w
      else execute_group_phase_sync rt self group ledger w

  -- The `for` over the groups: a failed gate ends it.
  unfoldable pub execute_groups :
      List ExecutionGroup → Totals → ExecutionLedger → W → (Totals × ExecutionLedger) × W
  execute_groups [] s ledger w = ((s, ledger), w)
  execute_groups (group ∷ groups) s ledger w =
      let ((t, ledger'), w') = execute_group group ledger w in
      let s' = add_tally t s in
      let gated = record_group_gate (gate_of group t) ledger' in
      elim (eqb t.failed 0) [
        | true ↦ execute_groups groups (record s' { groups = suc s'.groups }) gated w'
        | false ↦ ((s', gated), w')
      ]

  unfoldable pub execute : ExecutionLedger → W → (ExecutionResult × ExecutionLedger) × W
  execute ledger w =
      let groups = self.plan.groups in
      let start : Totals = record { groups = 0; completed = 0; failed = 0; human = 0 } in
      let ((s, ledger'), w') = execute_groups groups start ledger w in
      (
        (
          record {
            status = run_status s.groups (length groups);
            groups_completed = s.groups;
            groups_total = length groups;
            items_completed = s.completed;
            items_total = sum (map (λ g. length g.items) groups);
            items_failed = s.failed;
            items_human_pending = s.human;
            ledger_path = self.ledger_path;
          },
          ledger',
        ),
        w',
      )
