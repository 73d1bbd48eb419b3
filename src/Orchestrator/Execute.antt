-- ===== src/Orchestrator/Execute.antt =====
-- src/orchestrator.py: what `execute` returns.
use text.Mathlib.TextEquality.{eq_iff}
use aieos_agent_harness.Base.{
  ℕ, suc, ◌+◌, ◌≤◌, ◌<◌, String, string_eq, ◌≡◌, ◌≢◌, refl, ◌↔◌, Bool-cases, inl, inr, List, [],
  ◌∷◌, map, ◌==◌, eqb, ltb, arith,
}
use aieos_agent_harness.Base.Lists.{length, sum}
use aieos_agent_harness.ExecutionLedger.{ExecutionLedger, record_group_gate}
use aieos_agent_harness.Orchestrator.{Runtime, WddOrchestrator}
use aieos_agent_harness.Orchestrator.Counts.{
  IsFair, IsAccounted, humans-agents, phase_sync-IsAccounted,
}
use aieos_agent_harness.Orchestrator.ItemCounts.{independent-IsAccounted}
use aieos_agent_harness.Orchestrator.Groups.{
  Totals, add_tally, execute_group, execute_groups, gate_of, run_status, execute, mode_of,
}
use aieos_agent_harness.Wdd.{ExecutionGroup}

abbrev pub items_of : List ExecutionGroup → ℕ
items_of groups = sum (map (λ g. length g.items) groups)

abbrev pub all_counted : Totals → ℕ
all_counted s = s.completed + s.failed + s.human

-- From the counters `s`, over groups that are left, to the counters `s'`.
record IsTotal (groups : List ExecutionGroup) (s s' : Totals) : Type 0 where
  bounded : s'.groups ≤ s.groups + length groups
  grows : s.failed ≤ s'.failed
  stopped : s'.groups < s.groups + length groups → s.failed < s'.failed
  failing : s.failed < s'.failed → s'.groups < s.groups + length groups
  part : all_counted s' ≤ all_counted s + items_of groups
  whole : s'.groups ≡ s.groups + length groups → all_counted s' ≡ all_counted s + items_of groups

-- Every group was run exactly when no failure was counted.
unfailed_iff :
    (groups : List ExecutionGroup) (s s' : Totals)
    → IsTotal groups s s'
    → (s'.groups ≡ s.groups + length groups) ↔ (s'.failed ≡ s.failed)
unfailed_iff groups s s' t = (
  λ h. elim (Bool-cases (ltb s.failed s'.failed)) [
    | inl e ↦ absurd (let k = t.failing (ground arith) in omega (arith, k, h))
    | inr e ↦ let k = t.grows in ground arith
  ],
  λ h. elim (Bool-cases (ltb s'.groups (s.groups + length groups))) [
    | inl e ↦ absurd (let k = t.stopped (ground arith) in omega (arith, k, h))
    | inr e ↦ let k = t.bounded in ground arith
  ],
)

partial-ne : ◌≢◌ {A = String} "partial" "complete"
partial-ne e = let k = (eq_iff "partial" "complete").1 e in cc

failed-ne : ◌≢◌ {A = String} "failed" "complete"
failed-ne e = let k = (eq_iff "failed" "complete").1 e in cc

complete_iff : (m n : ℕ) → (run_status m n ≡ "complete") ↔ (m ≡ n)
unfolding run_status
complete_iff m n = elim (Bool-cases (eqb m n)) [
  | inl e ↦ rw e (λ h. ground arith, λ h. refl)
  | inr e ↦ elim (Bool-cases (ltb 0 m)) [
    | inl p ↦ rw (e, p) (λ h. absurd (partial-ne h), λ h. absurd (ground arith))
    | inr p ↦ rw (e, p) (λ h. absurd (failed-ne h), λ h. absurd (ground arith))
  ]
]

module _ {W : Type 0} (rt : Runtime W) (self : WddOrchestrator W) (fair : IsFair rt) where
  execute_group-IsAccounted :
      (group : ExecutionGroup) (l : ExecutionLedger) (w : W)
      → IsAccounted group.items (execute_group rt self group l w).0.0
  unfolding execute_group
  execute_group-IsAccounted group l w = elim (Bool-cases (mode_of group == "independent")) [
    | inl e ↦ rw e (independent-IsAccounted rt self fair group l w)
    | inr e ↦ rw e (phase_sync-IsAccounted rt self fair group l w)
  ]

  execute_group-length :
      (group : ExecutionGroup) (l : ExecutionLedger) (w : W)
      → (execute_group rt self group l w).0.0.completed
          + (execute_group rt self group l w).0.0.failed
          + (execute_group rt self group l w).0.0.human
        ≡ length group.items
  execute_group-length group l w =
      let h = execute_group-IsAccounted group l w in
      omega (arith, h.finished, h.waiting, humans-agents group.items)

  execute_groups-IsTotal :
      (groups : List ExecutionGroup) (s : Totals) (l : ExecutionLedger) (w : W)
      → IsTotal groups s (execute_groups rt self groups s l w).0.0
  unfolding execute_groups add_tally
  execute_groups-IsTotal [] s l w = record {
    bounded = omega arith;
    grows = omega arith;
    stopped = λ h. omega arith;
    failing = λ h. omega arith;
    part = omega arith;
    whole = λ h. omega arith;
  }
  execute_groups-IsTotal (group ∷ groups) s l w =
      let x = execute_group rt self group l w in
      let n = execute_group-length group l w in
      let s1 : Totals = record (add_tally x.0.0 s) { groups = suc s.groups } in
      let rest =
        execute_groups-IsTotal groups s1 (record_group_gate (gate_of group x.0.0) x.0.1) x.1 in
      elim (Bool-cases (eqb x.0.0.failed 0)) [
        | inl e ↦
            let z : x.0.0.failed ≡ 0 = ground arith in
            rw (e, execute_groups)
              (record {
                bounded = omega (arith, rest.bounded);
                grows = omega (arith, rest.grows);
                stopped = λ h. omega (arith, rest.stopped (omega arith), z);
                failing = λ h. omega (arith, rest.failing (omega arith));
                part = omega (arith, rest.part, n);
                whole = λ h. omega (arith, rest.whole (omega arith), n);
              })
        | inr e ↦
            let z : 0 < x.0.0.failed = ground arith in
            rw (e, execute_groups)
              (record {
                bounded = omega arith;
                grows = omega arith;
                stopped = λ h. omega (arith, z);
                failing = λ h. omega arith;
                part = omega (arith, n);
                whole = λ h. omega arith;
              })
      ]

  -- On a pool that completes each submitted task once: `execute` reports "complete" exactly when it
  -- has counted no failed item.
  pub execute-complete_iff :
      (l : ExecutionLedger) (w : W)
      → ((execute rt self l w).0.0.status ≡ "complete")
        ↔ ((execute rt self l w).0.0.items_failed ≡ 0)
  unfolding execute
  execute-complete_iff l w =
      let start : Totals = record { groups = 0; completed = 0; failed = 0; human = 0 } in
      let t = execute_groups-IsTotal self.plan.groups start l w in
      let s = (execute_groups rt self self.plan.groups start l w).0.0 in
      let u = unfailed_iff self.plan.groups start s t in
      let c = complete_iff s.groups (length self.plan.groups) in
      (λ h. let k = c.0 h in u.0 (omega (arith, k)), λ h. let k = u.1 h in c.1 (omega (arith, k)))

  -- On a fair pool, what `execute` counts as completed, failed and pending is never more than the
  -- items of the plan, and the gates it counts as passed never more than the groups.
  pub execute-items_total :
      (l : ExecutionLedger) (w : W)
      → ((execute rt self l w).0.0.items_completed
            + (execute rt self l w).0.0.items_failed
            + (execute rt self l w).0.0.items_human_pending
          ≤ (execute rt self l w).0.0.items_total)
        × ((execute rt self l w).0.0.groups_completed ≤ (execute rt self l w).0.0.groups_total)
  unfolding execute
  execute-items_total l w =
      let start : Totals = record { groups = 0; completed = 0; failed = 0; human = 0 } in
      let t = execute_groups-IsTotal self.plan.groups start l w in
      (omega (arith, t.part), omega (arith, t.bounded))

  -- On a fair pool, if `execute` reports "complete", then every group has passed its gate and every
  -- item of the plan is counted as completed or as a human's pending.
  pub execute_complete :
      (l : ExecutionLedger) (w : W)
      → (execute rt self l w).0.0.status ≡ "complete"
      → ((execute rt self l w).0.0.groups_completed ≡ (execute rt self l w).0.0.groups_total)
        × ((execute rt self l w).0.0.items_completed + (execute rt self l w).0.0.items_human_pending
            ≡ (execute rt self l w).0.0.items_total)
  unfolding execute
  execute_complete l w h =
      let start : Totals = record { groups = 0; completed = 0; failed = 0; human = 0 } in
      let t = execute_groups-IsTotal self.plan.groups start l w in
      let s = (execute_groups rt self self.plan.groups start l w).0.0 in
      let all_run = (complete_iff s.groups (length self.plan.groups)).0 h in
      let same : s.groups ≡ 0 + length self.plan.groups = omega (arith, all_run) in
      let n = (unfailed_iff self.plan.groups start s t).0 same in
      let k = t.whole same in (all_run, omega (arith, n, k))
