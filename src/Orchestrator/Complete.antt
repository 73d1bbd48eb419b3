-- ===== src/Orchestrator/Complete.antt =====
-- src/orchestrator.py: what the ledger says of a group that mode B has run without a failure.
use mathlib.Core.List.{append-nil, append_assoc}
use aieos_agent_harness.Base.{
  sym, ap, ℕ, suc, ◌≤◌, String, string_eq, ◌≡◌, refl, ◌∙◌, Bool, true, not, ◌||◌, Bool-cases, inl,
  inr, List, [], ◌∷◌, ◌++◌, arith, map,
}
use aieos_agent_harness.Base.Lists.{all, keep, all_mono}
use aieos_agent_harness.Base.Reorder.{all-Reordered}
use aieos_agent_harness.Adapter.{Outcome, ok, err, Outcome-cases}
use aieos_agent_harness.ExecutionLedger.{
  ExecutionLedger, is_item_phase_complete, is_group_complete, record_phase_start,
  record_phase_complete,
}
use aieos_agent_harness.ExecutionLedger.Replay.{complete_after_start}
use aieos_agent_harness.Orchestrator.{
  Runtime, WddOrchestrator, PhaseError, Counters, no_counters, execute_item_phase, context_of,
  record_human,
}
use aieos_agent_harness.Orchestrator.Counts.{is_human, IsFair}
use aieos_agent_harness.Orchestrator.Items.{
  Pool, submit_one, submit_all, counted, drain_items, execute_phases, execute_group_independent,
  record_human_phases,
}
use aieos_agent_harness.Wdd.{ExecutionItem, ExecutionGroup, phases}

-- What had passed before has passed after.
abbrev IsKept : ExecutionLedger → ExecutionLedger → Type 0
IsKept l l' =
    (j q : String) → is_item_phase_complete l j q ≡ true → is_item_phase_complete l' j q ≡ true

abbrev has_passed : ExecutionLedger → List String → String → Bool
has_passed l ps id = all (is_item_phase_complete l id) ps

abbrev is_done : ExecutionLedger → ExecutionItem → Bool
is_done l item = has_passed l phases item.id

done_kept :
    (l l' : ExecutionLedger) (items : List ExecutionItem)
    → IsKept l l'
    → all (is_done l) items ≡ true
    → all (is_done l') items ≡ true
done_kept l l' items k =
    all_mono (is_done l) (is_done l') items (λ i.
      all_mono (is_item_phase_complete l i.id) (is_item_phase_complete l' i.id) phases (k i.id))

counted_ok :
    (answer : Outcome PhaseError (Unit {0})) (a : Unit {0}) (t : Counters)
    → answer ≡ ok a
    → (counted answer t).failed ≡ t.failed
unfolding counted
counted_ok answer a t e = rw e refl

counted_err :
    (answer : Outcome PhaseError (Unit {0})) (b : PhaseError) (t : Counters)
    → answer ≡ err b
    → (counted answer t).failed ≡ suc t.failed
unfolding counted
counted_err answer b t e = rw e refl

merge_done :
    (l : ExecutionLedger) (items : List ExecutionItem)
    → all (is_done l) (keep (λ i. not (is_human i)) items) ≡ true
    → all (λ i. not (is_human i) || is_done l i) items ≡ true
    → is_group_complete l (map (λ i. i.id) items) ≡ true
unfolding keep all is_group_complete
merge_done l [] h k = refl
merge_done l (i ∷ is) h k = ground (arith, merge_done l is)

-- A ledger in which the phases `ps` of one item have passed, and all that had passed before.
record HasAdvanced (ps : List String) (id : String) (l l' : ExecutionLedger) : Type 0 where
  kept : IsKept l l'
  passed : has_passed l' ps id ≡ true

module _ {W : Type 0} (rt : Runtime W) (self : WddOrchestrator W) where
  phase-HasAdvanced :
      (phase id agent now path v : String) (n : ℕ) (later : String) (ps : List String)
      (l l' : ExecutionLedger)
      → HasAdvanced ps id
          (record_phase_complete id phase path v n later (record_phase_start id phase agent now l))
          l'
      → HasAdvanced (phase ∷ ps) id l l'
  unfolding all
  phase-HasAdvanced phase id agent now path v n later ps l l' h =
      let both = complete_after_start id phase agent now path v n later l in
      let first : is_item_phase_complete l' id phase ≡ true =
        h.kept id phase (ground (arith, both id phase)) in
      record {
        kept = λ j q e. h.kept j q (ground (arith, both j q));
        passed = ground (arith, h.passed);
      }

  execute_phases-HasAdvanced :
      (item : ExecutionItem) (ps : List String) (l : ExecutionLedger) (w : W)
      → (execute_phases rt self item ps l w).0.0 ≡ ok tt
      → HasAdvanced ps item.id l (execute_phases rt self item ps l w).0.1
  unfolding execute_phases all
  execute_phases-HasAdvanced item [] l w h = record { kept = λ j q e. e; passed = refl }
  execute_phases-HasAdvanced item (phase ∷ ps) l w h =
      let x = execute_item_phase rt self item phase (context_of rt self l w item phase) w in
      elim (Outcome-cases x.0) [
        | inl (r, e) ↦
            let l2 =
              record_phase_complete item.id phase r.output_path r.validation_status
                r.convergence_iterations (rt.now x.1)
                (record_phase_start item.id phase self.gen_name (rt.now w) l) in
            rw (e, execute_phases)
              (phase-HasAdvanced phase item.id _ _ _ _ _ _ ps l _
                (execute_phases-HasAdvanced item ps l2 x.1 (rw (e, execute_phases) at h)))
        | inr (b, e) ↦ absurd (ground (arith, e, h))
      ]

  human-HasAdvanced :
      (w : W) (id : String) (ps : List String) (l : ExecutionLedger)
      → HasAdvanced ps id l (record_human_phases rt self w id ps l)
  unfolding record_human_phases record_human all
  human-HasAdvanced w id [] l = record { kept = λ j q e. e; passed = refl }
  human-HasAdvanced w id (phase ∷ ps) l =
      phase-HasAdvanced phase id _ _ _ _ _ _ ps l _ (human-HasAdvanced w id ps _)

  record IsSubmitted (items : List ExecutionItem) (g g' : Pool) : Type 0 where
    kept : IsKept g.ledger g'.ledger
    tasks : g'.items ≡ g.items ++ keep (λ i. not (is_human i)) items
    humans : all (λ i. not (is_human i) || is_done g'.ledger i) items ≡ true

  submit_one-IsSubmitted :
      (w : W) (item : ExecutionItem) (g : Pool)
      → IsSubmitted (item ∷ []) g (submit_one rt self w item g)
  unfolding submit_one keep all
  submit_one-IsSubmitted w item g =
      let human = human-HasAdvanced w item.id phases g.ledger in
      elim (Bool-cases (is_human item)) [
        | inl e ↦ rw e (record {
          kept = human.kept;
          tasks = ground (arith, e, append-nil g.items);
          humans = ground (arith, human.passed, e);
        })
        | inr e ↦
            rw e
              (record { kept = λ j q p. p; tasks = ground (arith, e); humans = ground (arith, e) })
      ]

  IsSubmitted-trans :
      (item : ExecutionItem) (items : List ExecutionItem) (g g1 g2 : Pool)
      → IsSubmitted (item ∷ []) g g1
      → IsSubmitted items g1 g2
      → IsSubmitted (item ∷ items) g g2
  unfolding keep all
  IsSubmitted-trans item items g g1 g2 one rest =
      let later : is_done g1.ledger item ≡ true → is_done g2.ledger item ≡ true =
        all_mono (is_item_phase_complete g1.ledger item.id)
          (is_item_phase_complete g2.ledger item.id) phases (rest.kept item.id) in
      record {
        kept = λ j q p. rest.kept j q (one.kept j q p);
        tasks = elim (Bool-cases (is_human item)) [
          | inl e ↦ rw (rest.tasks, one.tasks, e, append-nil g.items) refl
          | inr e ↦ rw (rest.tasks, one.tasks, e, append_assoc g.items (item ∷ [])) refl
        ];
        humans = ground (arith, one.humans, rest.humans, later);
      }

  submit_all-IsSubmitted :
      (w : W) (items : List ExecutionItem) (g : Pool)
      → IsSubmitted items g (submit_all rt self w items g)
  unfolding submit_all keep all
  submit_all-IsSubmitted w [] g = record {
    kept = λ j q e. e;
    tasks = sym (append-nil g.items);
    humans = refl;
  }
  submit_all-IsSubmitted w (item ∷ items) g =
      IsSubmitted-trans item items g _ _ (submit_one-IsSubmitted w item g)
        (submit_all-IsSubmitted w items (submit_one rt self w item g))

  submit_all-failed :
      (w : W) (items : List ExecutionItem) (g : Pool)
      → (submit_all rt self w items g).tally.failed ≡ g.tally.failed
  unfolding submit_all submit_one
  submit_all-failed w [] g = refl
  submit_all-failed w (item ∷ items) g =
      ground (arith, submit_all-failed w items (submit_one rt self w item g))

  drain_items-failed :
      (items : List ExecutionItem) (t : Counters) (l : ExecutionLedger) (w : W)
      → t.failed ≤ (drain_items rt self items t l w).0.0.failed
  unfolding drain_items counted
  drain_items-failed [] t l w = omega arith
  drain_items-failed (item ∷ items) t l w =
      let x = execute_phases rt self item phases l w in
      let rest = drain_items-failed items (counted x.0.0 t) x.0.1 x.1 in
      elim (Outcome-cases x.0.0) [
        | inl (a, e) ↦ omega (arith, rest, counted_ok x.0.0 a t e)
        | inr (b, e) ↦ omega (arith, rest, counted_err x.0.0 b t e)
      ]

  drain_items-Kept :
      (items : List ExecutionItem) (t : Counters) (l : ExecutionLedger) (w : W)
      → (drain_items rt self items t l w).0.0.failed ≡ t.failed
      → IsKept l (drain_items rt self items t l w).0.1
        × (all (is_done (drain_items rt self items t l w).0.1) items ≡ true)
  unfolding drain_items all
  drain_items-Kept [] t l w h = (λ j q e. e, refl)
  drain_items-Kept (item ∷ items) t l w h =
      let x = execute_phases rt self item phases l w in
      let more = drain_items-failed items (counted x.0.0 t) x.0.1 x.1 in
      elim (Outcome-cases x.0.0) [
        | inl (tt, e) ↦
            let one = execute_phases-HasAdvanced item phases l w e in
            let rest =
              drain_items-Kept items (counted x.0.0 t) x.0.1 x.1
                (h ∙ sym (counted_ok x.0.0 tt t e)) in
            let end = (drain_items rt self items (counted x.0.0 t) x.0.1 x.1).0.1 in
            let done : is_done end item ≡ true =
              all_mono (is_item_phase_complete x.0.1 item.id) (is_item_phase_complete end item.id)
                phases (rest.0 item.id) one.passed in
            (λ j q p. rest.0 j q (one.kept j q p), ground (arith, done, rest.1))
        | inr (b, e) ↦ absurd (omega (arith, h, more, counted_err x.0.0 b t e))
      ]

  -- If a group that runs in mode B, on a fair pool, ends with no failure counted, then the ledger
  -- says that every item of the group, humans' items included, has passed all four phases.
  pub independent_complete :
      (fair : IsFair rt) (group : ExecutionGroup) (l : ExecutionLedger) (w : W)
      → (execute_group_independent rt self group l w).0.0.failed ≡ 0
      → is_group_complete
          (execute_group_independent rt self group l w).0.1
          (map (λ i. i.id) group.items)
        ≡ true
  unfolding execute_group_independent
  independent_complete fair group l w h =
      let start : Pool = record { ledger = l; tally = no_counters; items = [] } in
      let g = submit_all rt self w group.items start in
      let sub = submit_all-IsSubmitted w group.items start in
      let none_failed = submit_all-failed w group.items start in
      let drained =
        drain_items-Kept (rt.items_completed g.items) g.tally g.ledger w (h ∙ sym none_failed) in
      let end = (drain_items rt self (rt.items_completed g.items) g.tally g.ledger w).0.1 in
      let agents_done : all (is_done end) (keep (λ i. not (is_human i)) group.items) ≡ true =
        ap (all (is_done end)) (sym sub.tasks)
        ∙ sym (all-Reordered (is_done end) (fair.items g.items))
        ∙ drained.1 in
      let humans_done =
        all_mono (λ i. not (is_human i) || is_done g.ledger i)
          (λ i. not (is_human i) || is_done end i) group.items
          (λ i. elim (Bool-cases (is_human i)) [
            | inl e ↦ rw e (
                all_mono (is_item_phase_complete g.ledger i.id) (is_item_phase_complete end i.id)
                  phases (drained.0 i.id))
            | inr e ↦ rw e (λ p. p)
          ])
          sub.humans in
      merge_done end group.items agents_done humans_done
