-- ===== src/Orchestrator/Tests.antt =====
-- A plan of two items, an agent's and a human's, over a provider that always passes.
use mathlib.Core.List.Permᴰ as Reorder
use aieos_agent_harness.Base.{
  ℕ, ◌+◌, String, string_eq, ◌≡◌, refl, ap, ◌↔◌, true, false, none, some, List, [], ◌∷◌, ◌==◌, map,
}
use aieos_agent_harness.Base.Dict
use aieos_agent_harness.Base.Lists.{keep, contains}
use aieos_agent_harness.Adapter.{ok, Adapter}
use aieos_agent_harness.Convergence.{
  Codec, run, start_run, iterations, iterate, validate, conclude, decide, judged,
  parse_validation_result, judge_request, provenance_of, proceed,
}
use aieos_agent_harness.ExecutionLedger.{ExecutionLedger, is_group_complete}
use aieos_agent_harness.Orchestrator.{
  Runtime, WddOrchestrator, GroupRun, no_counters, execute_group_phase_sync, execute_item_phase,
  adapter_named, store_output, record_human, Counters,
}
use aieos_agent_harness.Orchestrator.Counts.{IsFair, IsAccounted, phase_sync-IsAccounted}
use aieos_agent_harness.Orchestrator.Complete.{independent_complete}
use aieos_agent_harness.Orchestrator.Execute.{execute-complete_iff}
use aieos_agent_harness.Orchestrator.Groups.{
  execute, execute_groups, execute_group, mode_of, check_file_overlap, overlaps_with, shared_files,
  add_tally, run_status,
}
use aieos_agent_harness.Orchestrator.Items.{
  execute_group_independent, drain_items, submit_all, submit_one, execute_phases, counted,
  record_human_phases,
}
use aieos_agent_harness.Orchestrator.Modes.{ArePairwise, mode_of-Pairwise}
use aieos_agent_harness.Wdd.{ExecutionItem, ExecutionGroup}

abbrev item : String → String → List String → ExecutionItem
item id assignee files = record {
  id = id;
  title = "";
  description = "";
  assignee_type = assignee;
  acceptance_criteria = [];
  complexity = "S";
  dependencies = [];
  work_group = "core";
  parallel_safe = true;
  files_touched = files;
}

abbrev core : ExecutionGroup
core = record {
  name = "core";
  items = item "A" "AI" ("a.py" ∷ []) ∷ item "B" "Human" ("b.py" ∷ []) ∷ [];
  mode = "independent";
  dependencies = [];
}

abbrev answering : Adapter ℕ
answering = record {
  provider_name = "p";
  model_name = "m";
  invoke = λ q w. (
    ok (record {
      content = "PASS";
      provider = "p";
      model = "m";
      tokens_in = 1;
      tokens_out = 2;
      cost_usd = 3;
      latency_ms = 4;
      truncated = none;
    }),
    w + 1,
  );
  cost_estimate = λ q. 0;
}

abbrev codec : Codec
codec = record {
  sha256 = λ s. s;
  find_json = λ s. some (record {
    status = some s;
    summary = some "";
    hard_gates = some (("structure", s) ∷ []);
    blocking_issues = some [];
    warnings = none;
    completeness_score = some 90;
  });
}

abbrev rt : Runtime ℕ
rt = record {
  codec = codec;
  extract = record { wdd_item_section = λ id wdd. wdd; tdd_sections = λ i tdd. tdd };
  now = λ w. "now";
  read_text = λ w path. none;
  write_text = λ path text w. (ok tt, w);
  message = λ e. "error";
  tasks_completed = λ ts. ts;
  items_completed = λ is. is;
}

abbrev self : WddOrchestrator ℕ
self = record {
  plan = record {
    wdd_id = "WDD-1";
    initiative = "i";
    groups = core ∷ [];
    baseline_tests = 0;
    baseline_build_clean = true;
  };
  initiative = "i";
  adapters = ("default", answering) ∷ [];
  wdd_content = "";
  tdd_content = "";
  acf_content = "";
  dcf_content = "";
  phase_prompts = [];
  gen_name = "default";
  val_name = "default";
  review_name = "default";
  ledger_path = "ledger.md";
}

abbrev blank : ExecutionLedger
blank = record { phases = []; gates = [] }

rt-IsFair : IsFair rt
rt-IsFair = record { tasks = Reorder.refl; items = Reorder.refl }

abbrev start : GroupRun
start = record { ledger = blank; tally = no_counters; tasks = [] }

code_ne : ◌==◌ {A = String} "code" "review" ≡ false
unfolding string_eq
code_ne = refl

phase_sync-IsAccounted_example :
    IsAccounted core.items (execute_group_phase_sync rt self core blank 0).0.0
phase_sync-IsAccounted_example = phase_sync-IsAccounted rt self rt-IsFair core blank 0

execute-complete_iff_example :
    ((execute rt self blank 0).0.0.status ≡ "complete")
    ↔ ((execute rt self blank 0).0.0.items_failed ≡ 0)
execute-complete_iff_example = execute-complete_iff rt self rt-IsFair blank 0

core_mode : mode_of core ≡ "independent"
unfolding mode_of check_file_overlap overlaps_with shared_files string_eq keep contains
core_mode = refl

mode_of-Pairwise_example : ArePairwise core.items
mode_of-Pairwise_example = mode_of-Pairwise core core_mode

core_run :
    (execute_group_independent rt self core blank 0).0.0
    ≡ record { completed = 1; failed = 0; human = 1 }
unfolding execute_group_independent drain_items submit_all submit_one execute_phases counted
    record_human_phases execute_item_phase adapter_named store_output record_human run start_run
    iterations iterate validate conclude decide judged parse_validation_result judge_request
    provenance_of proceed string_eq Dict.get_or Dict.get
core_run = refl

independent_complete_example :
    is_group_complete
      (execute_group_independent rt self core blank 0).0.1
      (map (λ i. i.id) core.items)
    ≡ true
independent_complete_example =
    independent_complete rt self rt-IsFair core blank 0 (ap (λ (t : Counters). t.failed) core_run)

whole_run : (execute rt self blank 0).0.0.status ≡ "complete"
unfolding execute execute_groups execute_group run_status add_tally mode_of check_file_overlap
    overlaps_with shared_files keep contains execute_group_independent drain_items submit_all
    submit_one execute_phases counted record_human_phases execute_item_phase adapter_named
    store_output record_human run start_run iterations iterate validate conclude decide judged
    parse_validation_result judge_request provenance_of proceed string_eq Dict.get_or Dict.get
whole_run = refl
