-- ===== src/Wdd/Overlay.antt =====
-- src/wdd_parser.py: `_overlay_execution_plan`, and `parse_wdd_for_execution` on the texts of its files.
use Prim.Native.String.{String}
use aieos_agent_harness.Base.{
  ℕ, string_eq, Bool, true, false, not, ◌||◌, Option, none, some, List, [], ◌∷◌, map, ◌==◌,
  if◌then◌else◌,
}
use aieos_agent_harness.Base.Lists.{keep}
use aieos_agent_harness.Base.Search.{split_on}
use aieos_agent_harness.Base.Dict
use aieos_agent_harness.State.Cells.{strip}
use aieos_agent_harness.Wdd.{ExecutionItem, ExecutionPlan}
use aieos_agent_harness.Wdd.Items.{
  ItemPatterns, extract_wdd_metadata, split_wdd_items, parse_item_section,
}
use aieos_agent_harness.Wdd.Grouping.{
  Store, Draft, GroupPatterns, is_assigned, parse_work_groups, groups_of,
}

-- The searches in the execution plan. `baseline_tests` is read as a number; `group_mode` looks behind a
-- group's name.
pub record OverlayPatterns : Type 0 where
  pub baseline_tests : String → Option ℕ
  pub builds_clean : String → Bool
  pub builds_failing : String → Bool
  pub parallel_overrides : String → List (String × String)
  pub files_matches : String → List (String × String)
  pub group_mode : String → String → Option String
  -- `str.lower`
  pub lower : String → String

-- A plan under construction: its groups by the ids of their items, and the items.
pub record PlanDraft : Type 0 where
  pub groups : List Draft
  pub store : Store
  pub baseline_tests : ℕ
  pub baseline_build_clean : Bool

-- A change of an item in place, where the groups hold it.
unfoldable pub change_item : List Draft → String → (ExecutionItem → ExecutionItem) → Store → Store
change_item groups id change store =
    if is_assigned groups id
    then elim (Dict.get store id) [ none ↦ store | some item ↦ Dict.insert id (change item) store ]
    else store

unfoldable pub with_parallel : Bool → ExecutionItem → ExecutionItem
with_parallel safe item = record item { parallel_safe = safe }

unfoldable pub with_files : List String → ExecutionItem → ExecutionItem
with_files files item = record item { files_touched = files }

-- The parts of a list of files, without the blank ones.
unfoldable pub files_of : String → List String
files_of files = keep (λ f. not (f == "")) (map strip (split_on 44 files))

module _ (re : OverlayPatterns) where
  unfoldable pub override_parallel : List Draft → List (String × String) → Store → Store
  override_parallel groups [] store = store
  override_parallel groups ((id, value) ∷ overrides) store =
      override_parallel groups overrides
        (change_item groups id (with_parallel (re.lower value == "true")) store)

  unfoldable pub override_files : List Draft → List (String × String) → Store → Store
  override_files groups [] store = store
  override_files groups ((id, files) ∷ matches) store =
      override_files groups matches (change_item groups id (with_files (files_of files)) store)

  unfoldable pub mode_named : String → String
  mode_named raw =
      let mode = re.lower (strip raw) in
      if mode == "independent" || mode == "mode b" then "independent" else "phase_sync"

  unfoldable pub override_mode : String → Draft → Draft
  override_mode content g = elim (re.group_mode g.name content) [
    | none ↦ g
    | some raw ↦ record g { mode = mode_named raw }
  ]

  unfoldable pub overlay_execution_plan : String → PlanDraft → PlanDraft
  overlay_execution_plan content plan =
      let flagged = override_parallel plan.groups (re.parallel_overrides content) plan.store in
      record {
        groups = map (override_mode content) plan.groups;
        store = override_files plan.groups (re.files_matches content) flagged;
        baseline_tests = elim (re.baseline_tests content) [
          | none ↦ plan.baseline_tests
          | some n ↦ n
        ];
        baseline_build_clean =
            if re.builds_failing content
            then false
            else if re.builds_clean content
            then true
            else plan.baseline_build_clean;
      }

-- The items by their ids: a later section of an id takes the place of an earlier one.
unfoldable pub collect_items : ItemPatterns → List String → Store → Store
collect_items re [] store = store
collect_items re (section ∷ sections) store = elim (parse_item_section re section) [
  | none ↦ collect_items re sections store
  | some item ↦ collect_items re sections (Dict.insert item.id item store)
]

unfoldable pub draft_plan : ItemPatterns → GroupPatterns → String → PlanDraft
draft_plan items groups wdd_content =
    let (drafts, store) =
      parse_work_groups groups wdd_content
        (collect_items items (split_wdd_items items wdd_content) []) in
    record { groups = drafts; store = store; baseline_tests = 0; baseline_build_clean = true }

unfoldable pub overlaid : OverlayPatterns → Option String → PlanDraft → PlanDraft
overlaid re none plan = plan
overlaid re (some content) plan = overlay_execution_plan re content plan

unfoldable pub plan_of : String × String → PlanDraft → ExecutionPlan
plan_of (wdd_id, initiative) plan = record {
  wdd_id = wdd_id;
  initiative = initiative;
  groups = groups_of plan.store plan.groups;
  baseline_tests = plan.baseline_tests;
  baseline_build_clean = plan.baseline_build_clean;
}

unfoldable pub parse_wdd_for_execution :
    ItemPatterns
    → GroupPatterns
    → OverlayPatterns
    → (wdd : String) (exec : Option String) → ExecutionPlan
parse_wdd_for_execution items groups overlay wdd exec =
    plan_of (extract_wdd_metadata items wdd) (overlaid overlay exec (draft_plan items groups wdd))
