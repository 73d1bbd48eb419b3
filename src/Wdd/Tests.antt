-- ===== src/Wdd/Tests.antt =====
-- A WDD of two items, one of which its group lists.
use mathlib.Core.List.{Memᴰ}
use aieos_agent_harness.Base.{
  String, string_eq, ◌≡◌, refl, Bool, true, false, Option, none, some, List, [], ◌∷◌, ◌==◌,
  if◌then◌else◌, map,
}
use aieos_agent_harness.Base.Lists.{contains, keep, any}
use aieos_agent_harness.Base.Dict
use aieos_agent_harness.Base.Search.{split_on}
use aieos_agent_harness.State.Cells.{strip, strip_end, skip_spaces, is_space}
use aieos_agent_harness.Wdd.{ExecutionItem, ExecutionGroup}
use aieos_agent_harness.Wdd.Items.{
  ItemPatterns, split_wdd_items, has_item_id, parse_item_section, dependencies_of, unique_from,
  title_of, item_description, criteria_of, stripped_or, is_absent,
}
use aieos_agent_harness.Wdd.Grouping.{
  GroupPatterns, parse_work_groups, place_groups, place_rest, add_group, place, draft, is_assigned,
  has_member, member_ids, regrouped, store_items, groups_of,
}
use aieos_agent_harness.Wdd.Overlay.{
  OverlayPatterns, parse_wdd_for_execution, plan_of, overlaid, overlay_execution_plan, draft_plan,
  collect_items, override_parallel, override_files, override_mode, change_item, with_parallel,
  mode_named,
}
use aieos_agent_harness.Wdd.Membership.{parse_wdd_for_execution-homes}

abbrev same : String → String
same s = s

abbrev nothing : String → Option String
nothing s = none

-- A section is an item's id.
abbrev items : ItemPatterns
items = record {
  wdd_id = nothing;
  initiative = nothing;
  item_sections = split_on b';';
  short_sections = λ s. [];
  item_id = some;
  intent = nothing;
  header_title = nothing;
  in_scope = nothing;
  assignee = nothing;
  complexity = nothing;
  criteria_section = nothing;
  criteria = λ s. [];
  dependencies_section = some;
  wdd_ids = λ s. "W-001" ∷ "W-002" ∷ "W-001" ∷ [];
  lower = same;
  upper = same;
}

abbrev groups : GroupPatterns
groups = record {
  groups_section = some;
  group_sections = λ s. "Core" ∷ [];
  group_name = some;
  member_items = some;
  wdd_ids = λ s. "W-002" ∷ "W-009" ∷ [];
}

abbrev overlay : OverlayPatterns
overlay = record {
  baseline_tests = λ s. some 7;
  builds_clean = λ s. true;
  builds_failing = λ s. false;
  parallel_overrides = λ s. ("W-002", "false") ∷ [];
  files_matches = λ s. [];
  group_mode = λ name s. some "Mode B";
  lower = λ s. if s == "Mode B" then "mode b" else s;
}

abbrev wdd : String
wdd = "W-001;W-002"

sections : split_wdd_items items wdd ≡ "W-001" ∷ "W-002" ∷ []
unfolding split_wdd_items keep has_item_id split_on
sections = refl

abbrev first : ExecutionItem
first = record {
  id = "W-001";
  title = "";
  description = "";
  assignee_type = "AI";
  acceptance_criteria = [];
  complexity = "M";
  dependencies = "W-002" ∷ [];
  work_group = "";
  parallel_safe = true;
  files_touched = [];
}

first_parsed : parse_item_section items "W-001" ≡ some first
unfolding parse_item_section dependencies_of unique_from title_of item_description criteria_of
    stripped_or strip strip_end skip_spaces is_space is_absent string_eq contains
first_parsed = refl

-- The groups of the plan, by name, mode and the ids and flags of their items.
planned :
    map {B = String × String × List (String × String × Bool)}
      (λ g. (g.name, g.mode, map (λ i. (i.id, i.work_group, i.parallel_safe)) g.items))
      (parse_wdd_for_execution items groups overlay wdd (some "plan")).groups
    ≡ ("Core", "independent", ("W-002", "Core", false) ∷ [])
      ∷ ("Unassigned", "independent", ("W-001", "Unassigned", true) ∷ [])
      ∷ []
unfolding parse_wdd_for_execution plan_of groups_of overlaid overlay_execution_plan draft_plan
    parse_work_groups place_rest keep Dict.keys place_groups string_eq strip skip_spaces strip_end
    is_space add_group place Dict.get Dict.insert any contains split_on draft has_member is_assigned
    store_items member_ids regrouped criteria_of dependencies_of item_description has_item_id
    is_absent parse_item_section split_wdd_items stripped_or title_of unique_from change_item
    collect_items mode_named override_files override_mode override_parallel with_parallel
planned = refl

first_listed : Memᴰ "W-001" (split_wdd_items items wdd)
unfolding split_wdd_items keep has_item_id split_on
first_listed = Memᴰ.head refl

parse_wdd_for_execution-homes_example :
    (g : ExecutionGroup) × (item : ExecutionItem) × Memᴰ g
      (parse_wdd_for_execution items groups overlay wdd (some "plan")).groups
    × Memᴰ item g.items
    × (item.id ≡ "W-001")
    × (item.work_group ≡ g.name)
parse_wdd_for_execution-homes_example =
    parse_wdd_for_execution-homes items groups overlay wdd (some "plan") "W-001" first first_listed
      first_parsed
