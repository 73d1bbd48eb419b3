-- ===== src/Wdd/Grouping.antt =====
-- src/wdd_parser.py: `_parse_work_groups`. The items are objects that `items_by_id` and the groups share,
-- so a group holds the ids of its items, and the items stand in a store, the dict `items_by_id`.
use Prim.Native.String.{String}
use aieos_agent_harness.Base.{
  string_eq, Bool, not, Option, none, some, List, [], ◌∷◌, ◌++◌, ◌==◌, if◌then◌else◌,
}
use aieos_agent_harness.Base.Lists.{any, contains, keep}
use aieos_agent_harness.Base.Dict
use aieos_agent_harness.Base.Dict.{Dict}
use aieos_agent_harness.State.Cells.{strip}
use aieos_agent_harness.Wdd.{ExecutionItem, ExecutionGroup}

abbrev pub Store : Type 0
Store = Dict String ExecutionItem

-- A group under construction: the ids of its items.
pub record Draft : Type 0 where
  pub name : String
  pub members : List String
  pub mode : String

-- The searches in the section of the work groups; `group_sections` splits it at its headers.
pub record GroupPatterns : Type 0 where
  pub groups_section : String → Option String
  pub group_sections : String → List String
  pub group_name : String → Option String
  pub member_items : String → Option String
  pub wdd_ids : String → List String

unfoldable pub draft : String → List String → Draft
draft name members = record { name = name; members = members; mode = "phase_sync" }

unfoldable pub regrouped : String → ExecutionItem → ExecutionItem
regrouped name item = record item { work_group = name }

-- The loop over the ids of a group's members, with the members so far.
unfoldable pub place : String → List String → List String → Store → List String × Store
place name [] members store = (members, store)
place name (mid ∷ mids) members store = elim (Dict.get store mid) [
  | none ↦ place name mids members store
  | some item ↦ place name mids (members ++ mid ∷ []) (Dict.insert mid (regrouped name item) store)
]

unfoldable pub has_member : String → Draft → Bool
has_member id g = contains g.members id

-- `item_id in assigned_ids`
unfoldable pub is_assigned : List Draft → String → Bool
is_assigned groups id = any (has_member id) groups

-- A group of every one of some ids.
unfoldable pub add_group : String → List String → List Draft → Store → List Draft × Store
add_group name ids groups store =
    let (members, store') = place name ids [] store in (groups ++ draft name members ∷ [], store')

-- Items in no group make one of their own.
unfoldable pub place_rest : List Draft → Store → List Draft × Store
place_rest groups store = elim (keep (λ id. not (is_assigned groups id)) (Dict.keys store)) [
  | [] ↦ (groups, store)
  | id ∷ ids ↦ add_group "Unassigned" (id ∷ ids) groups store
]

module _ (re : GroupPatterns) where
  unfoldable pub member_ids : String → List String
  member_ids gsection = elim (re.member_items gsection) [
    | none ↦ []
    | some found ↦ re.wdd_ids found
  ]

  -- The loop over the sections of the groups.
  unfoldable pub place_groups : List String → List Draft → Store → List Draft × Store
  place_groups [] groups store = (groups, store)
  place_groups (gsection ∷ gsections) groups store =
      elim (if strip gsection == "" then none else re.group_name gsection) [
        | none ↦ place_groups gsections groups store
        | some found ↦
            let (groups', store') = add_group (strip found) (member_ids gsection) groups store in
            place_groups gsections groups' store'
      ]

  unfoldable pub parse_work_groups : String → Store → List Draft × Store
  parse_work_groups content store = elim (re.groups_section content) [
    | none ↦ elim (Dict.keys store) [
      | [] ↦ ([], store)
      | id ∷ ids ↦ add_group "Default" (id ∷ ids) [] store
    ]
    | some text ↦
        let (groups, store') = place_groups (re.group_sections text) [] store in
        place_rest groups store'
  ]

-- The items of a group, as they are in the store.
unfoldable pub store_items : Store → List String → List ExecutionItem
store_items store [] = []
store_items store (id ∷ ids) = elim (Dict.get store id) [
  | none ↦ store_items store ids
  | some item ↦ item ∷ store_items store ids
]

unfoldable pub groups_of : Store → List Draft → List ExecutionGroup
groups_of store [] = []
groups_of store (g ∷ groups) =
    record { name = g.name; items = store_items store g.members; mode = g.mode; dependencies = [] }
    ∷ groups_of store groups
