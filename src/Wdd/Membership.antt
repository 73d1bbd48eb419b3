-- ===== src/Wdd/Membership.antt =====
-- src/wdd_parser.py: the groups that hold the items of a parsed plan.
use mathlib.Core.List.{Memᴰ}
use mathlib.Core.List.Memᴰ
use aieos_agent_harness.Base.{
  String, string_eq, ◌≡◌, ◌≢◌, refl, sym, ap, ◌∙◌, inl, inr, true, ◌&&◌, Bool-cases, Option-cases,
  Option, none, some, List, [], ◌∷◌, ◌==◌, arith,
}
use aieos_agent_harness.Base.Lists.{any, contains}
use aieos_agent_harness.Base.Dict
use aieos_agent_harness.Wdd.{ExecutionItem}
use aieos_agent_harness.Wdd.Grouping.{Store, Draft, GroupPatterns, has_member, parse_work_groups}
use aieos_agent_harness.Wdd.Items.{ItemPatterns, split_wdd_items, parse_item_section}
use aieos_agent_harness.Wdd.Overlay.{
  OverlayPatterns, PlanDraft, change_item, with_parallel, with_files, files_of, override_parallel,
  override_files, override_mode, overlay_execution_plan, collect_items, draft_plan, overlaid,
}
use aieos_agent_harness.Wdd.Stores.{parse_work_groups_keeps}
use aieos_agent_harness.Wdd.Placement.{is_home, parse_work_groups-IsPlaced}
use aieos_agent_harness.Base.{map}
use aieos_agent_harness.Wdd.{ExecutionGroup}
use aieos_agent_harness.Wdd.Grouping.{store_items, groups_of}
use aieos_agent_harness.Wdd.Overlay.{plan_of, parse_wdd_for_execution}
use aieos_agent_harness.Wdd.Homes.{
  parse_work_groups_all, IsKeyed, regrouped-IsKeyed, collect_items-IsKeyed, empty-IsKeyed, home_of,
  change_item-home,
}

override_parallel-home :
    (re : OverlayPatterns) (groups : List Draft) (overrides : List (String × String))
    (store : Store) (j : String)
    → home_of (override_parallel re groups overrides store) j ≡ home_of store j
unfolding override_parallel
override_parallel-home re groups [] store j = refl
override_parallel-home re groups ((id, value) ∷ overrides) store j =
    let f = with_parallel (re.lower value == "true") in
    override_parallel-home re groups overrides (change_item groups id f store) j
    ∙ change_item-home groups id f store j (λ item. unfold with_parallel in (refl, refl))

override_files-home :
    (re : OverlayPatterns) (groups : List Draft) (matches : List (String × String)) (store : Store)
    (j : String)
    → home_of (override_files re groups matches store) j ≡ home_of store j
unfolding override_files
override_files-home re groups [] store j = refl
override_files-home re groups ((id, files) ∷ matches) store j =
    let f = with_files (files_of files) in
    override_files-home re groups matches (change_item groups id f store) j
    ∙ change_item-home groups id f store j (λ item. unfold with_files in (refl, refl))

any-override_mode :
    (re : OverlayPatterns) (content id name : String) (groups : List Draft)
    → any (is_home id name) (map (override_mode re content) groups) ≡ any (is_home id name) groups
unfolding any override_mode is_home has_member
any-override_mode re content id name [] = refl
any-override_mode re content id name (g ∷ groups) =
    ground (arith, any-override_mode re content id name groups)

-- The overlay leaves each item its group.
overlaid-home :
    (re : OverlayPatterns) (exec : Option String) (plan : PlanDraft) (id name : String)
    → (home_of (overlaid re exec plan).store id ≡ home_of plan.store id)
      × (any (is_home id name) (overlaid re exec plan).groups ≡ any (is_home id name) plan.groups)
unfolding overlaid overlay_execution_plan
overlaid-home re none plan id name = (refl, refl)
overlaid-home re (some content) plan id name = (
  override_files-home re plan.groups (re.files_matches content)
        (override_parallel re plan.groups (re.parallel_overrides content) plan.store) id
      ∙ override_parallel-home re plan.groups (re.parallel_overrides content) plan.store id,
  any-override_mode re content id name plan.groups,
)

collect_items_there :
    (re : ItemPatterns) (id : String) (sections : List String) (store : Store)
    → Dict.get store id ≢ none
    → Dict.get (collect_items re sections store) id ≢ none
unfolding collect_items
collect_items_there re id [] store n = n
collect_items_there re id (s ∷ sections) store n = elim (Option-cases (parse_item_section re s)) [
  | inl e ↦ rw (e, collect_items) (collect_items_there re id sections store n)
  | inr (item, e) ↦
      let got = Dict.get-insert id item.id item store in
      rw (e, collect_items)
        (collect_items_there re id sections (Dict.insert item.id item store)
          (λ q. n (ground (arith, got, q))))
]

collect_items_all :
    (re : ItemPatterns) (s : String) (item : ExecutionItem) (sections : List String) (store : Store)
    → Memᴰ s sections
    → parse_item_section re s ≡ some item
    → Dict.get (collect_items re sections store) item.id ≢ none
unfolding collect_items
collect_items_all re s item [] store m p = absurd (Memᴰ.not-nil m)
collect_items_all re s item (t ∷ sections) store m p = elim (Memᴰ.cases_cons m) [
  | inl same ↦
      let at : parse_item_section re t ≡ some item = ap (parse_item_section re) (sym same) ∙ p in
      let got = Dict.get-insert item.id item.id item store in
      rw (at, collect_items)
        (collect_items_there re item.id sections (Dict.insert item.id item store)
          (λ q. ground (arith, got, q)))
  | inr later ↦ elim (Option-cases (parse_item_section re t)) [
    | inl e ↦ rw (e, collect_items) (collect_items_all re s item sections store later p)
    | inr (other, e) ↦
        rw (e, collect_items)
          (collect_items_all re s item sections (Dict.insert other.id other store) later p)
  ]
]

store_items_member :
    (store : Store) (id : String) (item : ExecutionItem) (ids : List String)
    → Dict.get store id ≡ some item
    → contains ids id ≡ true
    → Memᴰ item (store_items store ids)
unfolding store_items contains
store_items_member store id item [] e h = absurd (cc)
store_items_member store id item (i ∷ ids) e h = elim (Bool-cases (i == id)) [
  | inl p ↦
      let same : i ≡ id = ground arith in
      let at : Dict.get store i ≡ some item = ap (Dict.get store) same ∙ e in
      rw (at, store_items) (Memᴰ.head refl)
  | inr p ↦
      let rest = store_items_member store id item ids e (ground (arith, h, p)) in
      elim (Option-cases (Dict.get store i)) [
        | inl q ↦ rw (q, store_items) rest
        | inr (j, q) ↦ rw (q, store_items) (Memᴰ.tail rest)
      ]
]

-- A group that has the item of an id.
groups_of_member :
    (store : Store) (id name : String) (item : ExecutionItem) (groups : List Draft)
    → Dict.get store id ≡ some item
    → any (is_home id name) groups ≡ true
    → (g : ExecutionGroup) × Memᴰ g (groups_of store groups) × Memᴰ item g.items × (g.name ≡ name)
unfolding groups_of any is_home has_member
groups_of_member store id name item [] e h = absurd (cc)
groups_of_member store id name item (d ∷ groups) e h =
    elim (Bool-cases (d.name == name && contains d.members id)) [
      | inl p ↦ (
        record {
          name = d.name;
          items = store_items store d.members;
          mode = d.mode;
          dependencies = [];
        },
        Memᴰ.head refl,
        store_items_member store id item d.members e (ground (arith, p)),
        ground (arith, p),
      )
      | inr p ↦
          let (g, in_groups, in_items, named) =
            groups_of_member store id name item groups e (ground (arith, h, p)) in
          (g, Memᴰ.tail in_groups, in_items, named)
    ]

home_of-some :
    (store : Store) (id i name : String)
    → home_of store id ≡ some (i, name)
    → (item : ExecutionItem) × (Dict.get store id ≡ some item)
      × (item.id ≡ i)
      × (item.work_group ≡ name)
unfolding home_of
home_of-some store id i name h = elim (Option-cases (Dict.get store id)) [
  | inl e ↦ absurd (ground (arith, h, e))
  | inr (item, e) ↦
      let k : ◌≡◌ {A = Option (String × String)} (some (item.id, item.work_group))
          (some (i, name)) =
        sym (rw (e, home_of) refl) ∙ h in
      (item, e, ground (arith, k), ground (arith, k))
]

some_home :
    (store : Store) (id : String) (item : ExecutionItem)
    → Dict.get store id ≡ some item
    → home_of store id ≡ some (item.id, item.work_group)
unfolding home_of
some_home store id item e = rw (e, home_of) refl

-- Each work item that is read from a section of a WDD is an item of some group of the parsed plan, with
-- the id that was read, and its `work_group` is the name of that group. This holds with an
-- execution plan laid over it or without, whatever the sections of the groups list.
pub parse_wdd_for_execution-homes :
    (items : ItemPatterns) (groups : GroupPatterns) (overlay : OverlayPatterns) (wdd : String)
    (exec : Option String) (section : String) (parsed : ExecutionItem)
    → Memᴰ section (split_wdd_items items wdd)
    → parse_item_section items section ≡ some parsed
    → (g : ExecutionGroup) × (item : ExecutionItem) × Memᴰ g
        (parse_wdd_for_execution items groups overlay wdd exec).groups
      × Memᴰ item g.items
      × (item.id ≡ parsed.id)
      × (item.work_group ≡ g.name)
unfolding parse_wdd_for_execution plan_of
parse_wdd_for_execution-homes items groups overlay wdd exec section parsed m p =
    let sections = split_wdd_items items wdd in
    let store = collect_items items sections [] in
    let plan = draft_plan items groups wdd in
    let there = collect_items_all items section parsed sections [] m p in
    let (assigned, still) = parse_work_groups_all groups parsed.id wdd store there in
    let placed = parse_work_groups-IsPlaced groups wdd store in
    let keyed =
      parse_work_groups_keeps IsKeyed regrouped-IsKeyed groups wdd store
        (collect_items-IsKeyed items sections [] empty-IsKeyed) in
    elim (Option-cases (Dict.get (parse_work_groups groups wdd store).1 parsed.id)) [
      | inl e ↦ absurd (still e)
      | inr (old, e) ↦
          let (home, same) = overlaid-home overlay exec plan parsed.id old.work_group in
          let before : home_of plan.store parsed.id ≡ some (old.id, old.work_group) =
            unfold draft_plan in some_home (parse_work_groups groups wdd store).1 parsed.id old e in
          let in_draft : any (is_home parsed.id old.work_group) plan.groups ≡ true =
            unfold draft_plan in placed parsed.id old e assigned in
          let (item, at, own, group) =
            home_of-some (overlaid overlay exec plan).store parsed.id old.id old.work_group
              (home ∙ before) in
          let (g, in_plan, in_group, named) =
            groups_of_member (overlaid overlay exec plan).store parsed.id old.work_group item
              (overlaid overlay exec plan).groups at (same ∙ in_draft) in
          (g, item, in_plan, in_group, own ∙ keyed parsed.id old e, group ∙ sym named)
    ]
