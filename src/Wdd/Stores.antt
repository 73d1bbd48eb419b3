-- ===== src/Wdd/Stores.antt =====
-- src/wdd_parser.py: what stays true of the items while they are put into groups.
use aieos_agent_harness.Base.{
  String, string_eq, ◌≡◌, Option-cases, none, some, List, [], ◌∷◌, ◌++◌, ◌==◌, inl, inr,
  if◌then◌else◌, not,
}
use aieos_agent_harness.Base.Lists.{keep, List-cases}
use aieos_agent_harness.Base.Dict
use aieos_agent_harness.State.Cells.{strip}
use aieos_agent_harness.Wdd.{ExecutionItem}
use aieos_agent_harness.Wdd.Grouping.{
  Store, Draft, GroupPatterns, regrouped, place, is_assigned, add_group, member_ids, place_groups,
  place_rest, parse_work_groups,
}

-- What holds of a store, and still does when an item of it gets another group.
module _ (P : Store → Type 0)
    (step : (name mid : String) (item : ExecutionItem) (store : Store)
      → Dict.get store mid ≡ some item
      → P store
      → P (Dict.insert mid (regrouped name item) store)) where
  pub place_keeps :
      (name : String) (mids members : List String) (store : Store)
      → P store
      → P (place name mids members store).1
  unfolding place
  place_keeps name [] members store h = h
  place_keeps name (mid ∷ mids) members store h = elim (Option-cases (Dict.get store mid)) [
    | inl e ↦ rw (e, place) (place_keeps name mids members store h)
    | inr (item, e) ↦
        rw (e, place)
          (place_keeps name mids (members ++ mid ∷ []) (Dict.insert mid (regrouped name item) store)
            (step name mid item store e h))
  ]

  pub add_group_keeps :
      (name : String) (ids : List String) (groups : List Draft) (store : Store)
      → P store
      → P (add_group name ids groups store).1
  unfolding add_group
  add_group_keeps name ids groups store h = place_keeps name ids [] store h

  pub place_groups_keeps :
      (re : GroupPatterns) (gsections : List String) (groups : List Draft) (store : Store)
      → P store
      → P (place_groups re gsections groups store).1
  unfolding place_groups
  place_groups_keeps re [] groups store h = h
  place_groups_keeps re (g ∷ gs) groups store h =
      elim (Option-cases (if strip g == "" then none else re.group_name g)) [
        | inl e ↦ rw (e, place_groups) (place_groups_keeps re gs groups store h)
        | inr (found, e) ↦
            let next = add_group (strip found) (member_ids re g) groups store in
            rw (e, place_groups)
              (place_groups_keeps re gs next.0 next.1
                (add_group_keeps (strip found) (member_ids re g) groups store h))
      ]

  pub place_rest_keeps :
      (groups : List Draft) (store : Store) → P store → P (place_rest groups store).1
  unfolding place_rest
  place_rest_keeps groups store h =
      elim (List-cases (keep (λ i. not (is_assigned groups i)) (Dict.keys store))) [
        | inl e ↦ rw (e, place_rest) h
        | inr (i, is, e) ↦ rw (e, place_rest) (add_group_keeps "Unassigned" (i ∷ is) groups store h)
      ]

  pub parse_work_groups_keeps :
      (re : GroupPatterns) (content : String) (store : Store)
      → P store
      → P (parse_work_groups re content store).1
  unfolding parse_work_groups
  parse_work_groups_keeps re content store h = elim (Option-cases (re.groups_section content)) [
    | inl e ↦ elim (List-cases (Dict.keys store)) [
      | inl k ↦ rw (e, k, parse_work_groups) h
      | inr (i, is, k) ↦
          rw (e, k, parse_work_groups) (add_group_keeps "Default" (i ∷ is) [] store h)
    ]
    | inr (text, e) ↦
        let placed = place_groups re (re.group_sections text) [] store in
        rw (e, parse_work_groups)
          (place_rest_keeps placed.0 placed.1
            (place_groups_keeps re (re.group_sections text) [] store h))
  ]
