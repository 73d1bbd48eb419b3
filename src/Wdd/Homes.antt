-- ===== src/Wdd/Homes.antt =====
-- src/wdd_parser.py: the items of a WDD that are in no listed group, and their groups.
use mathlib.Core.Path.{subst}
use aieos_agent_harness.Base.{
  String, string_eq, ◌≡◌, ◌≢◌, ap, inl, inr, true, not, Bool-cases, Option-cases, Option, none,
  some, List, [], ◌∷◌, ◌==◌, arith,
}
use aieos_agent_harness.Base.Lists.{contains, keep, List-cases}
use aieos_agent_harness.Base.Dict
use aieos_agent_harness.Wdd.{ExecutionItem}
use aieos_agent_harness.Wdd.Grouping.{
  Store, Draft, GroupPatterns, draft, regrouped, place, has_member, is_assigned, add_group,
  place_groups, place_rest, parse_work_groups,
}
use aieos_agent_harness.Wdd.Items.{ItemPatterns, parse_item_section}
use aieos_agent_harness.Wdd.Overlay.{change_item, collect_items}
use aieos_agent_harness.Wdd.Stores.{add_group_keeps, place_groups_keeps}
use aieos_agent_harness.Wdd.Placement.{any-append, contains-keys, contains-keep, add_group_assigned}

-- An item stays in the store.
stays :
    (id name mid : String) (item : ExecutionItem) (store : Store)
    → Dict.get store mid ≡ some item
    → Dict.get store id ≢ none
    → Dict.get (Dict.insert mid (regrouped name item) store) id ≢ none
stays id name mid item store e n q =
    let at = Dict.get-insert id mid (regrouped name item) store in n (ground (arith, at, q))

abbrev IsThere : String → Store → Type 0
IsThere id store = Dict.get store id ≢ none

-- Where the items that are in no group are grouped, every item is.
place_rest_all :
    (id : String) (groups : List Draft) (store : Store)
    → Dict.get store id ≢ none
    → (is_assigned (place_rest groups store).0 id ≡ true)
      × (Dict.get (place_rest groups store).1 id ≢ none)
unfolding place_rest
place_rest_all id groups store n =
    let rest = keep (λ i. not (is_assigned groups i)) (Dict.keys store) in
    let listed =
      contains-keep (λ i. not (is_assigned groups i)) id (Dict.keys store)
        (contains-keys id store n) in
    elim (List-cases rest) [
      | inl e ↦ elim (Bool-cases (is_assigned groups id)) [
        | inl held ↦ rw (e, place_rest) (held, n)
        | inr free ↦
            let k : contains rest id ≡ true = listed (ap not free) in
            absurd (unfold contains in ground (arith, k, e))
      ]
      | inr (i, is, e) ↦
          rw (e, place_rest)
            (
              elim (Bool-cases (is_assigned groups id)) [
                | inl held ↦
                    let more =
                      any-append (has_member id) groups
                        (draft "Unassigned" (place "Unassigned" (i ∷ is) [] store).0 ∷ []) in
                    unfold add_group is_assigned in ground (arith, more, held)
                | inr free ↦
                    let k : contains rest id ≡ true = listed (ap not free) in
                    add_group_assigned id "Unassigned" (i ∷ is) groups store n
                      (subst (λ l. contains l id ≡ true) e k)
              ],
              add_group_keeps (IsThere id) (stays id) "Unassigned" (i ∷ is) groups store n,
            )
    ]

pub parse_work_groups_all :
    (re : GroupPatterns) (id content : String) (store : Store)
    → Dict.get store id ≢ none
    → (is_assigned (parse_work_groups re content store).0 id ≡ true)
      × (Dict.get (parse_work_groups re content store).1 id ≢ none)
unfolding parse_work_groups
parse_work_groups_all re id content store n = elim (Option-cases (re.groups_section content)) [
  | inl e ↦
      let listed = contains-keys id store n in
      elim (List-cases (Dict.keys store)) [
        | inl k ↦ absurd (unfold contains in ground (arith, listed, k))
        | inr (i, is, k) ↦
            rw (e, k, parse_work_groups)
              (
                add_group_assigned id "Default" (i ∷ is) [] store n
                    (subst (λ l. contains l id ≡ true) k listed),
                add_group_keeps (IsThere id) (stays id) "Default" (i ∷ is) [] store n,
              )
      ]
  | inr (text, e) ↦
      let placed = place_groups re (re.group_sections text) [] store in
      rw (e, parse_work_groups)
        (place_rest_all id placed.0 placed.1
          (place_groups_keeps (IsThere id) (stays id) re (re.group_sections text) [] store n))
]

-- Each item is stored under its id.
abbrev pub IsKeyed : Store → Type 0
IsKeyed store = (id : String) (item : ExecutionItem) → Dict.get store id ≡ some item → item.id ≡ id

pub regrouped-IsKeyed :
    (name mid : String) (item : ExecutionItem) (store : Store)
    → Dict.get store mid ≡ some item
    → IsKeyed store
    → IsKeyed (Dict.insert mid (regrouped name item) store)
regrouped-IsKeyed name mid item store e h id j at =
    let got = Dict.get-insert id mid (regrouped name item) store in
    let old = h id j in
    let own = h mid item e in unfold regrouped in ground (arith, got, old, own, at)

pub collect_items-IsKeyed :
    (re : ItemPatterns) (sections : List String) (store : Store)
    → IsKeyed store
    → IsKeyed (collect_items re sections store)
unfolding collect_items
collect_items-IsKeyed re [] store h = h
collect_items-IsKeyed re (s ∷ sections) store h = elim (Option-cases (parse_item_section re s)) [
  | inl e ↦ rw (e, collect_items) (collect_items-IsKeyed re sections store h)
  | inr (item, e) ↦
      rw (e, collect_items)
        (collect_items-IsKeyed re sections (Dict.insert item.id item store) (λ id j at.
          let got = Dict.get-insert id item.id item store in
          let old = h id j in ground (arith, got, old, at)))
]

pub empty-IsKeyed : IsKeyed []
unfolding Dict.get
empty-IsKeyed id item at = absurd (cc)

-- What the overlay changes of an item is neither its id nor its group.
abbrev pub IsHarmless : (ExecutionItem → ExecutionItem) → Type 0
IsHarmless f =
    (item : ExecutionItem) → ((f item).id ≡ item.id) × ((f item).work_group ≡ item.work_group)

-- The item of an id, and the group that it says.
unfoldable pub home_of : Store → String → Option (String × String)
home_of store id = elim (Dict.get store id) [
  | none ↦ none
  | some item ↦ some (item.id, item.work_group)
]

pub change_item-home :
    (groups : List Draft) (id : String) (f : ExecutionItem → ExecutionItem) (store : Store)
    (j : String)
    → IsHarmless f
    → home_of (change_item groups id f store) j ≡ home_of store j
unfolding change_item home_of
change_item-home groups id f store j h = elim (Bool-cases (is_assigned groups id)) [
  | inr e ↦ ground (arith, e)
  | inl e ↦ elim (Option-cases (Dict.get store id)) [
    | inl q ↦ ground (arith, e, q)
    | inr (item, q) ↦
        let got = Dict.get-insert j id (f item) store in
        let (same_id, same_group) = h item in
        elim (Bool-cases (j == id)) [
          | inl p ↦ ground (arith, e, q, got, same_id, same_group, p)
          | inr p ↦ ground (arith, e, q, got, p)
        ]
  ]
]
