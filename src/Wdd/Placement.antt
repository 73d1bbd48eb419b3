-- ===== src/Wdd/Placement.antt =====
-- src/wdd_parser.py: where the items of a plan are.
use aieos_agent_harness.Base.{
  String, string_eq, ◌≡◌, ◌≢◌, refl, inl, inr, Bool, true, not, ◌&&◌, ◌||◌, Option-cases, none,
  some, List, [], ◌∷◌, ◌++◌, ◌==◌, if◌then◌else◌, arith,
}
use aieos_agent_harness.Base.Lists.{any, contains, keep, List-cases}
use aieos_agent_harness.Base.Dict
use aieos_agent_harness.Wdd.{ExecutionItem}
use aieos_agent_harness.Wdd.Grouping.{
  Store, Draft, GroupPatterns, draft, regrouped, place, has_member, is_assigned, add_group,
  member_ids, place_groups, place_rest, parse_work_groups,
}
use aieos_agent_harness.State.Cells.{strip}

pub any-append :
    {A : Type 0} (p : A → Bool) (xs ys : List A) → any p (xs ++ ys) ≡ (any p xs || any p ys)
unfolding any
any-append p [] ys = refl
any-append p (x ∷ xs) ys = ground (arith, any-append p xs ys)

contains-append :
    (xs ys : List String) (y : String) → contains (xs ++ ys) y ≡ (contains xs y || contains ys y)
unfolding contains
contains-append [] ys y = refl
contains-append (x ∷ xs) ys y = ground (arith, contains-append xs ys y)

-- A group of the id, under a name.
unfoldable pub is_home : String → String → Draft → Bool
is_home id name g = g.name == name && has_member id g

-- Of what a group holds, the item is there, and each item says a group that holds it.
abbrev pub IsPlaced : List Draft → Store → Type 0
IsPlaced groups store =
    (id : String) (item : ExecutionItem)
    → Dict.get store id ≡ some item
    → is_assigned groups id ≡ true
    → any (is_home id item.work_group) groups ≡ true

-- One more member of the last group.
place-one :
    (groups : List Draft) (name mid : String) (members : List String) (item : ExecutionItem)
    (store : Store)
    → IsPlaced (groups ++ draft name members ∷ []) store
    → IsPlaced
        (groups ++ draft name (members ++ mid ∷ []) ∷ [])
        (Dict.insert mid (regrouped name item) store)
place-one groups name mid members item store h id j at held =
    let before = any-append (is_home id j.work_group) groups (draft name members ∷ []) in
    let after =
      any-append (is_home id j.work_group) groups (draft name (members ++ mid ∷ []) ∷ []) in
    let was = any-append (has_member id) groups (draft name members ∷ []) in
    let is = any-append (has_member id) groups (draft name (members ++ mid ∷ []) ∷ []) in
    let more = contains-append members (mid ∷ []) id in
    let old = h id j in
    let got = Dict.get-insert id mid (regrouped name item) store in
    unfold is_home has_member draft regrouped contains any is_assigned in
    ground (arith, before, after, was, is, more, old, got, at, held)

place-IsPlaced :
    (groups : List Draft) (name : String) (mids members : List String) (store : Store)
    → IsPlaced (groups ++ draft name members ∷ []) store
    → IsPlaced
        (groups ++ draft name (place name mids members store).0 ∷ [])
        (place name mids members store).1
unfolding place
place-IsPlaced groups name [] members store h = h
place-IsPlaced groups name (mid ∷ mids) members store h = elim (Option-cases (Dict.get store mid)) [
  | inl e ↦ rw (e, place) (place-IsPlaced groups name mids members store h)
  | inr (item, e) ↦
      rw (e, place)
        (place-IsPlaced groups name mids (members ++ mid ∷ [])
          (Dict.insert mid (regrouped name item) store)
          (place-one groups name mid members item store h))
]

-- A group without members.
empty-IsPlaced :
    (groups : List Draft) (name : String) (store : Store)
    → IsPlaced groups store
    → IsPlaced (groups ++ draft name [] ∷ []) store
empty-IsPlaced groups name store h id item at held =
    let after = any-append (is_home id item.work_group) groups (draft name [] ∷ []) in
    let is = any-append (has_member id) groups (draft name [] ∷ []) in
    let old = h id item in
    unfold has_member draft contains any is_assigned in ground (arith, after, is, old, at, held)

add_group-IsPlaced :
    (name : String) (ids : List String) (groups : List Draft) (store : Store)
    → IsPlaced groups store
    → IsPlaced (add_group name ids groups store).0 (add_group name ids groups store).1
unfolding add_group
add_group-IsPlaced name ids groups store h =
    place-IsPlaced groups name ids [] store (empty-IsPlaced groups name store h)

place_groups-IsPlaced :
    (re : GroupPatterns) (gsections : List String) (groups : List Draft) (store : Store)
    → IsPlaced groups store
    → IsPlaced (place_groups re gsections groups store).0 (place_groups re gsections groups store).1
unfolding place_groups
place_groups-IsPlaced re [] groups store h = h
place_groups-IsPlaced re (g ∷ gs) groups store h =
    elim (Option-cases (if strip g == "" then none else re.group_name g)) [
      | inl e ↦ rw (e, place_groups) (place_groups-IsPlaced re gs groups store h)
      | inr (found, e) ↦
          let next = add_group (strip found) (member_ids re g) groups store in
          rw (e, place_groups)
            (place_groups-IsPlaced re gs next.0 next.1
              (add_group-IsPlaced (strip found) (member_ids re g) groups store h))
    ]

none-IsPlaced : (store : Store) → IsPlaced [] store
none-IsPlaced store id item at held = absurd (unfold is_assigned any in cc)

place_rest-IsPlaced :
    (groups : List Draft) (store : Store)
    → IsPlaced groups store
    → IsPlaced (place_rest groups store).0 (place_rest groups store).1
unfolding place_rest
place_rest-IsPlaced groups store h =
    elim (List-cases (keep (λ id. not (is_assigned groups id)) (Dict.keys store))) [
      | inl e ↦ rw (e, place_rest) h
      | inr (id, ids, e) ↦
          rw (e, place_rest) (add_group-IsPlaced "Unassigned" (id ∷ ids) groups store h)
    ]

pub parse_work_groups-IsPlaced :
    (re : GroupPatterns) (content : String) (store : Store)
    → IsPlaced (parse_work_groups re content store).0 (parse_work_groups re content store).1
unfolding parse_work_groups
parse_work_groups-IsPlaced re content store = elim (Option-cases (re.groups_section content)) [
  | inl e ↦ elim (List-cases (Dict.keys store)) [
    | inl k ↦ rw (e, k, parse_work_groups) (none-IsPlaced store)
    | inr (id, ids, k) ↦
        rw (e, k, parse_work_groups)
          (add_group-IsPlaced "Default" (id ∷ ids) [] store (none-IsPlaced store))
  ]
  | inr (text, e) ↦
      let placed = place_groups re (re.group_sections text) [] store in
      rw (e, parse_work_groups)
        (place_rest-IsPlaced placed.0 placed.1
          (place_groups-IsPlaced re (re.group_sections text) [] store (none-IsPlaced store)))
]

pub contains-place :
    (id name : String) (mids members : List String) (store : Store)
    → Dict.get store id ≢ none
    → (contains members id || contains mids id) ≡ true
    → contains (place name mids members store).0 id ≡ true
unfolding place
contains-place id name [] members store n h = unfold contains in ground (arith, h)
contains-place id name (mid ∷ mids) members store n h = elim (Option-cases (Dict.get store mid)) [
  | inl e ↦
      rw (e, place)
        (contains-place id name mids members store n (unfold contains in ground (arith, h, n, e)))
  | inr (item, e) ↦
      let at = Dict.get-insert id mid (regrouped name item) store in
      let more = contains-append members (mid ∷ []) id in
      rw (e, place)
        (contains-place id name mids (members ++ mid ∷ [])
          (Dict.insert mid (regrouped name item) store) (λ q. n (ground (arith, at, q)))
          (unfold contains in ground (arith, h, more)))
]

pub contains-keys :
    (id : String) (store : Store) → Dict.get store id ≢ none → contains (Dict.keys store) id ≡ true
unfolding Dict.get Dict.keys contains
contains-keys id [] n = absurd (n refl)
contains-keys id ((k, item) ∷ store) n = ground (arith, contains-keys id store)

pub contains-keep :
    (p : String → Bool) (id : String) (ids : List String)
    → contains ids id ≡ true
    → p id ≡ true
    → contains (keep p ids) id ≡ true
unfolding keep contains
contains-keep p id [] h k = h
contains-keep p id (i ∷ ids) h k = ground (arith, contains-keep p id ids)

pub add_group_assigned :
    (id name : String) (ids : List String) (groups : List Draft) (store : Store)
    → Dict.get store id ≢ none
    → contains ids id ≡ true
    → is_assigned (add_group name ids groups store).0 id ≡ true
unfolding add_group is_assigned
add_group_assigned id name ids groups store n h =
    let members = (place name ids [] store).0 in
    let last = any-append (has_member id) groups (draft name members ∷ []) in
    let there = contains-place id name ids [] store n (unfold contains in h) in
    unfold any has_member draft in ground (arith, last, there)
