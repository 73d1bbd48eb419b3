-- ===== src/Wdd/Dependencies.antt =====
-- src/wdd_parser.py: the dependencies of a work item.
use aieos_agent_harness.Base.{
  String, string_eq, ◌≡◌, refl, inl, inr, Bool, true, not, ◌&&◌, Bool-cases, Option-cases, none,
  some, List, [], ◌∷◌, ◌==◌, if◌then◌else◌, arith,
}
use aieos_agent_harness.Base.Lists.{contains}
use aieos_agent_harness.State.Cells.{strip}
use aieos_agent_harness.Wdd.{ExecutionItem}
use aieos_agent_harness.Wdd.Items.{
  ItemPatterns, unique_from, dependencies_of, parse_item_section, is_absent,
}

unfoldable pub is_distinct : List String → Bool
is_distinct [] = true
is_distinct (x ∷ xs) = not (contains xs x) && is_distinct xs

contains-unique_from :
    (self x : String) (seen ds : List String)
    → contains (unique_from self seen ds) x
      ≡ (contains ds x && not (contains seen x) && not (x == self))
unfolding unique_from contains
contains-unique_from self x seen [] = refl
contains-unique_from self x seen (d ∷ ds) =
    elim (Bool-cases (not (contains seen d) && not (d == self))) [
      | inl e ↦
          let rest = contains-unique_from self x (d ∷ seen) ds in
          rw (e, unique_from) (ground (arith, rest, e))
      | inr e ↦
          let rest = contains-unique_from self x seen ds in
          rw (e, unique_from) (ground (arith, rest, e))
    ]

unique_from_distinct :
    (self : String) (seen ds : List String) → is_distinct (unique_from self seen ds) ≡ true
unfolding unique_from is_distinct
unique_from_distinct self seen [] = refl
unique_from_distinct self seen (d ∷ ds) =
    elim (Bool-cases (not (contains seen d) && not (d == self))) [
      | inl e ↦
          let rest = unique_from_distinct self (d ∷ seen) ds in
          let k = contains-unique_from self d (d ∷ seen) ds in
          let own : contains (d ∷ seen) d ≡ true = unfold contains in ground arith in
          rw (e, unique_from) (ground (arith, rest, k, own))
      | inr e ↦ rw (e, unique_from) (unique_from_distinct self seen ds)
    ]

-- The ids that a section's dependencies name; "None" and the like name none.
unfoldable pub named_ids : ItemPatterns → String → List String
named_ids re section = elim (re.dependencies_section section) [
  | none ↦ []
  | some text ↦ if is_absent re (strip text) then [] else re.wdd_ids (strip text)
]

-- The dependencies of a parsed item are the ids that its section names as such, except its own, each
-- once.
pub parse_item_section-dependencies :
    (re : ItemPatterns) (section : String) (item : ExecutionItem)
    → parse_item_section re section ≡ some item
    → (is_distinct item.dependencies ≡ true)
      × ((x : String)
          → contains item.dependencies x
            ≡ (contains (named_ids re section) x && not (x == item.id)))
unfolding parse_item_section
parse_item_section-dependencies re section item h = elim (Option-cases (re.item_id section)) [
  | inl e ↦ absurd (ground arith)
  | inr (found, e) ↦
      let deps : item.dependencies ≡ dependencies_of re (strip found) section = ground arith in
      let own : item.id ≡ strip found = ground arith in
      elim (Option-cases (re.dependencies_section section)) [
        | inl q ↦
            unfold dependencies_of named_ids is_distinct contains in
            (ground arith, λ x. ground arith)
        | inr (text, q) ↦
            let distinct = unique_from_distinct (strip found) [] (re.wdd_ids (strip text)) in
            let holds =
              λ (x : String). contains-unique_from (strip found) x [] (re.wdd_ids (strip text)) in
            unfold dependencies_of named_ids is_distinct contains in
            (ground (arith, distinct), λ x. ground (arith, holds x))
      ]
]
