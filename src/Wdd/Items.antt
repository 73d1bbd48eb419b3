-- ===== src/Wdd/Items.antt =====
-- src/wdd_parser.py: one work item of a WDD. What the module's regular expressions find in a text is a
-- parameter: of a search, the group that the code reads.
use Prim.Native.Char.{code}
use Prim.Native.String.{String}
use aieos_agent_harness.Base.{
  string_eq, Bool, true, false, not, ◌&&◌, ◌||◌, Option, none, some, List, [], ◌∷◌, map, ◌==◌, eqb,
  if◌then◌else◌,
}
use aieos_agent_harness.Base.Lists.{contains, keep}
use aieos_agent_harness.Base.Search.{occurs_in, split_on, starts_with}
use aieos_agent_harness.State.Cells.{strip}
use aieos_agent_harness.Wdd.{ExecutionItem}

-- `wdd_ids` is `findall` of `_DEPENDENCY_PATTERN`; `item_sections` and `short_sections` split the text
-- before each header of their format.
pub record ItemPatterns : Type 0 where
  pub wdd_id : String → Option String
  pub initiative : String → Option String
  pub item_sections : String → List String
  pub short_sections : String → List String
  pub item_id : String → Option String
  pub intent : String → Option String
  pub header_title : String → Option String
  pub in_scope : String → Option String
  pub assignee : String → Option String
  pub complexity : String → Option String
  pub criteria_section : String → Option String
  pub criteria : String → List String
  pub dependencies_section : String → Option String
  pub wdd_ids : String → List String
  -- `str.lower` and `str.upper`
  pub lower : String → String
  pub upper : String → String

unfoldable pub first_or : String → List String → String
first_or d [] = d
first_or d (x ∷ xs) = x

unfoldable pub stripped_or : String → Option String → String
stripped_or d none = d
stripped_or d (some s) = strip s

-- `parts[1]` where there are three parts or more
unfoldable pub second_of_three : List String → String
second_of_three (a ∷ b ∷ c ∷ parts) = b
second_of_three _ = ""

unfoldable pub lstrip_dash : String → String
lstrip_dash String.[] = String.[]
lstrip_dash (String.◌∷◌ c s) =
    let rest = lstrip_dash s in if eqb (code c) 45 || eqb (code c) 32 then rest else String.◌∷◌ c s

-- What the loop keeps: each id once, and not the item's own.
unfoldable pub unique_from : String → List String → List String → List String
unique_from self seen [] = []
unique_from self seen (d ∷ ds) = elim (not (contains seen d) && not (d == self)) [
  | true ↦ d ∷ unique_from self (d ∷ seen) ds
  | false ↦ unique_from self seen ds
]

module _ (re : ItemPatterns) where
  unfoldable pub normalize_assignee : String → String
  normalize_assignee raw =
      let cleaned = re.lower (strip raw) in
      if occurs_in "ai" cleaned
      then "AI"
      else if occurs_in "human" cleaned
      then "Human"
      else if occurs_in "either" cleaned
      then "Either"
      else strip raw

  unfoldable pub normalize_complexity : String → String
  normalize_complexity raw = re.upper (strip raw)

  -- The initiative by the id's second part, and by its own field where there is one.
  unfoldable pub extract_wdd_metadata : String → String × String
  extract_wdd_metadata content =
      let id = stripped_or "" (re.wdd_id content) in
      let derived = if id == "" then "" else second_of_three (split_on 45 id) in
      (id, stripped_or derived (re.initiative content))

  unfoldable pub has_item_id : String → Bool
  has_item_id section = elim (re.item_id section) [ none ↦ false | some _ ↦ true ]

  unfoldable pub split_wdd_items : String → List String
  split_wdd_items content = elim (keep has_item_id (re.item_sections content)) [
    | [] ↦ keep has_item_id (re.short_sections content)
    | s ∷ sections ↦ s ∷ sections
  ]

  -- The first line of the intent, or else the title of the header.
  unfoldable pub title_of : String → String
  title_of section =
      let title : String = elim (re.intent section) [
        | none ↦ ""
        | some intent ↦ strip (first_or "" (split_on 10 (strip intent)))
      ] in
      if title == "" then stripped_or "" (re.header_title section) else title

  unfoldable pub item_description : String → String
  item_description section = elim (re.intent section) [
    | some intent ↦ strip intent
    | none ↦ stripped_or "" (re.in_scope section)
  ]

  unfoldable pub is_listed : String → Bool
  is_listed line = starts_with "- " (strip line)

  unfoldable pub listed : String → String
  listed line = lstrip_dash (strip line)

  unfoldable pub criteria_of : String → List String
  criteria_of section = elim (re.criteria_section section) [
    | none ↦ []
    | some text ↦ elim (re.criteria text) [
      | [] ↦ map listed (keep is_listed (split_on 10 (strip text)))
      | c ∷ criteria ↦ c ∷ criteria
    ]
  ]

  unfoldable pub is_absent : String → Bool
  is_absent text = re.lower text == "none" || re.lower text == "n/a" || re.lower text == ""

  unfoldable pub dependencies_of : String → String → List String
  dependencies_of item_id section = elim (re.dependencies_section section) [
    | none ↦ []
    | some text ↦
        if is_absent (strip text) then [] else unique_from item_id [] (re.wdd_ids (strip text))
  ]

  unfoldable pub parse_item_section : String → Option ExecutionItem
  parse_item_section section = elim (re.item_id section) [
    | none ↦ none
    | some found ↦ some (record {
      id = strip found;
      title = title_of section;
      description = item_description section;
      assignee_type = elim (re.assignee section) [
        | none ↦ "AI"
        | some raw ↦ normalize_assignee raw
      ];
      acceptance_criteria = criteria_of section;
      complexity = elim (re.complexity section) [
        | none ↦ "M"
        | some raw ↦ normalize_complexity raw
      ];
      dependencies = dependencies_of (strip found) section;
      work_group = "";
      parallel_safe = true;
      files_touched = [];
    })
  ]
