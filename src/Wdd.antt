-- ===== src/Wdd.antt =====
-- src/wdd_parser.py and src/context_builder.py: the data of a parsed WDD plan, and the context of a
-- work item. What the regular expressions of the parser find is a parameter of its modules.
pub mod Items
pub mod Grouping
pub mod Overlay
pub mod Stores
pub mod Placement
pub mod Homes
pub mod Membership
pub mod Dependencies
mod Tests
use aieos_agent_harness.Base.{String, Bool, List, [], ◌∷◌, ℕ}
use aieos_agent_harness.Base.Dict.{Dict}

pub record ExecutionItem : Type 0 where
  pub id : String
  pub title : String
  pub description : String
  pub assignee_type : String
  pub acceptance_criteria : List String
  pub complexity : String
  pub dependencies : List String
  pub work_group : String
  pub parallel_safe : Bool
  pub files_touched : List String

pub record ExecutionGroup : Type 0 where
  pub name : String
  pub items : List ExecutionItem
  pub mode : String
  pub dependencies : List String

pub record ExecutionPlan : Type 0 where
  pub wdd_id : String
  pub initiative : String
  pub groups : List ExecutionGroup
  pub baseline_tests : ℕ
  pub baseline_build_clean : Bool

-- `PHASES`
abbrev pub phases : List String
phases = "tests" ∷ "plan" ∷ "code" ∷ "review" ∷ []

pub record ItemContext : Type 0 where
  pub item : ExecutionItem
  pub wdd_item_text : String
  pub tdd_sections : String
  pub acf_sections : String
  pub dcf_sections : String
  pub phase_prompt : String
  pub prior_phase_outputs : Dict String String

-- The two searches by regular expression: the section of an item in the WDD, and the sections of
-- the TDD that mention an item.
pub record Extractors : Type 0 where
  pub wdd_item_section : String → String → String
  pub tdd_sections : ExecutionItem → String → String

unfoldable pub build_context :
    Extractors
    → ExecutionItem
    → (wdd tdd acf dcf prompt : String) → Dict String String
    → ItemContext
build_context extract item wdd tdd acf dcf prompt prior = record {
  item = item;
  wdd_item_text = extract.wdd_item_section item.id wdd;
  tdd_sections = extract.tdd_sections item tdd;
  acf_sections = acf;
  dcf_sections = dcf;
  phase_prompt = prompt;
  prior_phase_outputs = prior;
}
