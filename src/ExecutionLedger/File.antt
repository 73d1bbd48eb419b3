-- ===== src/ExecutionLedger/File.antt =====
-- src/execution_ledger.py: `save` and `load`, on the lines of the Markdown file.
use Prim.Native.Char.{code}
use Prim.Native.String.{String}
use aieos_agent_harness.Base.{
  zero, suc, ◌<>◌, decimal, string_eq, Bool, ◌&&◌, ◌||◌, Option, none, some, List, [], ◌∷◌, ◌++◌,
  ◌==◌, eqb, if◌then◌else◌,
}
use aieos_agent_harness.Base.Integer.{ℤ, pos, negsuc}
use aieos_agent_harness.Base.Dict
use aieos_agent_harness.Base.Dict.{Dict}
use aieos_agent_harness.Base.Search.{starts_with, occurs_in}
use aieos_agent_harness.State.Cells.{strip}
use aieos_agent_harness.State.Record.{join}
use aieos_agent_harness.Wdd.{phases}
use aieos_agent_harness.ExecutionLedger.{ExecutionLedger, ItemPhaseStatus, GroupGateResult, put}
use aieos_agent_harness.ExecutionLedger.Patterns.{
  match_pieces, Reading, phase_pattern, gate_pattern,
}

-- `x or "-"`
unfoldable pub or_dash : Option String → String
or_dash none = "-"
or_dash (some s) = if s == "" then "-" else s

-- `x if x != "-" else None`
unfoldable pub from_dash : String → Option String
from_dash s = if s == "-" then none else some s

-- `s.replace("|", "\\|")`
unfoldable pub escape_bars : String → String
escape_bars String.[] = String.[]
escape_bars (String.◌∷◌ c s) =
    let rest = String.◌∷◌ c (escape_bars s) in if eqb (code c) b'|' then "\\" <> rest else rest

-- `s.replace("\\|", "|")`
unfoldable pub unescape_bars : String → String
unescape_bars String.[] = String.[]
unescape_bars (String.◌∷◌ c s) =
    let rest = unescape_bars s in
    if eqb (code c) 92 && starts_with "|" s then rest else String.◌∷◌ c rest

unfoldable pub phase_row : ItemPhaseStatus → String
phase_row s = join (
    "| "
    ∷ s.item_id
    ∷ " | "
    ∷ s.phase
    ∷ " | "
    ∷ s.status
    ∷ " | "
    ∷ or_dash s.agent_id
    ∷ " | "
    ∷ escape_bars (or_dash s.validation_status)
    ∷ " | "
    ∷ decimal s.convergence_iterations
    ∷ " | "
    ∷ or_dash s.output_path
    ∷ " |"
    ∷ [])

unfoldable pub delta_text : ℤ → String
delta_text (pos n) = decimal n
delta_text (negsuc n) = "-" <> decimal (suc n)

unfoldable pub gate_row : GroupGateResult → String
gate_row g = join (
    "| "
    ∷ g.group_name
    ∷ " | "
    ∷ g.status
    ∷ " | "
    ∷ decimal g.tests_before
    ∷ " | "
    ∷ decimal g.tests_after
    ∷ " | "
    ∷ delta_text g.tests_delta
    ∷ " | "
    ∷ (if g.lint_clean then "clean" else "DIRTY")
    ∷ " | "
    ∷ decimal g.items_completed
    ∷ "/"
    ∷ decimal g.items_total
    ∷ " |"
    ∷ [])

-- The items in the order of `sorted`, which is a parameter: their ids.
unfoldable pub rows_of : List String → Dict String ItemPhaseStatus → List String
rows_of [] statuses = []
rows_of (phase ∷ rest) statuses = elim (Dict.get statuses phase) [
  | none ↦ rows_of rest statuses
  | some s ↦ phase_row s ∷ rows_of rest statuses
]

unfoldable pub phase_rows : List String → ExecutionLedger → List String
phase_rows [] l = []
phase_rows (id ∷ ids) l = rows_of phases (Dict.get_or l.phases id []) ++ phase_rows ids l

unfoldable pub gate_rows : List String → ExecutionLedger → List String
gate_rows [] l = []
gate_rows (name ∷ names) l = elim (Dict.get l.gates name) [
  | none ↦ gate_rows names l
  | some g ↦ gate_row g ∷ gate_rows names l
]

-- The lines of `save`.
unfoldable pub save_lines :
    (sorted : List String → List String) → (now : String) → ExecutionLedger → List String
save_lines sorted now l =
    "# Execution Ledger"
      ∷ ""
      ∷ ("Last updated: " <> now)
      ∷ ""
      ∷ "## Item Phase Status"
      ∷ ""
      ∷ "| Item ID | Phase | Status | Agent | Validation | Iterations | Output |"
      ∷ "|---------|-------|--------|-------|------------|------------|--------|"
      ∷ phase_rows (sorted (Dict.keys l.phases)) l
    ++ (""
        ∷ "## Group Gates"
        ∷ ""
        ∷ "| Group | Status | Tests Before | Tests After | Delta | Lint | Items |"
        ∷ "|-------|--------|-------------|-------------|-------|------|-------|"
        ∷ gate_rows (sorted (Dict.keys l.gates)) l)

pub data Table : Type 0 where
  neither phase_table gate_table : Table

unfoldable pub is_header : String → Bool
is_header line =
    starts_with "|---" line || starts_with "| Item ID" line || starts_with "| Group" line

module _ (re : Reading) where
  -- A row of the phases, read.
  unfoldable pub read_phase : String → Option ItemPhaseStatus
  read_phase line = elim (match_pieces (phase_pattern re) line) [
    | some (id ∷ phase ∷ status ∷ agent ∷ validation ∷ iterations ∷ output ∷ []) ↦ some (record {
      item_id = strip id;
      phase = strip phase;
      status = strip status;
      agent_id = from_dash (strip agent);
      started = none;
      completed = none;
      output_path = from_dash (strip output);
      validation_status = from_dash (unescape_bars (strip validation));
      convergence_iterations = re.int iterations;
    })
    | _ ↦ none
  ]

  -- `int` of digits behind a sign, if there is one
  unfoldable pub integer_of : String → ℤ
  integer_of String.[] = pos (re.int "")
  integer_of (String.◌∷◌ c s) =
      if eqb (code c) b'-'
      then elim (re.int s) [ zero ↦ pos 0 | suc n ↦ negsuc n ]
      else pos (re.int (String.◌∷◌ c s))

  -- A row of the gates, read.
  unfoldable pub read_gate : String → Option GroupGateResult
  read_gate line = elim (match_pieces (gate_pattern re) line) [
    | some (name ∷ status ∷ before ∷ after ∷ delta ∷ lint ∷ completed ∷ total ∷ []) ↦ some (record {
      group_name = strip name;
      status = strip status;
      tests_before = re.int before;
      tests_after = re.int after;
      tests_delta = integer_of delta;
      lint_clean = strip lint == "clean";
      items_completed = re.int completed;
      items_total = re.int total;
      gate_file_path = "";
    })
    | _ ↦ none
  ]

  -- One round of the loop of `load`.
  unfoldable pub load_line : String → Table × ExecutionLedger → Table × ExecutionLedger
  load_line line (table, l) =
      if occurs_in "## Item Phase Status" line
      then (phase_table, l)
      else if occurs_in "## Group Gates" line
      then (gate_table, l)
      else if is_header (strip line)
      then (table, l)
      else elim table [
        | neither ↦ (neither, l)
        | phase_table ↦ (
          phase_table,
          elim (read_phase (strip line)) [ none ↦ l | some s ↦ put s.item_id s.phase s l ],
        )
        | gate_table ↦ (
          gate_table,
          elim (read_gate (strip line)) [
            | none ↦ l
            | some g ↦ record l { gates = Dict.insert g.group_name g l.gates }
          ],
        )
      ]

  unfoldable pub load_from : List String → Table × ExecutionLedger → Table × ExecutionLedger
  load_from [] state = state
  load_from (line ∷ lines) state = load_from lines (load_line line state)

  unfoldable pub load_lines : List String → ExecutionLedger
  load_lines lines = (load_from lines (neither, record { phases = []; gates = [] })).1
