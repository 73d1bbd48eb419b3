-- ===== src/State/Record.antt =====
-- src/state.py: the writers of Document Control rows, of the engagement record's state block, and
-- of the journal. `expand` is `re`'s reading of a replacement template, `none` where it raises; a
-- text without a backslash stands for itself.
use Prim.Native.Char.{code}
use Prim.Native.String.{String}
use aieos_agent_harness.Base.{
  ℕ, ◌-◌, zero, suc, ◌<>◌, string_eq, decimal, Bool, true, false, not, ◌||◌, ◌&&◌, Option, none,
  some, List, [], ◌∷◌, ◌++◌, map, ◌==◌, eqb, leb, if◌then◌else◌,
}
use aieos_agent_harness.Base.Dict.{Dict}
use aieos_agent_harness.Adapter.{Outcome, ok, err}
use aieos_agent_harness.State.{StateError, no_block, bad_template, bad_count}
use aieos_agent_harness.State.Cells.{
  Token, escaped, artifact_id, cell, cell_at, set_cell, has_row, skip_spaces, bar, text_size, upto,
}

-- The line boundaries of `str.splitlines`.
is_break : ℕ → Bool
is_break c =
    (leb 10 c && leb c 13) || (leb 28 c && leb c 30) || eqb c 133 || (leb 8232 c && leb c 8233)

starts_newline : String → Bool
starts_newline String.[] = false
starts_newline (String.◌∷◌ c s) = eqb (code c) 10

-- `text.splitlines(keepends=True)`: `\r\n` is one boundary.
unfoldable pub split_lines : String → List String
unfolding is_break starts_newline
split_lines String.[] = []
split_lines (String.◌∷◌ c s) =
    let rest = split_lines s in
    if is_break (code c) && not (eqb (code c) 13 && starts_newline s)
    then String.◌∷◌ c "" ∷ rest
    else elim rest [ [] ↦ String.◌∷◌ c "" ∷ [] | l ∷ ls ↦ String.◌∷◌ c l ∷ ls ]

unfoldable pub join : List String → String
join [] = ""
join (l ∷ ls) = l <> join ls

-- `line.lstrip().startswith("|")`
unfoldable pub in_table : String → Bool
in_table line = elim (bar (skip_spaces line)) [ none ↦ false | some _ ↦ true ]

unfoldable pub ends_newline : String → Bool
ends_newline String.[] = false
ends_newline (String.◌∷◌ c String.[]) = eqb (code c) 10
ends_newline (String.◌∷◌ c s) = ends_newline s

unfoldable pub row_line : String × String → String
row_line (label, value) = "| " <> label <> " | " <> value <> " |\n"

-- The rows put behind the table that `line` belongs to.
unfoldable pub behind_table : List String → String → List String → List String
behind_table rows line [] = (if ends_newline line then line else line <> "\n") ∷ rows
behind_table rows line (next ∷ rest) =
    let further = behind_table rows next rest in
    if in_table next
    then line ∷ further
    else (if ends_newline line then line else line <> "\n") ∷ rows ++ next ∷ rest

-- The search for the line of the `Artifact ID` row; `none` is the `StopIteration` of `next`.
unfoldable pub insert_rows : List String → List String → Option (List String)
insert_rows rows [] = none
insert_rows rows (line ∷ lines) =
    let later = insert_rows rows lines in
    if has_row artifact_id line
    then some (behind_table rows line lines)
    else elim later [ none ↦ none | some ls ↦ some (line ∷ ls) ]

-- The loop over the rows: the text with the rows it has updated, and the rows it has not.
unfoldable pub update_rows :
    (String → Option String)
    → Dict String String
    → String
    → Outcome StateError (String × Dict String String)
update_rows expand [] text = ok (text, [])
update_rows expand ((label, value) ∷ rows) text = elim (cell (escaped label) text) [
  | none ↦ elim (update_rows expand rows text) [
    | err e ↦ err e
    | ok (text', missing) ↦ ok (text', (label, value) ∷ missing)
  ]
  | some _ ↦ elim (expand value) [
    | none ↦ err (bad_template value)
    | some v ↦ update_rows expand rows (set_cell (escaped label) v text)
  ]
]

unfoldable pub upsert_document_control_rows :
    (String → Option String) → String → Dict String String → Outcome StateError String
upsert_document_control_rows expand text rows =
    if has_row artifact_id text
    then elim (update_rows expand rows text) [
      | err e ↦ err e
      | ok (text', []) ↦ ok text'
      | ok (text', row ∷ missing) ↦
          elim (insert_rows (map row_line (row ∷ missing)) (split_lines text')) [
            | none ↦ err no_block
            | some lines ↦ ok (join lines)
          ]
    ]
    else err no_block

pub record ErStateBlock : Type 0 where
  pub current_layer : String
  pub current_artifact : String
  pub current_step : String
  pub frozen_count : ℕ
  pub next_action : String
  pub blocking_on : String
  pub last_updated : String

-- `_extract`
unfoldable pub extract : String → String → String
extract text field = elim (cell (escaped field) text) [ none ↦ "" | some v ↦ v ]

-- `int_of` is Python's `int` of a text that is no negative number, `none` where it raises.
unfoldable pub read_er_state_block :
    (int_of : String → Option ℕ) → String → Outcome StateError ErStateBlock
read_er_state_block int_of text =
    let count = extract text "Frozen Count" in
    elim (int_of (if count == "" then "0" else count)) [
      | none ↦ err (bad_count count)
      | some n ↦ ok (record {
        current_layer = extract text "Current Layer";
        current_artifact = extract text "Current Artifact";
        current_step = extract text "Current Step";
        frozen_count = n;
        next_action = extract text "Next Action";
        blocking_on = extract text "Blocking On";
        last_updated = extract text "Last Updated";
      })
    ]

-- `re.sub` of every match. Each round takes a character or more: the size of the text is enough.
unfoldable pub set_cells : List Token → String → ℕ → String → String
set_cells ts value zero s = s
set_cells ts value (suc n) String.[] = String.[]
set_cells ts value (suc n) (String.◌∷◌ c s) =
    let text = String.◌∷◌ c s in
    elim (cell_at ts text) [
      | some (after, _, rest) ↦
          upto (text_size text - text_size after) text
            (" " <> value <> " |" <> set_cells ts value n rest)
      | none ↦ String.◌∷◌ c (set_cells ts value n s)
    ]

unfoldable pub write_fields :
    (String → Option String) → Dict String String → String → Outcome StateError String
write_fields expand [] text = ok text
write_fields expand ((field, value) ∷ rest) text = elim (expand value) [
  | none ↦ err (bad_template value)
  | some v ↦ write_fields expand rest (set_cells (escaped field) v (text_size text) text)
]

unfoldable pub write_er_state_block :
    (String → Option String) → String → ErStateBlock → Outcome StateError String
unfolding decimal
write_er_state_block expand text state =
    write_fields expand
      (("Current Layer", state.current_layer)
        ∷ ("Current Artifact", state.current_artifact)
        ∷ ("Current Step", state.current_step)
        ∷ ("Frozen Count", decimal state.frozen_count)
        ∷ ("Next Action", state.next_action)
        ∷ ("Blocking On", state.blocking_on)
        ∷ ("Last Updated", state.last_updated)
        ∷ [])
      text

unfoldable pub journal_rows : Dict String String → String
journal_rows [] = ""
journal_rows ((key, value) ∷ fields) =
    "| " <> key <> " | " <> value <> " |\n" <> journal_rows fields

-- The journal with an entry behind it; a journal that is not there is created.
unfoldable pub append_journal_entry :
    (now : String) → Option String → String → Dict String String → String
append_journal_entry now journal entry_type fields =
    elim journal [ none ↦ "" | some text ↦ text ]
    <> "\n### "
    <> entry_type
    <> " -- "
    <> now
    <> "\n\n| Field | Value |\n|-------|-------|\n"
    <> journal_rows fields
