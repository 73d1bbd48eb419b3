-- ===== src/ExecutionLedger/Reload.antt =====
-- src/execution_ledger.py: what `load` takes from the rows that `save` writes.
use Prim.Native.Char.{Char, code}
use Prim.Native.String.{String}
use aieos_agent_harness.Base.{
  ◌<>◌, string_eq, ◌≡◌, refl, sym, ap, ◌∙◌, true, false, some, List, [], ◌∷◌, map, arith,
}
use aieos_agent_harness.Base.Lists.{All}
use aieos_agent_harness.Base.Search.{starts_with, occurs_in}
use aieos_agent_harness.State.Bars.{glue}
use aieos_agent_harness.State.Heads.{glue_assoc}
use aieos_agent_harness.State.Values.{append_glue}
use aieos_agent_harness.State.Cells.{is_space, strip, strip_end, skip_spaces}
use aieos_agent_harness.State.Record.{join}
use aieos_agent_harness.ExecutionLedger.{ExecutionLedger, ItemPhaseStatus, GroupGateResult, put}
use aieos_agent_harness.ExecutionLedger.File.{
  phase_row, gate_row, read_phase, is_header, load_line, load_from, Table, phase_table,
}
use aieos_agent_harness.ExecutionLedger.Patterns.{is_text, Reading}
use aieos_agent_harness.ExecutionLedger.Rows.{is_all}
use aieos_agent_harness.ExecutionLedger.Saved.{
  cells, row_of, phase_row-cells, IsSaved, timeless, read_phase-phase_row, join-glue,
}

-- A text that ends in a bar ends in no space.
strip_end-bar : (u : String) → strip_end (glue u "|") ≡ glue u "|"
unfolding strip_end glue
strip_end-bar String.[] = unfold is_space in refl
strip_end-bar (String.◌∷◌ c String.[]) = unfold is_space in refl
strip_end-bar (String.◌∷◌ c (String.◌∷◌ d u)) =
    let rest = strip_end-bar (String.◌∷◌ d u) in ground (arith, rest)

cells-bar : (v : String) (vs : List String) → (u : String) × (cells (v ∷ vs) ≡ glue u "|")
unfolding cells glue
cells-bar v [] = (glue " " (glue v " "), ap (glue " ") (sym (glue_assoc v " " "|")))
cells-bar v (w ∷ vs) =
    let (u, e) = cells-bar w vs in
    (
      glue " " (glue v (glue " |" u)),
      ap (λ t. glue " " (glue v (glue " |" t))) e
          ∙ ap (glue " ") (sym (glue_assoc v (glue " |" u) "|")),
    )

phase_row-bar : (s : ItemPhaseStatus) → (u : String) × (phase_row s ≡ glue "|" (glue u "|"))
phase_row-bar s = let (u, e) = row_bar s in (u, phase_row-cells s ∙ ap (glue "|") e)
  where
    row_bar : (s : ItemPhaseStatus) → (u : String) × (cells (row_of s) ≡ glue u "|")
    row_bar s = unfold row_of in cells-bar s.item_id _

strip-bars : (u : String) → strip (glue "|" (glue u "|")) ≡ glue "|" (glue u "|")
unfolding strip skip_spaces glue
strip-bars u = ap skip_spaces (unfold glue in strip_end-bar (glue "|" u)) ∙ unfold is_space in refl

strip-phase_row : (s : ItemPhaseStatus) → strip (phase_row s) ≡ phase_row s
strip-phase_row s = let (u, e) = phase_row-bar s in ap strip e ∙ strip-bars u ∙ sym e

-- A line that `load` takes for no heading of a section and no header of a table.
abbrev pub IsRow : String → Type 0
IsRow line =
    (occurs_in "## Item Phase Status" line ≡ false)
    × (occurs_in "## Group Gates" line ≡ false)
    × (is_header line ≡ false)

-- Statuses put into a ledger one after the other, without their times.
unfoldable pub put_all : List ItemPhaseStatus → ExecutionLedger → ExecutionLedger
put_all [] l = l
put_all (s ∷ statuses) l = put_all statuses (put s.item_id s.phase (timeless s) l)

load_line-phase_row :
    (re : Reading) (s : ItemPhaseStatus) (l : ExecutionLedger)
    → IsSaved re s
    → IsRow (phase_row s)
    → load_line re (phase_row s) (phase_table, l)
      ≡ (phase_table, put s.item_id s.phase (timeless s) l)
unfolding load_line
load_line-phase_row re s l h (a, b, c) =
    let stripped = strip-phase_row s in
    let read : read_phase re (strip (phase_row s)) ≡ some (timeless s) =
      ap (read_phase re) stripped ∙ read_phase-phase_row re s h in
    let header : is_header (strip (phase_row s)) ≡ false = ap is_header stripped ∙ c in
    rw (a, b, header, read, load_line) (unfold timeless in refl)

-- The rows that `save` writes for some statuses are read by `load` as those statuses without their
-- times, each put in its place, in the order of the rows. The texts of a status are such as a row
-- keeps apart, and its row is not taken for a heading.
pub load_from-phase_rows :
    (re : Reading) (statuses : List ItemPhaseStatus) (l : ExecutionLedger)
    → All (IsSaved re) statuses
    → All (λ s. IsRow (phase_row s)) statuses
    → load_from re (map phase_row statuses) (phase_table, l) ≡ (phase_table, put_all statuses l)
unfolding load_from put_all
load_from-phase_rows re [] l saved rows = refl
load_from-phase_rows re (s ∷ statuses) l (h, saved) (row, rows) =
    ap (load_from re (map phase_row statuses)) (load_line-phase_row re s l h row)
    ∙ load_from-phase_rows re statuses (put s.item_id s.phase (timeless s) l) saved rows

strip_end-char :
    (c : Char) (t : String)
    → is_space (code c) ≡ false
    → strip_end (String.◌∷◌ c t) ≡ String.◌∷◌ c (strip_end t)
unfolding strip_end
strip_end-char c t e = go (strip_end t) refl
  where
    go : (u : String) → strip_end t ≡ u → strip_end (String.◌∷◌ c t) ≡ String.◌∷◌ c (strip_end t)
    go String.[] p = rw (p, e, strip_end) refl
    go (String.◌∷◌ d u) p = rw (p, strip_end) refl

strip_end-word :
    (u t : String) → is_all is_text u ≡ true → strip_end (glue u t) ≡ glue u (strip_end t)
unfolding glue
strip_end-word String.[] t h = refl
strip_end-word (String.◌∷◌ c u) t h =
    strip_end-char c (glue u t) (unfold is_all is_text in ground (arith, h))
    ∙ ap (String.◌∷◌ c) (strip_end-word u t (unfold is_all in ground (arith, h)))

strip_end-group : (t : String) → strip_end (glue " Group" t) ≡ glue " Group" (strip_end t)
unfolding glue strip_end
strip_end-group t =
    let word = strip_end-word "Group" t (unfold is_all is_text is_space in refl) in
    let named : strip_end (glue "Group" t) ≡ glue "Group" (strip_end t) = word in
    rw (named, strip_end) refl

-- A row whose first cell begins with `Group`.
group_row-header : (t : String) → is_header (strip (glue "| Group" t)) ≡ true
unfolding glue strip
group_row-header t =
    let kept : strip_end (glue "| Group" t) ≡ glue "| Group" (strip_end t) =
      strip_end-word "|" (glue " Group" t) (unfold is_all is_text is_space in refl)
      ∙ ap (glue "|") (strip_end-group t) in
    ap (λ u. is_header (skip_spaces u)) kept
    ∙ unfold skip_spaces is_space is_header starts_with in refl

gate_row-named :
    (g : GroupGateResult) (rest : String)
    → g.group_name ≡ "Group" <> rest
    → (t : String) × (gate_row g ≡ glue "| Group" t)
gate_row-named g rest named =
    let behind : (ss : List String)
        → (t : String) × (join ("| " ∷ g.group_name ∷ ss) ≡ glue "| Group" t) =
      λ ss. (
        glue rest (join ss),
        join-glue "| " (g.group_name ∷ ss)
            ∙ ap (glue "| ") (
                join-glue g.group_name ss
                ∙ ap (λ n. glue n (join ss)) (named ∙ append_glue "Group" rest))
            ∙ unfold glue in refl,
      ) in
    unfold gate_row in behind _

-- A row of the gates whose group has a name that begins with `Group` is passed over by `load`, which takes
-- it for the header of the table: nothing of the ledger changes.
pub load_line-gate_row :
    (re : Reading) (g : GroupGateResult) (rest : String) (table : Table) (l : ExecutionLedger)
    → g.group_name ≡ "Group" <> rest
    → (load_line re (gate_row g) (table, l)).1 ≡ l
unfolding load_line
load_line-gate_row re g rest table l named =
    let (t, row) = gate_row-named g rest named in
    let header : is_header (strip (gate_row g)) ≡ true =
      ap (λ u. is_header (strip u)) row ∙ group_row-header t in
    ground (arith, header)
