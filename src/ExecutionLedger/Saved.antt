-- ===== src/ExecutionLedger/Saved.antt =====
-- src/execution_ledger.py: a row of the phases as `save` writes it, and its reading.
use Prim.Native.String.{String}
use text.Mathlib.TextEquality.{eq_iff}
use aieos_agent_harness.Base.{
  ℕ, decimal, string_eq, ◌≡◌, ◌≢◌, refl, ap, ◌∙◌, Bool, true, false, Option, none, some, List, [],
  ◌∷◌, arith,
}
use aieos_agent_harness.State.Bars.{glue}
use aieos_agent_harness.State.Values.{append_glue, is_value, is_inner}
use aieos_agent_harness.State.Cells.{is_space, strip, strip_end, skip_spaces}
use aieos_agent_harness.State.Record.{join}
use aieos_agent_harness.Base.Search.{starts_with}
use aieos_agent_harness.ExecutionLedger.{ItemPhaseStatus}
use aieos_agent_harness.ExecutionLedger.File.{
  or_dash, from_dash, escape_bars, unescape_bars, phase_row, read_phase,
}
use aieos_agent_harness.ExecutionLedger.Patterns.{
  Piece, match_pieces, one, is_text, is_cell, Reading, cell_of, open_cell_of, phase_pattern,
}
use aieos_agent_harness.ExecutionLedger.Rows.{is_all, in_cell, match-cell, match-open_cell}

match-word :
    (p : ℕ → Bool) (ps : List Piece) (v rest : String) (r : List String)
    → v ≢ ""
    → is_all p v ≡ true
    → is_all is_text v ≡ true
    → p 32 ≡ false
    → match_pieces ps rest ≡ some r
    → match_pieces (cell_of p ps) (in_cell v rest) ≡ some (v ∷ r)
match-word p ps String.[] rest r n h t space m = absurd (n refl)
match-word p ps (String.◌∷◌ c u) rest r n h t space m =
    match-cell p ps c u rest r h (unfold is_all is_text in ground (arith, t)) space m

inner-cell : (v : String) → is_inner v ≡ true → is_all is_cell v ≡ true
unfolding is_inner is_all is_cell
inner-cell String.[] h = refl
inner-cell (String.◌∷◌ c String.[]) h = ground (arith, h)
inner-cell (String.◌∷◌ c (String.◌∷◌ d v)) h =
    let rest = inner-cell (String.◌∷◌ d v) in ground (arith, rest, h)

value-inner : (v : String) → is_value v ≡ true → is_inner v ≡ true
unfolding is_value is_inner
value-inner String.[] h = refl
value-inner (String.◌∷◌ c v) h = ground (arith, h)

match-value :
    (ps : List Piece) (v rest : String) (r : List String)
    → v ≢ ""
    → is_value v ≡ true
    → match_pieces ps rest ≡ some r
    → match_pieces (open_cell_of ps) (in_cell v rest) ≡ some (glue v " " ∷ r)
unfolding glue
match-value ps String.[] rest r n h m = absurd (n refl)
match-value ps (String.◌∷◌ c u) rest r n h m =
    match-open_cell ps c u rest r (inner-cell (String.◌∷◌ c u) (value-inner (String.◌∷◌ c u) h))
      (unfold is_value in ground (arith, h)) m

strip_end-glue : (v : String) → strip_end (glue v " ") ≡ strip_end v
unfolding strip_end glue
strip_end-glue String.[] = unfold is_space in refl
strip_end-glue (String.◌∷◌ c v) = ground (arith, strip_end-glue v)

strip_end-inner : (v : String) → is_inner v ≡ true → strip_end v ≡ v
unfolding strip_end is_inner
strip_end-inner String.[] h = refl
strip_end-inner (String.◌∷◌ c String.[]) h = ground (arith, h)
strip_end-inner (String.◌∷◌ c (String.◌∷◌ d v)) h =
    let rest = strip_end-inner (String.◌∷◌ d v) (ground (arith, h)) in ground (arith, rest)

skip_spaces-value : (v : String) → is_value v ≡ true → skip_spaces v ≡ v
unfolding skip_spaces is_value
skip_spaces-value String.[] h = refl
skip_spaces-value (String.◌∷◌ c v) h = ground (arith, h)

strip-value : (v : String) → is_value v ≡ true → strip (glue v " ") ≡ v
unfolding strip
strip-value v h =
    ap skip_spaces (strip_end-glue v ∙ strip_end-inner v (value-inner v h)) ∙ skip_spaces-value v h

strip_end-text : (v : String) → is_all is_text v ≡ true → strip_end v ≡ v
unfolding strip_end is_all is_text
strip_end-text String.[] h = refl
strip_end-text (String.◌∷◌ c String.[]) h = ground (arith, h)
strip_end-text (String.◌∷◌ c (String.◌∷◌ d v)) h =
    let rest = strip_end-text (String.◌∷◌ d v) (ground (arith, h)) in ground (arith, rest)

skip_spaces-text : (v : String) → is_all is_text v ≡ true → skip_spaces v ≡ v
unfolding skip_spaces is_all is_text
skip_spaces-text String.[] h = refl
skip_spaces-text (String.◌∷◌ c v) h = ground (arith, h)

strip-text : (v : String) → is_all is_text v ≡ true → strip v ≡ v
unfolding strip
strip-text v h = ap skip_spaces (strip_end-text v h) ∙ skip_spaces-text v h

escape-cell : (v : String) → is_all is_cell v ≡ true → escape_bars v ≡ v
unfolding escape_bars is_all is_cell
escape-cell String.[] h = refl
escape-cell (String.◌∷◌ c v) h = let rest = escape-cell v in ground (arith, rest, h)

starts-cell : (v : String) → is_all is_cell v ≡ true → starts_with "|" v ≡ false
unfolding starts_with is_all is_cell
starts-cell String.[] h = refl
starts-cell (String.◌∷◌ c v) h = ground (arith, h)

unescape-cell : (v : String) → is_all is_cell v ≡ true → unescape_bars v ≡ v
unfolding unescape_bars is_all
unescape-cell String.[] h = refl
unescape-cell (String.◌∷◌ c v) h =
    let rest = unescape-cell v in let next = starts-cell v in ground (arith, rest, next, h)

-- What a row keeps apart from `None`: no text that is empty, and no single dash.
abbrev pub IsKept : Option String → Type 0
IsKept none = Unit
IsKept (some v) = (v ≢ "") × (v ≢ "-") × (is_value v ≡ true)

kept-dash : (o : Option String) → IsKept o → from_dash (or_dash o) ≡ o
unfolding from_dash or_dash string_eq
kept-dash none h = refl
kept-dash (some v) h = unfold string_eq in ground arith

dash_empty : ◌≢◌ {A = String} "-" ""
dash_empty e = let k = (eq_iff "-" "").1 e in cc

kept-value : (o : Option String) → IsKept o → (or_dash o ≢ "") × (is_value (or_dash o) ≡ true)
unfolding or_dash
kept-value none h = (λ e. dash_empty e, unfold is_value is_inner is_space in refl)
kept-value (some v) h = (ground arith, ground arith)

pub join-glue : (s : String) (rest : List String) → join (s ∷ rest) ≡ glue s (join rest)
unfolding join
join-glue s rest = append_glue s (join rest)

-- The cells of a row behind its first bar.
unfoldable pub cells : List String → String
cells [] = ""
cells (v ∷ vs) = in_cell v (cells vs)

-- A row as a list of texts: a cell and what parts it from the next.
parted : List String → List String
parted [] = []
parted (v ∷ []) = v ∷ " |" ∷ []
parted (v ∷ w ∷ vs) = v ∷ " | " ∷ parted (w ∷ vs)

join-parted : (v : String) (vs : List String) → glue " " (join (parted (v ∷ vs))) ≡ cells (v ∷ vs)
unfolding parted cells glue
join-parted v [] = ap (glue " ") (
    join-glue v (" |" ∷ [])
    ∙ ap (glue v) (join-glue " |" [] ∙ ap (glue " |") (unfold join in refl)))
join-parted v (w ∷ vs) = ap (glue " ") (
    join-glue v (" | " ∷ parted (w ∷ vs))
    ∙ ap (glue v) (join-glue " | " (parted (w ∷ vs)) ∙ ap (glue " |") (join-parted w vs)))

unfoldable pub row_of : ItemPhaseStatus → List String
row_of s =
    s.item_id
    ∷ s.phase
    ∷ s.status
    ∷ or_dash s.agent_id
    ∷ escape_bars (or_dash s.validation_status)
    ∷ decimal s.convergence_iterations
    ∷ or_dash s.output_path
    ∷ []

pub phase_row-cells : (s : ItemPhaseStatus) → phase_row s ≡ glue "|" (cells (row_of s))
unfolding phase_row row_of parted glue
phase_row-cells s =
    let rest : List String =
      s.phase
      ∷ s.status
      ∷ or_dash s.agent_id
      ∷ escape_bars (or_dash s.validation_status)
      ∷ decimal s.convergence_iterations
      ∷ or_dash s.output_path
      ∷ [] in
    let whole : phase_row s ≡ glue "| " (join (parted (s.item_id ∷ rest))) =
      join-glue "| " (parted (s.item_id ∷ rest)) in
    let behind : glue "|" (glue " " (join (parted (s.item_id ∷ rest))))
        ≡ glue "|" (cells (s.item_id ∷ rest)) =
      ap (glue "|") (join-parted s.item_id rest) in
    whole ∙ behind

-- The conditions under which a status is kept by the file: its id is one word, its phase and status are
-- words, the number's digits are digits and are read as the number, and its other texts have no bar,
-- no line break and no outer space, are not empty and are not a dash.
pub record IsSaved (re : Reading) (s : ItemPhaseStatus) : Type 0 where
  pub spaces_apart : (re.is_word 32 ≡ false) × (re.is_digit 32 ≡ false)
  pub id_is_word : (s.item_id ≢ "") × (is_all is_text s.item_id ≡ true)
  pub phase_is_word :
      (s.phase ≢ "") × (is_all re.is_word s.phase ≡ true) × (is_all is_text s.phase ≡ true)
  pub status_is_word :
      (s.status ≢ "") × (is_all re.is_word s.status ≡ true) × (is_all is_text s.status ≡ true)
  pub number_reads :
      (decimal s.convergence_iterations ≢ "")
      × (is_all re.is_digit (decimal s.convergence_iterations) ≡ true)
      × (is_all is_text (decimal s.convergence_iterations) ≡ true)
      × (re.int (decimal s.convergence_iterations) ≡ s.convergence_iterations)
  pub agent_kept : IsKept s.agent_id
  pub validation_kept : IsKept s.validation_status
  pub output_kept : IsKept s.output_path

matched :
    (re : Reading) (s : ItemPhaseStatus)
    → IsSaved re s
    → match_pieces (phase_pattern re) (phase_row s)
      ≡ some (
          s.item_id
          ∷ s.phase
          ∷ s.status
          ∷ glue (or_dash s.agent_id) " "
          ∷ glue (or_dash s.validation_status) " "
          ∷ decimal s.convergence_iterations
          ∷ glue (or_dash s.output_path) " "
          ∷ [])
matched re s h =
    let (word, digit) = h.spaces_apart in
    let (a, av) = kept-value s.agent_id h.agent_kept in
    let (v, vv) = kept-value s.validation_status h.validation_kept in
    let (o, ov) = kept-value s.output_path h.output_kept in
    let plain =
      escape-cell (or_dash s.validation_status)
        (inner-cell (or_dash s.validation_status) (value-inner (or_dash s.validation_status) vv)) in
    let output = match-value [] (or_dash s.output_path) "" [] o ov (unfold match_pieces in refl) in
    let number =
      match-word re.is_digit (open_cell_of []) (decimal s.convergence_iterations) _ _
        h.number_reads.0 h.number_reads.1 h.number_reads.2 digit output in
    let validation = match-value _ (or_dash s.validation_status) _ _ v vv number in
    let agent = match-value _ (or_dash s.agent_id) _ _ a av validation in
    let status =
      match-word re.is_word _ s.status _ _ h.status_is_word.0 h.status_is_word.1 h.status_is_word.2
        word agent in
    let phase =
      match-word re.is_word _ s.phase _ _ h.phase_is_word.0 h.phase_is_word.1 h.phase_is_word.2 word
        status in
    let id =
      match-word is_text _ s.item_id _ _ h.id_is_word.0 h.id_is_word.1 h.id_is_word.1
        (unfold is_text is_space in refl) phase in
    ap (match_pieces (phase_pattern re)) (phase_row-cells s)
    ∙ (unfold phase_pattern match_pieces one glue cells row_of in rw plain id)

-- A status without its times.
unfoldable pub timeless : ItemPhaseStatus → ItemPhaseStatus
timeless s = record s { started = none; completed = none }

-- A row that `save` writes for a status is read by `load` as that status without its times, where its
-- texts are such as the row keeps apart: the id one word, the phase and the status words, the others
-- without a bar, a line break or an outer space, neither empty nor a dash.
pub read_phase-phase_row :
    (re : Reading) (s : ItemPhaseStatus)
    → IsSaved re s
    → read_phase re (phase_row s) ≡ some (timeless s)
unfolding read_phase timeless
read_phase-phase_row re s h =
    let row = matched re s h in
    let (a, av) = kept-value s.agent_id h.agent_kept in
    let (v, vv) = kept-value s.validation_status h.validation_kept in
    let (o, ov) = kept-value s.output_path h.output_kept in
    let id = strip-text s.item_id h.id_is_word.1 in
    let phase = strip-text s.phase h.phase_is_word.2 in
    let status = strip-text s.status h.status_is_word.2 in
    let agent =
      ap from_dash (strip-value (or_dash s.agent_id) av) ∙ kept-dash s.agent_id h.agent_kept in
    let output =
      ap from_dash (strip-value (or_dash s.output_path) ov)
      ∙ kept-dash s.output_path h.output_kept in
    let validation =
      ap (λ t. from_dash (unescape_bars t)) (strip-value (or_dash s.validation_status) vv)
      ∙ ap from_dash (
          unescape-cell (or_dash s.validation_status) (
            inner-cell (or_dash s.validation_status)
              (value-inner (or_dash s.validation_status) vv)))
      ∙ kept-dash s.validation_status h.validation_kept in
    rw (row, id, phase, status, agent, output, validation, h.number_reads.3, read_phase) refl
