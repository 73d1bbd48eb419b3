-- ===== src/ExecutionLedger/Patterns.antt =====
-- src/execution_ledger.py: the patterns of the rows, and a matcher that backtracks as `re` does. `\w`,
-- `\d` and `int` are parameters.
use Prim.Native.Char.{Char, code}
use Prim.Native.String.{String}
use aieos_agent_harness.Base.{
  ℕ, string_eq, Bool, not, Option, none, some, List, [], ◌∷◌, eqb, if◌then◌else◌,
}
use aieos_agent_harness.State.Cells.{is_space}

-- An element of a pattern: a character, `[...]*`, and the groups `([...]+)`, `([...]*)` and `(-?[...]+)`.
pub data Piece : Type 0 where
  char : ℕ → Piece
  skip some_of any_of signed : (ℕ → Bool) → Piece

abbrev pub Groups : Type 0
Groups = Option (List String)

unfoldable pub or_else : Groups → Groups → Groups
or_else none b = b
or_else (some a) b = some a

unfoldable pub push : String → Groups → Groups
push u none = none
push u (some groups) = some (u ∷ groups)

-- A character put in front of the first group.
unfoldable pub push_char : Char → Groups → Groups
push_char c none = none
push_char c (some []) = none
push_char c (some (u ∷ groups)) = some (String.◌∷◌ c u ∷ groups)

-- `[...]*`, as much as lets the rest match
unfoldable pub star : (ℕ → Bool) → (String → Groups) → String → Groups
star p k String.[] = k ""
star p k (String.◌∷◌ c s) =
    let longer = star p k s in
    if p (code c) then or_else longer (k (String.◌∷◌ c s)) else k (String.◌∷◌ c s)

-- `([...]*)`
unfoldable pub capture : (ℕ → Bool) → (String → Groups) → String → Groups
capture p k String.[] = push "" (k "")
capture p k (String.◌∷◌ c s) =
    let longer = push_char c (capture p k s) in
    if p (code c)
    then or_else longer (push "" (k (String.◌∷◌ c s)))
    else push "" (k (String.◌∷◌ c s))

-- `([...]+)`
unfoldable pub capture_some : (ℕ → Bool) → (String → Groups) → String → Groups
capture_some p k String.[] = none
capture_some p k (String.◌∷◌ c s) =
    let longer = push_char c (capture p k s) in if p (code c) then longer else none

-- `(-?[...]+)`, where a minus is not of the class
unfoldable pub capture_signed : (ℕ → Bool) → (String → Groups) → String → Groups
capture_signed p k String.[] = none
capture_signed p k (String.◌∷◌ c s) =
    if eqb (code c) b'-'
    then push_char c (capture_some p k s)
    else capture_some p k (String.◌∷◌ c s)

unfoldable pub one : ℕ → (String → Groups) → String → Groups
one d k String.[] = none
one d k (String.◌∷◌ c s) = if eqb (code c) d then k s else none

unfoldable pub match_pieces : List Piece → String → Groups
match_pieces [] s = some []
match_pieces (char d ∷ ps) s = one d (match_pieces ps) s
match_pieces (skip p ∷ ps) s = star p (match_pieces ps) s
match_pieces (some_of p ∷ ps) s = capture_some p (match_pieces ps) s
match_pieces (any_of p ∷ ps) s = capture p (match_pieces ps) s
match_pieces (signed p ∷ ps) s = capture_signed p (match_pieces ps) s

unfoldable pub is_text : ℕ → Bool
is_text c = not (is_space c)

unfoldable pub is_cell : ℕ → Bool
is_cell c = not (eqb c b'|')

pub record Reading : Type 0 where
  pub is_word : ℕ → Bool
  pub is_digit : ℕ → Bool
  pub int : String → ℕ

-- `\s*([...]+)\s*\|`
unfoldable pub cell_of : (ℕ → Bool) → List Piece → List Piece
cell_of p ps = skip is_space ∷ some_of p ∷ skip is_space ∷ char b'|' ∷ ps

-- `\s*([^|]*)\|`
unfoldable pub open_cell_of : List Piece → List Piece
open_cell_of ps = skip is_space ∷ any_of is_cell ∷ char b'|' ∷ ps

unfoldable pub phase_pattern : Reading → List Piece
phase_pattern re =
    char b'|'
    ∷ cell_of is_text (
        cell_of re.is_word (
          cell_of re.is_word (open_cell_of (open_cell_of (cell_of re.is_digit (open_cell_of []))))))

unfoldable pub gate_pattern : Reading → List Piece
gate_pattern re =
    char b'|'
    ∷ skip is_space
    ∷ some_of is_cell
    ∷ char b'|'
    ∷ cell_of re.is_word (
        cell_of re.is_digit (
          cell_of re.is_digit (
            skip is_space
            ∷ signed re.is_digit
            ∷ skip is_space
            ∷ char b'|'
            ∷ cell_of re.is_word (
                skip is_space
                ∷ some_of re.is_digit
                ∷ char b'/'
                ∷ some_of re.is_digit
                ∷ skip is_space
                ∷ char b'|'
                ∷ []))))
