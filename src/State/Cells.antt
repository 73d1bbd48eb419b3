-- ===== src/State/Cells.antt =====
-- src/state.py: the regular expressions that find and replace the cell of a label in a Markdown
-- table, as functions on the text. `\|\s*LABEL\s*\|\s*(.*?)\s*\|`, without regard to case; each
-- `\s*` meets a character that is no space next, so its greedy match is its only one.
use Prim.Native.Char.{code}
use Prim.Native.String.{String}
use aieos_agent_harness.Base.{
  ℕ, ◌+◌, ◌-◌, zero, suc, ◌<>◌, Bool, true, false, ◌&&◌, ◌||◌, Option, none, some, List, [], ◌∷◌,
  eqb, leb, if◌then◌else◌,
}

-- `\s` on a `str`, and what `str.strip` takes off.
unfoldable pub is_space : ℕ → Bool
is_space c =
    (leb 9 c && leb c 13)
    || (leb 28 c && leb c 32)
    || eqb c 133
    || eqb c 160
    || eqb c 5760
    || (leb 8192 c && leb c 8202)
    || (leb 8232 c && leb c 8233)
    || eqb c 8239
    || eqb c 8287
    || eqb c 12288

-- Case folding of `re.IGNORECASE`, as far as ASCII letters match: U+0130 and U+0131 match `i`,
-- U+017F matches `s`, and the Kelvin sign matches `k`.
unfoldable pub fold : ℕ → ℕ
fold c =
    if leb 65 c && leb c 90
    then c + 32
    else if eqb c 304 || eqb c 305
    then 105
    else if eqb c 383
    then 115
    else if eqb c 8490
    then 107
    else c

-- One element of a label's pattern: a character, or `\s+`.
pub data Token : Type 0 where
  lit : ℕ → Token
  gap : Token

-- `re.escape(label)`
unfoldable pub escaped : String → List Token
escaped String.[] = []
escaped (String.◌∷◌ c s) = lit (code c) ∷ escaped s

-- `Artifact\s+ID`
abbrev pub artifact_id : List Token
artifact_id =
    lit b'A'
    ∷ lit b'r'
    ∷ lit b't'
    ∷ lit b'i'
    ∷ lit b'f'
    ∷ lit b'a'
    ∷ lit b'c'
    ∷ lit b't'
    ∷ gap
    ∷ lit b'I'
    ∷ lit b'D'
    ∷ []

unfoldable pub skip_spaces : String → String
skip_spaces String.[] = String.[]
skip_spaces (String.◌∷◌ c s) =
    let rest = skip_spaces s in if is_space (code c) then rest else String.◌∷◌ c s

-- `\|`
unfoldable pub bar : String → Option String
bar String.[] = none
bar (String.◌∷◌ c s) = if eqb (code c) b'|' then some s else none

-- `\s+`
unfoldable pub spaces : String → Option String
spaces String.[] = none
spaces (String.◌∷◌ c s) = if is_space (code c) then some (skip_spaces s) else none

-- What is left of a text behind a label.
unfoldable pub label : List Token → String → Option String
label [] s = some s
label (lit d ∷ ts) String.[] = none
label (lit d ∷ ts) (String.◌∷◌ c s) =
    let rest = label ts s in if eqb (fold (code c)) (fold d) then rest else none
label (gap ∷ ts) s = elim (spaces s) [ none ↦ none | some rest ↦ label ts rest ]

-- `\|\s*LABEL\s*\|`: what is left of a text behind it.
unfoldable pub open_cell : List Token → String → Option String
open_cell ts s = elim (bar s) [
  | none ↦ none
  | some inner ↦ elim (label ts (skip_spaces inner)) [
    | none ↦ none
    | some after ↦ bar (skip_spaces after)
  ]
]

-- `(.*?)\s*\|`: the shortest value, and what is left. The value has no outer space, and no newline.
unfoldable pub lazy_value : String → Option (String × String)
lazy_value String.[] = none
lazy_value (String.◌∷◌ c s) = elim (bar (skip_spaces (String.◌∷◌ c s))) [
  | some rest ↦ some ("", rest)
  | none ↦
      if eqb (code c) 10
      then none
      else elim (lazy_value s) [ none ↦ none | some (v, rest) ↦ some (String.◌∷◌ c v, rest) ]
]

-- A match of the whole pattern at the start of a text: what stands behind the head, the value of
-- the cell, and what is left.
unfoldable pub cell_at : List Token → String → Option (String × String × String)
cell_at ts s = elim (open_cell ts s) [
  | none ↦ none
  | some after ↦ elim (lazy_value (skip_spaces after)) [
    | none ↦ none
    | some (v, rest) ↦ some (after, v, rest)
  ]
]

-- `re.search(...)`, and the stripped first group of its match.
unfoldable pub cell : List Token → String → Option String
cell ts String.[] = none
cell ts (String.◌∷◌ c s) = elim (cell_at ts (String.◌∷◌ c s)) [
  | some (_, v, _) ↦ some v
  | none ↦ cell ts s
]

-- `re.search(r"\|\s*LABEL\s*\|", text)`
unfoldable pub has_row : List Token → String → Bool
has_row ts String.[] = false
has_row ts (String.◌∷◌ c s) = elim (open_cell ts (String.◌∷◌ c s)) [
  | some _ ↦ true
  | none ↦ has_row ts s
]

unfoldable pub text_size : String → ℕ
text_size String.[] = 0
text_size (String.◌∷◌ c s) = suc (text_size s)

-- The first `n` characters, followed by `tail`.
unfoldable pub upto : ℕ → String → String → String
upto zero s tail = tail
upto (suc n) String.[] tail = tail
upto (suc n) (String.◌∷◌ c s) tail = String.◌∷◌ c (upto n s tail)

-- `re.sub(pattern, rf"\1 {value} |", text, count=1)`, where `value` has no backslash.
unfoldable pub set_cell : List Token → String → String → String
set_cell ts value String.[] = String.[]
set_cell ts value (String.◌∷◌ c s) =
    let text = String.◌∷◌ c s in
    elim (cell_at ts text) [
      | some (after, _, rest) ↦
          upto (text_size text - text_size after) text (" " <> value <> " |" <> rest)
      | none ↦ String.◌∷◌ c (set_cell ts value s)
    ]

unfoldable pub strip_end : String → String
strip_end String.[] = String.[]
strip_end (String.◌∷◌ c s) = elim (strip_end s) [
  | String.[] ↦ if is_space (code c) then String.[] else String.◌∷◌ c String.[]
  | String.◌∷◌ d rest ↦ String.◌∷◌ c (String.◌∷◌ d rest)
]

-- `s.strip()`
unfoldable pub strip : String → String
strip s = skip_spaces (strip_end s)
