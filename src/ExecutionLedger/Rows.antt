-- ===== src/ExecutionLedger/Rows.antt =====
-- src/execution_ledger.py: the cells of a row under the pattern of its table.
use Prim.Native.Char.{Char, code}
use Prim.Native.String.{String}
use aieos_agent_harness.Base.{
  ℕ, string_eq, ◌≡◌, refl, sym, ap, ◌∙◌, Bool, true, false, ◌&&◌, some, List, ◌∷◌, arith,
}
use aieos_agent_harness.State.Bars.{glue}
use aieos_agent_harness.State.Heads.{glue_assoc}
use aieos_agent_harness.State.Cells.{is_space}
use aieos_agent_harness.ExecutionLedger.Patterns.{
  Piece, Groups, or_else, push, push_char, star, capture, capture_some, one, match_pieces, is_cell,
  cell_of, open_cell_of,
}

-- A character that is no space ends `\s*` where the rest matches.
star_stop :
    (k : String → Groups) (c : Char) (t : String) (r : List String)
    → is_space (code c) ≡ false
    → k (String.◌∷◌ c t) ≡ some r
    → star is_space k (String.◌∷◌ c t) ≡ some r
unfolding star or_else
star_stop k c t r e h = ground (arith, e, h)

star_space :
    (k : String → Groups) (c d : Char) (t : String) (r : List String)
    → is_space (code c) ≡ true
    → is_space (code d) ≡ false
    → k (String.◌∷◌ d t) ≡ some r
    → star is_space k (String.◌∷◌ c (String.◌∷◌ d t)) ≡ some r
star_space k c d t r e f h =
    let rest = star_stop k d t r f h in unfold star or_else in ground (arith, e, rest)

-- Every character is of a class.
unfoldable pub is_all : (ℕ → Bool) → String → Bool
is_all p String.[] = true
is_all p (String.◌∷◌ c s) = p (code c) && is_all p s

capture-run :
    (p : ℕ → Bool) (k : String → Groups) (u : String) (d : Char) (t : String) (r : List String)
    → is_all p u ≡ true
    → p (code d) ≡ false
    → k (String.◌∷◌ d t) ≡ some r
    → capture p k (glue u (String.◌∷◌ d t)) ≡ some (u ∷ r)
unfolding capture is_all glue or_else push push_char
capture-run p k String.[] d t r h e m = ground (arith, e, m)
capture-run p k (String.◌∷◌ c u) d t r h e m =
    let rest = capture-run p k u d t r in ground (arith, rest, h, e, m)

capture_some-run :
    (p : ℕ → Bool) (k : String → Groups) (c : Char) (u : String) (d : Char) (t : String)
    (r : List String)
    → is_all p (String.◌∷◌ c u) ≡ true
    → p (code d) ≡ false
    → k (String.◌∷◌ d t) ≡ some r
    → capture_some p k (glue (String.◌∷◌ c u) (String.◌∷◌ d t)) ≡ some (String.◌∷◌ c u ∷ r)
unfolding capture_some is_all glue push_char
capture_some-run p k c u d t r h e m =
    let rest = capture-run p k u d t r in ground (arith, rest, h, e, m)

-- A cell as `save` writes it, with what follows.
abbrev pub in_cell : String → String → String
in_cell v rest = glue " " (glue v (glue " |" rest))

pub match-cell :
    (p : ℕ → Bool) (ps : List Piece) (c : Char) (u rest : String) (r : List String)
    → is_all p (String.◌∷◌ c u) ≡ true
    → is_space (code c) ≡ false
    → p 32 ≡ false
    → match_pieces ps rest ≡ some r
    → match_pieces (cell_of p ps) (in_cell (String.◌∷◌ c u) rest) ≡ some (String.◌∷◌ c u ∷ r)
unfolding match_pieces cell_of glue
match-cell p ps c u rest r h first space m =
    let bar : one b'|' (match_pieces ps) (glue "|" rest) ≡ some r = unfold one in m in
    let closing : star is_space (one b'|' (match_pieces ps)) (glue " |" rest) ≡ some r =
      star_space (one b'|' (match_pieces ps)) _ _ rest r (unfold is_space in refl)
        (unfold is_space in refl) bar in
    let captured =
      capture_some-run p (star is_space (one b'|' (match_pieces ps))) c u _ (glue "|" rest) r h
        space closing in
    star_space (capture_some p (star is_space (one b'|' (match_pieces ps)))) _ c
      (glue u (glue " |" rest)) (String.◌∷◌ c u ∷ r) (unfold is_space in refl) first captured

is_all-glue : (p : ℕ → Bool) (u v : String) → is_all p (glue u v) ≡ (is_all p u && is_all p v)
unfolding is_all glue
is_all-glue p String.[] v = refl
is_all-glue p (String.◌∷◌ c u) v = ground (arith, is_all-glue p u v)

pub match-open_cell :
    (ps : List Piece) (c : Char) (u rest : String) (r : List String)
    → is_all is_cell (String.◌∷◌ c u) ≡ true
    → is_space (code c) ≡ false
    → match_pieces ps rest ≡ some r
    → match_pieces (open_cell_of ps) (in_cell (String.◌∷◌ c u) rest)
      ≡ some (String.◌∷◌ c (glue u " ") ∷ r)
unfolding match_pieces open_cell_of glue
match-open_cell ps c u rest r h first m =
    let bar : one b'|' (match_pieces ps) (glue "|" rest) ≡ some r = unfold one in m in
    let all : is_all is_cell (glue (String.◌∷◌ c u) " ") ≡ true =
      is_all-glue is_cell (String.◌∷◌ c u) " " ∙ (unfold is_all is_cell in ground (arith, h)) in
    let captured : capture is_cell (one b'|' (match_pieces ps))
          (String.◌∷◌ c (glue (glue u " ") (glue "|" rest)))
        ≡ some (String.◌∷◌ c (glue u " ") ∷ r) =
      capture-run is_cell (one b'|' (match_pieces ps)) (glue (String.◌∷◌ c u) " ") _ rest r all
        (unfold is_cell in refl) bar in
    let moved = ap (String.◌∷◌ c) (sym (glue_assoc u " " (glue "|" rest))) in
    star_space (capture is_cell (one b'|' (match_pieces ps))) _ c (glue u (glue " |" rest))
      (String.◌∷◌ c (glue u " ") ∷ r) (unfold is_space in refl) first
      (ap (capture is_cell (one b'|' (match_pieces ps))) moved ∙ captured)
