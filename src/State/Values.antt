-- ===== src/State/Values.antt =====
-- src/state.py: the values that a cell gives back when they are written to it.
use Prim.Native.Char.{Char, code}
use Prim.Native.String.{String}
use Prim.Native.String.append
use mathlib.Core.Path.{subst}
use aieos_agent_harness.Base.{
  ℕ, ◌<>◌, ◌≡◌, ◌≢◌, refl, ap, ◌∙◌, inl, inr, Bool, true, false, not, ◌&&◌, Bool-cases, none, some,
  eqb, arith,
}
use aieos_agent_harness.State.Cells.{is_space, skip_spaces, bar, lazy_value}
use aieos_agent_harness.State.Bars.{glue}

pub append_glue : (u s : String) → u <> s ≡ glue u s
unfolding glue
append_glue String.[] s = append.nil s
append_glue (String.◌∷◌ c u) s = append.cons c u s ∙ ap (String.◌∷◌ c) (append_glue u s)

-- A value that a cell gives back: no bar and no line break in it, and no space at either end.
unfoldable pub is_inner : String → Bool
is_inner String.[] = true
is_inner (String.◌∷◌ c String.[]) = not (is_space (code c)) && not (eqb (code c) 124)
is_inner (String.◌∷◌ c (String.◌∷◌ d s)) =
    not (eqb (code c) 10) && not (eqb (code c) 124) && is_inner (String.◌∷◌ d s)

unfoldable pub is_value : String → Bool
is_value String.[] = true
is_value (String.◌∷◌ c s) = not (is_space (code c)) && is_inner (String.◌∷◌ c s)

inner-bar :
    (c : Char) (v t : String)
    → is_inner (String.◌∷◌ c v) ≡ true
    → bar (skip_spaces (glue (String.◌∷◌ c v) t)) ≡ none
unfolding is_inner glue bar skip_spaces
inner-bar c String.[] t h = ground arith
inner-bar c (String.◌∷◌ d v) t h = ground (arith, inner-bar d v t)

line_space : (c : ℕ) → is_space c ≡ false → eqb c 10 ≡ false
unfolding is_space
line_space c h = elim (Bool-cases (eqb c 10)) [
  | inl e ↦
      let k : c ≡ 10 = ground arith in absurd (let f = subst (λ d. is_space d ≡ false) k h in cc)
  | inr e ↦ e
]

lazy_value_empty :
    (t rest : String) → bar (skip_spaces t) ≡ some rest → lazy_value t ≡ some ("", rest)
unfolding lazy_value
lazy_value_empty String.[] rest e = absurd (unfold skip_spaces bar in cc)
lazy_value_empty (String.◌∷◌ c t) rest e = rw (e, lazy_value) refl

inner_tail :
    (c d : Char) (v : String)
    → is_inner (String.◌∷◌ c (String.◌∷◌ d v)) ≡ true
    → (is_inner (String.◌∷◌ d v) ≡ true) × (eqb (code c) 10 ≡ false)
unfolding is_inner
inner_tail c d v h = (ground arith, ground arith)

lazy_value-inner :
    (v t rest : String)
    → is_inner v ≡ true
    → bar (skip_spaces t) ≡ some rest
    → lazy_value (glue v t) ≡ some (v, rest)
unfolding glue lazy_value
lazy_value-inner String.[] t rest h e = lazy_value_empty t rest e
lazy_value-inner (String.◌∷◌ c String.[]) t rest h e =
    let k = inner-bar c "" t h in
    let r = lazy_value_empty t rest e in
    unfold is_inner in ground (arith, k, r, line_space (code c))
lazy_value-inner (String.◌∷◌ c (String.◌∷◌ d v)) t rest h e =
    let k = inner-bar c (String.◌∷◌ d v) t h in
    let (tail, line) = inner_tail c d v h in
    let r = lazy_value-inner (String.◌∷◌ d v) t rest tail e in ground (arith, k, r, line)

skip_spaces-value :
    (v : String) → is_value v ≡ true → v ≢ "" → (t : String) → skip_spaces (glue v t) ≡ glue v t
unfolding is_value skip_spaces glue
skip_spaces-value String.[] h n t = absurd (n refl)
skip_spaces-value (String.◌∷◌ c v) h n t = ground arith

-- What `set_cell` writes behind a head is read as the value.
abbrev pub written : String → String → String
written v rest = " " <> v <> " |" <> rest

written-glue : (v rest : String) → written v rest ≡ glue " " (glue v (glue " |" rest))
written-glue v rest =
    append_glue " " (v <> " |" <> rest)
    ∙ ap (glue " ") (append_glue v (" |" <> rest) ∙ ap (glue v) (append_glue " |" rest))

skip_spaces-written :
    (v rest : String)
    → is_value v ≡ true
    → lazy_value (skip_spaces (glue v (glue " |" rest))) ≡ some (v, rest)
unfolding glue
skip_spaces-written String.[] rest h =
    lazy_value_empty (skip_spaces (glue " |" rest)) rest (unfold skip_spaces is_space bar in refl)
skip_spaces-written (String.◌∷◌ c v) rest h =
    rw (skip_spaces-value (String.◌∷◌ c v) h (λ e. cc) (glue " |" rest)) (
      lazy_value-inner (String.◌∷◌ c v) (glue " |" rest) rest (unfold is_value in ground arith)
        (unfold skip_spaces is_space bar in refl))

pub written_read :
    (v rest : String)
    → is_value v ≡ true
    → lazy_value (skip_spaces (written v rest)) ≡ some (v, rest)
unfolding glue
written_read v rest h =
    let first : skip_spaces (glue " " (glue v (glue " |" rest)))
        ≡ skip_spaces (glue v (glue " |" rest)) =
      unfold skip_spaces is_space in refl in
    ap (λ t. lazy_value (skip_spaces t)) (written-glue v rest)
    ∙ ap lazy_value first
    ∙ skip_spaces-written v rest h
