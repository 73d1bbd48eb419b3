-- ===== src/State/Heads.antt =====
-- src/state.py: the head of a match of a cell's pattern, `\|\s*LABEL\s*\|`, and the text behind it.
use Prim.Native.Char.{Char, code}
use Prim.Native.String.{String}
use mathlib.Core.Path.{subst}
use aieos_agent_harness.Base.{
  ◌+◌, ◌≡◌, refl, sym, ap, ◌∙◌, inl, inr, Bool, false, Bool-cases, Option-cases, Option, none, some,
  List, [], ◌∷◌, arith,
}
use aieos_agent_harness.Base.Lists.{All}
use aieos_agent_harness.State.Cells.{
  Token, lit, gap, is_space, skip_spaces, bar, spaces, label, open_cell, lazy_value, cell_at,
  text_size, upto,
}
use aieos_agent_harness.State.Bars.{
  glue, IsPlain, is_some, Head, missed, closing, inside, scan, opened, lazy-glue, open-glue,
  skip-glue,
}

pub glue_assoc : (u v s : String) → glue (glue u v) s ≡ glue u (glue v s)
unfolding glue
glue_assoc String.[] v s = refl
glue_assoc (String.◌∷◌ c u) v s = ap (String.◌∷◌ c) (glue_assoc u v s)

pub text_size-glue : (u s : String) → text_size (glue u s) ≡ text_size u + text_size s
unfolding glue text_size
text_size-glue String.[] s = omega arith
text_size-glue (String.◌∷◌ c u) s = let k = text_size-glue u s in omega (arith, k)

pub upto-glue : (u s t : String) → upto (text_size u) (glue u s) t ≡ glue u t
unfolding glue text_size upto
upto-glue String.[] s t = refl
upto-glue (String.◌∷◌ c u) s t = ap (String.◌∷◌ c) (upto-glue u s t)

-- A text that ends in another.
abbrev pub Ends : String → String → Type 0
Ends r s = (u : String) × (s ≡ glue u r)

Ends-refl : (s : String) → Ends s s
unfolding glue
Ends-refl s = ("", refl)

Ends-trans : (q r s : String) → Ends q r → Ends r s → Ends q s
Ends-trans q r s (u, e) (v, f) = (glue v u, f ∙ ap (glue v) e ∙ sym (glue_assoc v u q))

Ends-cons : (c : Char) (r s : String) → Ends r s → Ends r (String.◌∷◌ c s)
unfolding glue
Ends-cons c r s (u, e) = (String.◌∷◌ c u, ap (String.◌∷◌ c) e)

skip_spaces-Ends : (s : String) → Ends (skip_spaces s) s
unfolding skip_spaces
skip_spaces-Ends String.[] = Ends-refl ""
skip_spaces-Ends (String.◌∷◌ c s) = elim (Bool-cases (is_space (code c))) [
  | inl e ↦ rw e (Ends-cons c (skip_spaces s) s (skip_spaces-Ends s))
  | inr e ↦ rw e (Ends-refl (String.◌∷◌ c s))
]

bar-some : (s r : String) → bar s ≡ some r → (c : Char) × (code c ≡ 124) × (s ≡ String.◌∷◌ c r)
unfolding bar
bar-some String.[] r h = absurd (cc)
bar-some (String.◌∷◌ c s) r h = (c, ground arith, ground arith)

spaces-Ends : (s r : String) → spaces s ≡ some r → Ends r s
unfolding spaces
spaces-Ends String.[] r h = absurd (cc)
spaces-Ends (String.◌∷◌ c s) r h =
    let same : skip_spaces s ≡ r = ground arith in
    Ends-cons c r s (subst (λ q. Ends q s) same (skip_spaces-Ends s))

label-Ends : (ts : List Token) (s r : String) → label ts s ≡ some r → Ends r s
unfolding label
label-Ends [] s r h = let same : s ≡ r = ground arith in subst (λ q. Ends q s) same (Ends-refl s)
label-Ends (lit d ∷ ts) String.[] r h = absurd (cc)
label-Ends (lit d ∷ ts) (String.◌∷◌ c s) r h =
    let rest : label ts s ≡ some r = ground arith in Ends-cons c r s (label-Ends ts s r rest)
label-Ends (gap ∷ ts) s r h = elim (Option-cases (spaces s)) [
  | inl e ↦
      let k : ◌≡◌ {A = Option String} none (some r) = sym (rw (e, label) refl) ∙ h in absurd (cc)
  | inr (q, e) ↦
      let rest : label ts q ≡ some r = sym (rw (e, label) refl) ∙ h in
      Ends-trans r q s (label-Ends ts q r rest) (spaces-Ends s q e)
]

-- Behind the head of a match stands what it ends with: a bar.
pub open_cell-Ends :
    (ts : List Token) (s after : String)
    → open_cell ts s ≡ some after
    → (c : Char) × (h : String) × (b : Char) × (code c ≡ 124)
      × (code b ≡ 124)
      × (s ≡ String.◌∷◌ c (glue h (String.◌∷◌ b after)))
unfolding open_cell
open_cell-Ends ts s after e = elim (Option-cases (bar s)) [
  | inl p ↦ absurd (ground arith)
  | inr (inner, p) ↦ elim (Option-cases (label ts (skip_spaces inner))) [
    | inl q ↦ absurd (ground arith)
    | inr (r, q) ↦
        let last : bar (skip_spaces r) ≡ some after = ground arith in
        let (c, code_c, at_c) = bar-some s inner p in
        let (b, code_b, at_b) = bar-some (skip_spaces r) after last in
        let behind = subst (λ t. Ends t r) at_b (skip_spaces-Ends r) in
        let labelled =
          Ends-trans (String.◌∷◌ b after) r (skip_spaces inner) behind
            (label-Ends ts (skip_spaces inner) r q) in
        let (h, k) =
          Ends-trans (String.◌∷◌ b after) (skip_spaces inner) inner labelled
            (skip_spaces-Ends inner) in
        (c, h, b, code_c, code_b, at_c ∙ ap (String.◌∷◌ c) k)
  ]
]

-- Behind a head that has matched, any text may stand.
opened_closing :
    (b : Char) (e : code b ≡ 124) (o : Head) (y : String)
    → opened b e o y ≡ some y
    → (z : String) → opened b e o z ≡ some z
unfolding glue
opened_closing b e missed y h z = absurd (cc)
opened_closing b e closing y h z = refl
opened_closing b e (inside q) y h z =
    let k : glue q (String.◌∷◌ b y) ≡ y = ground arith in
    let size = text_size-glue q (String.◌∷◌ b y) in
    let same = ap text_size k in absurd (unfold text_size in (omega (arith, size, same)))

pub open_glue_any :
    (ts : List Token) (c b : Char) (h y : String)
    → All IsPlain ts
    → code b ≡ 124
    → open_cell ts (String.◌∷◌ c (glue h (String.◌∷◌ b y))) ≡ some y
    → (z : String) → open_cell ts (String.◌∷◌ c (glue h (String.◌∷◌ b z))) ≡ some z
unfolding glue
open_glue_any ts c b h y plain e o z =
    let first : opened b e (scan ts (String.◌∷◌ c h)) y ≡ some y =
      sym (open-glue b e ts c h y plain) ∙ o in
    open-glue b e ts c h z plain ∙ opened_closing b e (scan ts (String.◌∷◌ c h)) y first z

abbrev pub closes : Option String → Bool
closes none = false
closes (some after) = is_some (lazy_value (skip_spaces after))

closes-cell_at : (ts : List Token) (s : String) → is_some (cell_at ts s) ≡ closes (open_cell ts s)
unfolding cell_at
closes-cell_at ts s = ground arith

-- A value that is closed behind a head does not depend on what stands behind its bar.
pub closes-glue :
    (c : Char) (e : code c ≡ 124) (u y z : String)
    → closes (some (glue u (String.◌∷◌ c y))) ≡ closes (some (glue u (String.◌∷◌ c z)))
closes-glue c e u y z =
    rw (skip-glue c e u y, skip-glue c e u z) (lazy-glue c e (skip_spaces u) y z)

-- A match that begins before a bar depends on what stands behind the bar only where it is the
-- last bar of the match's head.
pub cell_at-glue :
    (c : Char) (e : code c ≡ 124) (ts : List Token) (d : Char) (w y z : String)
    → All IsPlain ts
    → closes (some y) ≡ closes (some z)
    → is_some (cell_at ts (glue (String.◌∷◌ d w) (String.◌∷◌ c y)))
      ≡ is_some (cell_at ts (glue (String.◌∷◌ d w) (String.◌∷◌ c z)))
cell_at-glue c e ts d w y z plain same =
    closes-cell_at ts (glue (String.◌∷◌ d w) (String.◌∷◌ c y))
    ∙ ap closes (open-glue c e ts d w y plain)
    ∙ go (scan ts (String.◌∷◌ d w))
    ∙ sym (ap closes (open-glue c e ts d w z plain))
    ∙ sym (closes-cell_at ts (glue (String.◌∷◌ d w) (String.◌∷◌ c z)))
  where
    go : (o : Head) → closes (opened c e o y) ≡ closes (opened c e o z)
    go missed = refl
    go closing = same
    go (inside q) = closes-glue c e q y z
