-- ===== src/State/Bars.antt =====
-- src/state.py: how the patterns of a cell go on in a text behind which a bar stands.
use Prim.Native.Char.{Char, code}
use Prim.Native.String.{String}
use aieos_agent_harness.Base.{
  ◌≡◌, ◌≢◌, refl, ap, ◌∙◌, ◌⊎◌, inl, inr, Bool, true, false, Option-cases, Option, none, some, List,
  [], ◌∷◌, eqb, arith,
}
use aieos_agent_harness.Base.Lists.{All}
use aieos_agent_harness.State.Cells.{
  Token, lit, gap, fold, is_space, skip_spaces, bar, spaces, label, open_cell, lazy_value,
}

-- `u` with `s` behind it.
unfoldable pub glue : String → String → String
glue String.[] s = s
glue (String.◌∷◌ c u) s = String.◌∷◌ c (glue u s)

-- A token that a bar does not match.
abbrev pub IsPlain : Token → Type 0
IsPlain (lit d) = eqb 124 (fold d) ≡ false
IsPlain gap = Unit

abbrev pub glued : Option String → String → Option String
glued none s = none
glued (some u) s = some (glue u s)

abbrev pub is_some : {A : Type 0} → Option A → Bool
is_some none = false
is_some (some _) = true

-- How the head of a match that begins in a text goes on: it fails, it comes up to the end of the
-- text and wants a bar next, or it ends within the text, before `q`.
pub data Head : Type 0 where
  missed closing : Head
  inside : String → Head

unfoldable pub scan_end : String → Head
scan_end String.[] = closing
scan_end (String.◌∷◌ d s) = elim (bar (String.◌∷◌ d s)) [ none ↦ missed | some q ↦ inside q ]

unfoldable pub scan : List Token → String → Head
unfolding scan_end
scan ts u = elim (bar u) [
  | none ↦ missed
  | some inner ↦ elim (label ts (skip_spaces inner)) [
    | none ↦ missed
    | some r ↦ scan_end (skip_spaces r)
  ]
]

abbrev of_bar : Option String → Head
of_bar none = missed
of_bar (some q) = inside q

scan_end-bar : (s : String) → s ≢ "" → scan_end s ≡ of_bar (bar s)
unfolding scan_end
scan_end-bar String.[] n = absurd (n refl)
scan_end-bar (String.◌∷◌ d s) n = ground arith

-- Texts that begin with a bar, `c`.
module _ (c : Char) (e : code c ≡ 124) where
  space-bar : is_space (code c) ≡ false
  unfolding is_space
  space-bar = rw e refl

  pub skip-glue :
      (u y : String) → skip_spaces (glue u (String.◌∷◌ c y)) ≡ glue (skip_spaces u) (String.◌∷◌ c y)
  unfolding skip_spaces glue
  skip-glue String.[] y = ground (arith, space-bar)
  skip-glue (String.◌∷◌ d u) y = ground (arith, skip-glue u y)

  spaces-glue :
      (u y : String) → spaces (glue u (String.◌∷◌ c y)) ≡ glued (spaces u) (String.◌∷◌ c y)
  unfolding spaces glue
  spaces-glue String.[] y = ground (arith, space-bar)
  spaces-glue (String.◌∷◌ f u) y = ground (arith, skip-glue u y)

  label-glue :
      (ts : List Token) (u y : String)
      → All IsPlain ts
      → label ts (glue u (String.◌∷◌ c y)) ≡ glued (label ts u) (String.◌∷◌ c y)
  unfolding label spaces glue
  label-glue [] u y h = refl
  label-glue (lit d ∷ ts) String.[] y h =
      let k : eqb (fold (code c)) (fold d) ≡ false = rw e (unfold fold in h.0) in ground (arith, k)
  label-glue (lit d ∷ ts) (String.◌∷◌ f u) y h = ground (arith, label-glue ts u y h.1)
  label-glue (gap ∷ ts) u y h = elim (Option-cases (spaces u)) [
    | inl s ↦ let k = spaces-glue u y in ground (arith, k, s)
    | inr (r, s) ↦
        let k = spaces-glue u y in let rest = label-glue ts r y h.1 in ground (arith, k, s, rest)
  ]

  bar-glue :
      (d : Char) (u y : String)
      → bar (glue (String.◌∷◌ d u) (String.◌∷◌ c y)) ≡ glued (bar (String.◌∷◌ d u)) (String.◌∷◌ c y)
  unfolding bar glue
  bar-glue d u y = ground arith

  pub bar-bar : (y : String) → bar (String.◌∷◌ c y) ≡ some y
  unfolding bar
  bar-bar y = ground (arith, e)

  pub skip-bar : (y : String) → skip_spaces (String.◌∷◌ c y) ≡ String.◌∷◌ c y
  unfolding skip_spaces
  skip-bar y = ground (arith, space-bar)

  pub close-bar : (y : String) → bar (skip_spaces (String.◌∷◌ c y)) ≡ some y
  close-bar y = ap bar (skip-bar y) ∙ bar-bar y

  -- What the next character that is no space is: of `u`, or the bar behind it.
  next_glue :
      (u y : String)
      → ((skip_spaces u ≡ "") × (bar (skip_spaces (glue u (String.◌∷◌ c y))) ≡ some y))
        ⊎ ((bar (skip_spaces (glue u (String.◌∷◌ c y)))
              ≡ glued (bar (skip_spaces u)) (String.◌∷◌ c y))
            × (skip_spaces u ≢ ""))
  unfolding glue
  next_glue u y = go (skip_spaces u) refl
    where
      go :
          (w : String)
          → skip_spaces u ≡ w
          → ((skip_spaces u ≡ "") × (bar (skip_spaces (glue u (String.◌∷◌ c y))) ≡ some y))
            ⊎ ((bar (skip_spaces (glue u (String.◌∷◌ c y)))
                  ≡ glued (bar (skip_spaces u)) (String.◌∷◌ c y))
                × (skip_spaces u ≢ ""))
      go String.[] p = inl (p, rw (skip-glue u y, p) (bar-bar y))
      go (String.◌∷◌ d w) p = inr (rw (skip-glue u y, p) (bar-glue d w y), λ q. cc)

  closes_glue :
      (u y z : String)
      → is_some (bar (skip_spaces (glue u (String.◌∷◌ c y))))
        ≡ is_some (bar (skip_spaces (glue u (String.◌∷◌ c z))))
  closes_glue u y z = elim (next_glue u y) [
    | inl (p, q) ↦ elim (next_glue u z) [ inl (_, r) ↦ rw (q, r) refl | inr (_, n) ↦ absurd (n p) ]
    | inr (q, n) ↦ elim (next_glue u z) [
      | inl (p, _) ↦ absurd (n p)
      | inr (r, _) ↦ ground (arith, q, r)
    ]
  ]

  -- Whether a value is closed within `u`, or at the bar behind it, does not depend on what follows.
  pub lazy-glue :
      (u y z : String)
      → is_some (lazy_value (glue u (String.◌∷◌ c y)))
        ≡ is_some (lazy_value (glue u (String.◌∷◌ c z)))
  unfolding lazy_value glue
  lazy-glue String.[] y z = ground (arith, close-bar y, close-bar z)
  lazy-glue (String.◌∷◌ d u) y z =
      let same = closes_glue (String.◌∷◌ d u) y z in
      let rest = lazy-glue u y z in ground (arith, same, rest)

  abbrev pub opened : Head → String → Option String
  opened missed y = none
  opened closing y = some y
  opened (inside q) y = some (glue q (String.◌∷◌ c y))

  opened_bar : (o : Option String) (y : String) → glued o (String.◌∷◌ c y) ≡ opened (of_bar o) y
  opened_bar none y = refl
  opened_bar (some q) y = refl

  pub open-glue :
      (ts : List Token) (d : Char) (w y : String)
      → All IsPlain ts
      → open_cell ts (glue (String.◌∷◌ d w) (String.◌∷◌ c y)) ≡ opened (scan ts (String.◌∷◌ d w)) y
  unfolding open_cell scan
  open-glue ts d w y h = elim (Option-cases (bar (String.◌∷◌ d w))) [
    | inl p ↦ let k = bar-glue d w y in ground (arith, k, p)
    | inr (inner, p) ↦
        let k : bar (glue (String.◌∷◌ d w) (String.◌∷◌ c y)) ≡ some (glue inner (String.◌∷◌ c y)) =
          bar-glue d w y ∙ ap (λ o. glued o (String.◌∷◌ c y)) p in
        let l : label ts (skip_spaces (glue inner (String.◌∷◌ c y)))
            ≡ glued (label ts (skip_spaces inner)) (String.◌∷◌ c y) =
          ap (label ts) (skip-glue inner y) ∙ label-glue ts (skip_spaces inner) y h in
        elim (Option-cases (label ts (skip_spaces inner))) [
          | inl q ↦ rw (k, p, l, q, open_cell, scan) refl
          | inr (r, q) ↦ elim (next_glue r y) [
            | inl (z, n) ↦ rw (k, p, l, q, open_cell, scan) (n ∙ rw (z, scan_end) refl)
            | inr (n, z) ↦
                rw (k, p, l, q, open_cell, scan)
                  (n
                    ∙ opened_bar (bar (skip_spaces r)) y
                    ∙ rw (scan_end-bar (skip_spaces r) z) refl)
          ]
        ]
  ]
