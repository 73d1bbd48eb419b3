-- ===== src/Invariants/Upstream.antt =====
-- src/invariants.py: the table of upstream dependencies has no cycle.
use aieos_agent_harness.Base.{
  ℕ, ◌<◌, String, string_eq, ◌≡◌, refl, Bool, true, Bool-cases, inl, inr, List, [], ◌∷◌, ltb, ◌==◌,
  arith,
}
use aieos_agent_harness.Base.Dict
use aieos_agent_harness.Base.Dict.{Dict}
use aieos_agent_harness.Base.Lists.{all, contains}
use aieos_agent_harness.Invariants.{upstream_dependencies}

-- `b` is required for `a`, or for something that is.
pub data Requires (deps : Dict String (List String)) : String → String → Type 0 where
  direct : (a b : String) → contains (Dict.get_or deps a []) b ≡ true → Requires deps a b
  through :
      (a b c : String)
      → contains (Dict.get_or deps a []) b ≡ true
      → Requires deps b c
      → Requires deps a c

is_ranked : (String → ℕ) → Dict String (List String) → Bool
unfolding all
is_ranked rank = all (λ (a, bs). all (λ b. ltb (rank b) (rank a)) bs)

all-lower :
    (rank : String → ℕ) (a : String) (bs : List String) (b : String)
    → all (λ b. ltb (rank b) (rank a)) bs ≡ true
    → contains bs b ≡ true
    → rank b < rank a
unfolding all contains
all-lower rank a [] b h m = absurd (ground arith)
all-lower rank a (c ∷ bs) b h m = elim (Bool-cases (b == c)) [
  | inl e ↦ ground arith
  | inr e ↦ all-lower rank a bs b (ground arith) (ground arith)
]

get-lower :
    (rank : String → ℕ) (deps : Dict String (List String)) (a b : String)
    → is_ranked rank deps ≡ true
    → contains (Dict.get_or deps a []) b ≡ true
    → rank b < rank a
unfolding is_ranked all Dict.get_or Dict.get contains
get-lower rank [] a b h m = absurd (ground arith)
get-lower rank ((c, bs) ∷ deps) a b h m = elim (Bool-cases (a == c)) [
  | inl e ↦
      let same : a ≡ c = ground arith in
      rw same (all-lower rank c bs b (ground arith) (ground arith))
  | inr e ↦ get-lower rank deps a b (ground arith) (ground arith)
]

Requires-lower :
    (rank : String → ℕ) (deps : Dict String (List String)) (a b : String)
    → is_ranked rank deps ≡ true
    → Requires deps a b
    → rank b < rank a
Requires-lower rank deps _ _ h (direct a b m) = get-lower rank deps a b h m
Requires-lower rank deps _ _ h (through a b c m r) =
    omega (arith, get-lower rank deps a b h m, Requires-lower rank deps b c h r)

-- The length of the longest chain above each type.
abbrev ranks : Dict String ℕ
ranks =
    ("ACF", 1)
    ∷ ("SAD", 1)
    ∷ ("TDD", 2)
    ∷ ("WDD", 3)
    ∷ ("ORD", 4)
    ∷ ("QAER", 5)
    ∷ ("VP", 6)
    ∷ ("TCR", 7)
    ∷ ("QGR", 8)
    ∷ ("RER", 5)
    ∷ ("RCF", 6)
    ∷ ("RP", 7)
    ∷ ("RR", 8)
    ∷ ("RHR", 9)
    ∷ ("SDR", 1)
    ∷ ("SOER", 1)
    ∷ ("VER", 2)
    ∷ ("TM", 2)
    ∷ ("SAR", 3)
    ∷ ("DAR", 3)
    ∷ ("CSPEC", 3)
    ∷ ("DSR", 3)
    ∷ ("ARR", 3)
    ∷ []

rank_of : String → ℕ
rank_of t = Dict.get_or ranks t 0

upstream-is_ranked : is_ranked rank_of upstream_dependencies ≡ true
unfolding is_ranked rank_of all Dict.get_or Dict.get string_eq
upstream-is_ranked = refl

-- No artifact type requires itself, directly or through others.
pub upstream_acyclic : (t : String) → ¬ Requires upstream_dependencies t t
upstream_acyclic t r =
    absurd (omega (arith, Requires-lower rank_of upstream_dependencies t t upstream-is_ranked r))
