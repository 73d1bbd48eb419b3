-- ===== src/Base/Search.antt =====
-- Python's `in` and `split` on texts.
use Prim.Native.Char.{code}
use Prim.Native.String.{String}
use mathlib.Core.Bool.{Bool, true, false, ◌||◌}
use mathlib.Core.List.{List, [], ◌∷◌}
use Prim.Native.Nat.{ℕ}
use aieos_agent_harness.Base.Equality.{string_eq, ◌==◌, eqb, if◌then◌else◌}

unfoldable pub starts_with : String → String → Bool
starts_with String.[] s = true
starts_with (String.◌∷◌ c p) String.[] = false
starts_with (String.◌∷◌ c p) (String.◌∷◌ d s) =
    let rest = starts_with p s in if eqb (code c) (code d) then rest else false

-- `part in s`
unfoldable pub occurs_in : String → String → Bool
occurs_in part String.[] = part == ""
occurs_in part (String.◌∷◌ c s) = starts_with part (String.◌∷◌ c s) || occurs_in part s

-- `s.split(c)`, with the character's code.
unfoldable pub split_on : ℕ → String → List String
split_on c String.[] = "" ∷ []
split_on c (String.◌∷◌ d s) = elim (split_on c s) [
  | [] ↦ []
  | part ∷ parts ↦ if eqb (code d) c then "" ∷ part ∷ parts else String.◌∷◌ d part ∷ parts
]
