-- ===== src/Base/Dict.antt =====
-- Dicts in insertion order. Proofs elsewhere go by the laws; only tests unfold the operations.
use mathlib.Core.Path.{◌≡◌}
use mathlib.Core.List.{List, [], ◌∷◌, map}
use mathlib.Core.Option.{Option, none, some}
use native.Mathlib.Omega.{arith}
use aieos_agent_harness.Base.Equality.{Eq, ◌==◌, if◌then◌else◌}

abbrev pub Dict {ℓ κ} : Type ℓ → Type κ → Type (ℓ ⊔ κ)
Dict K V = List (K × V)

unfoldable pub keys {ℓ κ} : {K : Type ℓ} {V : Type κ} → Dict K V → List K
keys = map (λ (k, _). k)

unfoldable pub values {ℓ κ} : {K : Type ℓ} {V : Type κ} → Dict K V → List V
values = map (λ (_, v). v)

module _ {ℓ κ} {K : Type ℓ} {V : Type κ} ⦃e : Eq K⦄ where
  -- `d.get(k)`
  unfoldable pub get : Dict K V → K → Option V
  get [] k = none
  get ((j, v) ∷ d) k = if k == j then some v else get d k

  -- `d[k] = v`: a key that is there keeps its place.
  unfoldable pub insert : K → V → Dict K V → Dict K V
  insert k v [] = (k, v) ∷ []
  insert k v ((j, w) ∷ d) = if k == j then (k, v) ∷ d else (j, w) ∷ insert k v d

  -- `d.pop(k, None)`. Every entry of the key goes; a real dict has at most one.
  unfoldable pub erase : K → Dict K V → Dict K V
  erase k [] = []
  erase k ((j, w) ∷ d) = let rest = erase k d in if k == j then rest else (j, w) ∷ rest

  -- `d.get(k, default)`
  unfoldable pub get_or : Dict K V → K → V → V
  unfolding get
  get_or d k v = elim (get d k) [ none ↦ v | some w ↦ w ]

  pub get-insert :
      (j k : K) (v : V) (d : Dict K V) → get (insert k v d) j ≡ (if j == k then some v else get d j)
  unfolding get insert
  get-insert j k v [] = ground arith
  get-insert j k v (_ ∷ d) = ground (arith, get-insert j k v d)

  pub get-erase : (j k : K) (d : Dict K V) → get (erase k d) j ≡ (if j == k then none else get d j)
  unfolding get erase
  get-erase j k [] = ground arith
  get-erase j k (_ ∷ d) = ground (arith, get-erase j k d)

  pub get_or-insert :
      (j k : K) (v x : V) (d : Dict K V)
      → get_or (insert k v d) j x ≡ (if j == k then v else get_or d j x)
  unfolding get_or
  get_or-insert j k v x d = ground (arith, get-insert j k v d)
