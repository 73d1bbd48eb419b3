-- ===== src/Cicd/Registration.antt =====
-- src/cicd/registry.py: what a registration changes.
use aieos_agent_harness.Base.{
  String, string_eq, ◌≡◌, refl, inl, inr, true, false, not, Bool-cases, none, some, List, [], ◌∷◌,
  ◌++◌, ◌==◌, if◌then◌else◌, arith,
}
use aieos_agent_harness.Base.Dict
use aieos_agent_harness.Base.Dict.{Dict, get-insert}
use aieos_agent_harness.Base.Lists.{keep, contains}
use aieos_agent_harness.Cicd.{RegistryEntry, RegistrationOutcome, ArtifactStore}
use aieos_agent_harness.Cicd.Registry.{
  Index, entry_key, same_adapter, bucket, index_actions, index_add, register_adapter, find_adapters,
}

keep-again :
    (entry : RegistryEntry) (es : List RegistryEntry)
    → keep
        (λ e. not (same_adapter e entry))
        (keep (λ e. not (same_adapter e entry)) es ++ entry ∷ [])
      ≡ keep (λ e. not (same_adapter e entry)) es
unfolding keep same_adapter
keep-again entry [] = ground arith
keep-again entry (e ∷ es) = ground (arith, keep-again entry es)

bucket-insert :
    (a x : String) (es : List RegistryEntry) (index : Index)
    → bucket (Dict.insert x es index) a ≡ (if a == x then es else bucket index a)
unfolding bucket Dict.get_or
bucket-insert a x es index = ground (arith, get-insert a x es index)

index_actions-bucket :
    (entry : RegistryEntry) (a : String) (actions : List String) (index : Index)
    → bucket (index_actions entry actions index) a ≡ (
        if contains actions a
        then keep (λ e. not (same_adapter e entry)) (bucket index a) ++ entry ∷ []
        else bucket index a)
unfolding index_actions contains
index_actions-bucket entry a [] index = refl
index_actions-bucket entry a (x ∷ actions) index =
    let others : List RegistryEntry = keep (λ e. not (same_adapter e entry)) (bucket index x) in
    let index1 : Index = Dict.insert x (others ++ entry ∷ []) index in
    elim (Bool-cases (a == x)) [
      | inl same ↦
          let at : a ≡ x = ground arith in
          ground (
            arith,
            index_actions-bucket entry a actions index1,
            bucket-insert a x (others ++ entry ∷ []) index,
            keep-again entry (bucket index x),
          )
      | inr differ ↦ ground (
        arith,
        index_actions-bucket entry a actions index1,
        bucket-insert a x (others ++ entry ∷ []) index,
      )
    ]

-- The entries of an action after a registration: for an action that the entry claims, the other
-- adapters as they were, and the entry once, behind them; for any other action, what was there.
abbrev pub IsIndexed : RegistryEntry → Index → Index → Type 0
IsIndexed entry index index' =
    (action : String)
    → find_adapters action [] index' ≡ (
        if contains entry.capabilities action
        then keep (λ e. not (same_adapter e entry)) (find_adapters action [] index) ++ entry ∷ []
        else find_adapters action [] index)

index_add-IsIndexed :
    (entry : RegistryEntry) (index : Index) → IsIndexed entry index (index_add entry index)
unfolding index_add find_adapters
index_add-IsIndexed entry index action = index_actions-bucket entry action entry.capabilities index

-- A registration that the verifier refuses, or whose write the store refuses, changes neither the
-- index nor the store. Any other writes the entry to the store under its own key, and the index
-- then holds it under every action it claims, in place of an older one of the same adapter and
-- version; the actions that it does not claim keep what they had.
pub register_adapter-cases :
    {S : Type 0} (store : ArtifactStore S) (to_json : RegistryEntry → String)
    (verifier : RegistryEntry → RegistrationOutcome) (entry : RegistryEntry) (index : Index) (s : S)
    → let written =
        store.put (entry_key entry.adapter_id entry.adapter_version) (to_json entry) s in
      let (outcome, after) = register_adapter store to_json verifier entry (index, s) in
      ((verifier entry).accepted ≡ false → (outcome ≡ some (verifier entry)) × (after ≡ (index, s)))
      × ((verifier entry).accepted ≡ true
          → written ≡ none
          → (outcome ≡ none) × (after ≡ (index, s)))
      × ((s' : S)
          → (verifier entry).accepted ≡ true
          → written ≡ some s'
          → (outcome ≡ some (verifier entry)) × (after.1 ≡ s') × IsIndexed entry index after.0)
unfolding register_adapter
register_adapter-cases store to_json verifier entry index s = (
  λ refused. (ground arith, ground arith),
  λ accepted raised. (ground arith, ground arith),
  λ s' accepted done. (
    ground arith,
    ground arith,
    rw (accepted, done, register_adapter) (index_add-IsIndexed entry index),
  ),
)
