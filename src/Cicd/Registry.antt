-- ===== src/Cicd/Registry.antt =====
-- src/cicd/registry.py: `CapabilityRegistry`, its index and the artifact store behind it. JSON is a
-- parameter, `to_json` and `from_json`.
use aieos_agent_harness.Base.{
  String, string_eq, option_eq, ◌<>◌, Bool, not, ◌&&◌, Option, none, some, List, [], ◌∷◌, ◌++◌,
  ◌==◌, if◌then◌else◌,
}
use aieos_agent_harness.Base.Dict
use aieos_agent_harness.Base.Dict.{Dict, get-insert}
use aieos_agent_harness.Base.Lists.{all, any, keep}
use aieos_agent_harness.Cicd.{RegistryEntry, RegistrationOutcome, ArtifactStore}

abbrev pub registry_prefix : String
registry_prefix = "registry"

-- From an action to its entries.
abbrev pub Index : Type 0
Index = Dict String (List RegistryEntry)

unfoldable pub entry_key : String → String → String
entry_key adapter_id adapter_version =
    registry_prefix <> "/" <> adapter_id <> "/" <> adapter_version <> ".json"

-- `(a.adapter_id, a.adapter_version) == (b.adapter_id, b.adapter_version)`
unfoldable pub same_adapter : RegistryEntry → RegistryEntry → Bool
same_adapter a b = a.adapter_id == b.adapter_id && a.adapter_version == b.adapter_version

unfoldable pub bucket : Index → String → List RegistryEntry
bucket index action = Dict.get_or index action []

unfoldable pub index_actions : RegistryEntry → List String → Index → Index
index_actions entry [] index = index
index_actions entry (action ∷ actions) index = index_actions entry actions (
    Dict.insert action (keep (λ e. not (same_adapter e entry)) (bucket index action) ++ entry ∷ [])
      index)

-- `_index_add`
unfoldable pub index_add : RegistryEntry → Index → Index
index_add entry index = index_actions entry entry.capabilities index

-- The inner loop of `_rebuild_index_from_store`.
unfoldable pub append_actions : RegistryEntry → List String → Index → Index
append_actions entry [] index = index
append_actions entry (action ∷ actions) index =
    append_actions entry actions (Dict.insert action (bucket index action ++ entry ∷ []) index)

-- `_rebuild_index_from_store`: a payload that does not read as an entry is passed over.
unfoldable pub rebuild_from : (String → Option RegistryEntry) → List String → Index → Index
rebuild_from from_json [] index = index
rebuild_from from_json (raw ∷ raws) index = elim (from_json raw) [
  | none ↦ rebuild_from from_json raws index
  | some entry ↦ rebuild_from from_json raws (append_actions entry entry.capabilities index)
]

unfoldable pub rebuild_index :
    {S : Type 0} → ArtifactStore S → (String → Option RegistryEntry) → S → Index
rebuild_index store from_json s = rebuild_from from_json (store.payloads registry_prefix s) []

-- `register_adapter` on the index and the store; `none` is what the store raised.
unfoldable pub register_adapter :
    {S : Type 0}
    → ArtifactStore S
    → (to_json : RegistryEntry → String) → (verifier : RegistryEntry → RegistrationOutcome)
    → RegistryEntry
    → Index × S
    → Option RegistrationOutcome × (Index × S)
register_adapter store to_json verifier entry (index, s) =
    if (verifier entry).accepted
    then elim (store.put (entry_key entry.adapter_id entry.adapter_version) (to_json entry) s) [
      | none ↦ (none, (index, s))
      | some s' ↦ (some (verifier entry), (index_add entry index, s'))
    ]
    else (some (verifier entry), (index, s))

-- `e.context` has every tag of the query.
unfoldable pub matches : Dict String String → RegistryEntry → Bool
matches context e = all (λ (k, v). Dict.get e.context k == some v) context

unfoldable pub find_adapters : String → Dict String String → Index → List RegistryEntry
find_adapters action [] index = bucket index action
find_adapters action (tag ∷ tags) index = keep (matches (tag ∷ tags)) (bucket index action)

-- The inner loop of `all_entries`; `seen` holds the keys of the entries that are listed already.
unfoldable pub list_bucket : List RegistryEntry → List RegistryEntry → List RegistryEntry
list_bucket [] unique = unique
list_bucket (entry ∷ entries) unique =
    list_bucket entries (if any (same_adapter entry) unique then unique else unique ++ entry ∷ [])

unfoldable pub list_buckets : List (List RegistryEntry) → List RegistryEntry → List RegistryEntry
list_buckets [] unique = unique
list_buckets (entries ∷ rest) unique = list_buckets rest (list_bucket entries unique)

unfoldable pub all_entries : Index → List RegistryEntry
all_entries index = list_buckets (Dict.values index) []
