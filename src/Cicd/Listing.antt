-- ===== src/Cicd/Listing.antt =====
-- src/cicd/registry.py: what `all_entries` lists.
use aieos_agent_harness.Base.{
  string_eq, ◌≡◌, refl, ◌∙◌, Bool, true, false, not, ◌&&◌, ◌||◌, Bool-cases, inl, inr, List, [],
  ◌∷◌, ◌++◌, arith,
}
use aieos_agent_harness.Base.Lists.{any}
use aieos_agent_harness.Base.Dict
use aieos_agent_harness.Cicd.{RegistryEntry}
use aieos_agent_harness.Cicd.Registry.{Index, same_adapter, list_bucket, list_buckets, all_entries}

any-append :
    (x : RegistryEntry) (xs ys : List RegistryEntry)
    → any (same_adapter x) (xs ++ ys) ≡ (any (same_adapter x) xs || any (same_adapter x) ys)
unfolding any
any-append x [] ys = refl
any-append x (y ∷ xs) ys = ground (arith, any-append x xs ys)

same_adapter_trans :
    (x e y : RegistryEntry)
    → same_adapter x e ≡ true
    → same_adapter e y ≡ true
    → same_adapter x y ≡ true
unfolding same_adapter
same_adapter_trans x e y p q = ground (arith, p, q)

any_same :
    (x e : RegistryEntry) (us : List RegistryEntry)
    → same_adapter x e ≡ true
    → any (same_adapter e) us ≡ true
    → any (same_adapter x) us ≡ true
unfolding any
any_same x e [] p q = q
any_same x e (u ∷ us) p q =
    let now = same_adapter_trans x e u p in
    let later = any_same x e us p in ground (arith, now, later, q)

list_bucket_holds :
    (x : RegistryEntry) (entries unique : List RegistryEntry)
    → any (same_adapter x) (list_bucket entries unique)
      ≡ (any (same_adapter x) unique || any (same_adapter x) entries)
unfolding list_bucket any
list_bucket_holds x [] unique = ground arith
list_bucket_holds x (e ∷ entries) unique = elim (Bool-cases (any (same_adapter e) unique)) [
  | inl seen ↦
      let rest = list_bucket_holds x entries unique in
      let known = any_same x e unique in rw seen (ground (arith, rest, known, seen))
  | inr new ↦
      let rest = list_bucket_holds x entries (unique ++ e ∷ []) in
      let more = any-append x unique (e ∷ []) in rw new (ground (arith, rest, more))
]

list_buckets_holds :
    (x : RegistryEntry) (buckets : List (List RegistryEntry)) (unique : List RegistryEntry)
    → any (same_adapter x) (list_buckets buckets unique)
      ≡ (any (same_adapter x) unique || any (any (same_adapter x)) buckets)
unfolding list_buckets any
list_buckets_holds x [] unique = ground arith
list_buckets_holds x (entries ∷ rest) unique =
    let later = list_buckets_holds x rest (list_bucket entries unique) in
    let now = list_bucket_holds x entries unique in ground (arith, later, now)

-- No two entries of one adapter and version.
unfoldable pub is_distinct_entries : List RegistryEntry → Bool
is_distinct_entries [] = true
is_distinct_entries (e ∷ es) = not (any (same_adapter e) es) && is_distinct_entries es

same_adapter_sym : (x y : RegistryEntry) → same_adapter x y ≡ same_adapter y x
unfolding same_adapter
same_adapter_sym x y = ground arith

distinct_end :
    (us : List RegistryEntry) (e : RegistryEntry)
    → is_distinct_entries us ≡ true
    → any (same_adapter e) us ≡ false
    → is_distinct_entries (us ++ e ∷ []) ≡ true
unfolding is_distinct_entries any
distinct_end [] e h n = refl
distinct_end (u ∷ us) e h n =
    let rest = distinct_end us e in
    let more = any-append u us (e ∷ []) in
    let back = same_adapter_sym u e in ground (arith, rest, more, back, h, n)

list_bucket_distinct :
    (entries unique : List RegistryEntry)
    → is_distinct_entries unique ≡ true
    → is_distinct_entries (list_bucket entries unique) ≡ true
unfolding list_bucket
list_bucket_distinct [] unique h = h
list_bucket_distinct (e ∷ entries) unique h = elim (Bool-cases (any (same_adapter e) unique)) [
  | inl seen ↦ rw seen (list_bucket_distinct entries unique h)
  | inr new ↦ rw new (list_bucket_distinct entries (unique ++ e ∷ []) (distinct_end unique e h new))
]

list_buckets_distinct :
    (buckets : List (List RegistryEntry)) (unique : List RegistryEntry)
    → is_distinct_entries unique ≡ true
    → is_distinct_entries (list_buckets buckets unique) ≡ true
unfolding list_buckets
list_buckets_distinct [] unique h = h
list_buckets_distinct (entries ∷ rest) unique h =
    list_buckets_distinct rest (list_bucket entries unique) (list_bucket_distinct entries unique h)

-- `all_entries` lists an adapter and version exactly when some action of the index has an entry of it,
-- and lists no adapter and version twice.
pub all_entries-lists :
    (index : Index)
    → (is_distinct_entries (all_entries index) ≡ true)
      × ((x : RegistryEntry)
          → any (same_adapter x) (all_entries index)
            ≡ any (any (same_adapter x)) (Dict.values index))
unfolding all_entries
all_entries-lists index = (
  list_buckets_distinct (Dict.values index) [] (unfold is_distinct_entries in refl),
  λ x. list_buckets_holds x (Dict.values index) [] ∙ unfold any in refl,
)
