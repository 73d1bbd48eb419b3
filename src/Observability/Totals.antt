-- ===== src/Observability/Totals.antt =====
-- src/observability.py: what the summaries of costs and of species add up to.
use aieos_agent_harness.Base.{
  ℕ, ◌+◌, String, string_eq, ◌≡◌, refl, sym, ◌∙◌, List, [], ◌∷◌, map, ◌==◌, if◌then◌else◌, arith,
}
use aieos_agent_harness.Base.Lists.{sum, length, count_if}
use aieos_agent_harness.Base.Dict
use aieos_agent_harness.Base.Dict.{Dict}
use aieos_agent_harness.Observability.{InvocationRecord}
use aieos_agent_harness.Observability.Summaries.{
  add_cost, add_costs, summarize_costs, cost_of, fill_buckets, Bucket, no_bucket, count_species,
  species_key, SpeciesMetrics, report_species, report_bucket, summarize_species, is_failure,
}

-- What a measure of the values of a dict adds up to.
unfoldable pub sum_of : {V : Type 0} → (V → ℕ) → Dict String V → ℕ
sum_of m [] = 0
sum_of m ((k, v) ∷ d) = m v + sum_of m d

pub sum_of-insert :
    {V : Type 0} (m : V → ℕ) (k : String) (v x : V) (d : Dict String V)
    → m x ≡ 0
    → sum_of m (Dict.insert k v d) + m (Dict.get_or d k x) ≡ sum_of m d + m v
unfolding sum_of Dict.insert Dict.get_or Dict.get
sum_of-insert m k v x [] h = omega (arith, h)
sum_of-insert m k v x ((j, w) ∷ d) h = ground (arith, sum_of-insert m k v x d h)

-- The costs of the records for which a key is the one asked for.
unfoldable pub cost_where : (InvocationRecord → String) → String → List InvocationRecord → ℕ
cost_where key k [] = 0
cost_where key k (r ∷ rs) = (if key r == k then r.cost_usd else 0) + cost_where key k rs

add_costs-total :
    (rs : List InvocationRecord) (total : ℕ) (p t : Dict String ℕ)
    → (add_costs rs total p t).total_cost ≡ total + sum (map cost_of rs)
unfolding add_costs cost_of
add_costs-total [] total p t = omega arith
add_costs-total (r ∷ rs) total p t =
    let rest =
      add_costs-total rs (total + r.cost_usd) (add_cost r.provider r.cost_usd p)
        (add_cost r.artifact_type r.cost_usd t) in
    omega (arith, rest)

get_or-add_cost :
    (j k : String) (c : ℕ) (d : Dict String ℕ)
    → Dict.get_or (add_cost k c d) j 0 ≡ (if k == j then c else 0) + Dict.get_or d j 0
unfolding add_cost
get_or-add_cost j k c d =
    let e = Dict.get_or-insert j k (Dict.get_or d k 0 + c) 0 d in ground (arith, e)

add_costs-provider :
    (k : String) (rs : List InvocationRecord) (total : ℕ) (p t : Dict String ℕ)
    → Dict.get_or (add_costs rs total p t).cost_by_provider k 0
      ≡ Dict.get_or p k 0 + cost_where (λ r. r.provider) k rs
unfolding add_costs cost_where
add_costs-provider k [] total p t = omega arith
add_costs-provider k (r ∷ rs) total p t =
    let rest =
      add_costs-provider k rs (total + r.cost_usd) (add_cost r.provider r.cost_usd p)
        (add_cost r.artifact_type r.cost_usd t) in
    let one = get_or-add_cost k r.provider r.cost_usd p in omega (arith, rest, one)

add_costs-type :
    (k : String) (rs : List InvocationRecord) (total : ℕ) (p t : Dict String ℕ)
    → Dict.get_or (add_costs rs total p t).cost_by_artifact_type k 0
      ≡ Dict.get_or t k 0 + cost_where (λ r. r.artifact_type) k rs
unfolding add_costs cost_where
add_costs-type k [] total p t = omega arith
add_costs-type k (r ∷ rs) total p t =
    let rest =
      add_costs-type k rs (total + r.cost_usd) (add_cost r.provider r.cost_usd p)
        (add_cost r.artifact_type r.cost_usd t) in
    let one = get_or-add_cost k r.artifact_type r.cost_usd t in omega (arith, rest, one)

sum_of-add_cost :
    (k : String) (c : ℕ) (d : Dict String ℕ)
    → sum_of (λ n. n) (add_cost k c d) ≡ sum_of (λ n. n) d + c
unfolding add_cost
sum_of-add_cost k c d =
    let e = sum_of-insert (λ n. n) k (Dict.get_or d k 0 + c) 0 d refl in omega (arith, e)

add_costs-sums :
    (rs : List InvocationRecord) (total : ℕ) (p t : Dict String ℕ)
    → (sum_of (λ n. n) (add_costs rs total p t).cost_by_provider
        ≡ sum_of (λ n. n) p + sum (map cost_of rs))
      × (sum_of (λ n. n) (add_costs rs total p t).cost_by_artifact_type
          ≡ sum_of (λ n. n) t + sum (map cost_of rs))
unfolding add_costs cost_of
add_costs-sums [] total p t = (omega arith, omega arith)
add_costs-sums (r ∷ rs) total p t =
    let (by_p, by_t) =
      add_costs-sums rs (total + r.cost_usd) (add_cost r.provider r.cost_usd p)
        (add_cost r.artifact_type r.cost_usd t) in
    let one = sum_of-add_cost r.provider r.cost_usd p in
    let two = sum_of-add_cost r.artifact_type r.cost_usd t in
    (omega (arith, by_p, one), omega (arith, by_t, two))

-- The cost summary books each record once under its provider and once under its artifact type: an
-- entry is the sum of the costs of its records, zero where there is none, and the entries of
-- either dict add up to the total.
pub summarize_costs-books :
    (rs : List InvocationRecord)
    → ((k : String)
        → (Dict.get_or (summarize_costs rs).cost_by_provider k 0
            ≡ cost_where (λ r. r.provider) k rs)
          × (Dict.get_or (summarize_costs rs).cost_by_artifact_type k 0
              ≡ cost_where (λ r. r.artifact_type) k rs))
      × (sum_of (λ n. n) (summarize_costs rs).cost_by_provider ≡ (summarize_costs rs).total_cost)
      × (sum_of (λ n. n) (summarize_costs rs).cost_by_artifact_type
          ≡ (summarize_costs rs).total_cost)
      × ((summarize_costs rs).total_cost ≡ sum (map cost_of rs))
unfolding summarize_costs
summarize_costs-books rs =
    let total = add_costs-total rs 0 [] [] in
    let (by_p, by_t) = add_costs-sums rs 0 [] [] in
    (
      λ k.
          let p = add_costs-provider k rs 0 [] [] in
          let t = add_costs-type k rs 0 [] [] in
          unfold Dict.get_or Dict.get in (omega (arith, p), omega (arith, t)),
      unfold sum_of in omega (arith, total, by_p),
      unfold sum_of in omega (arith, total, by_t),
      omega (arith, total),
    )

-- A measure of what is gathered, which each record raises by `add`.
module _ (m : Bucket → ℕ) (add : InvocationRecord → ℕ) (zero_at : m no_bucket ≡ 0)
    (step : (r : InvocationRecord) (b : Bucket) → m (count_species r b) ≡ m b + add r) where
  sum_of-fill_buckets :
      (rs : List InvocationRecord) (d : Dict String Bucket)
      → sum_of m (fill_buckets rs d) ≡ sum_of m d + sum (map add rs)
  unfolding fill_buckets
  sum_of-fill_buckets [] d = omega arith
  sum_of-fill_buckets (r ∷ rs) d =
      let old = Dict.get_or d (species_key r) no_bucket in
      let rest = sum_of-fill_buckets rs (Dict.insert (species_key r) (count_species r old) d) in
      let one = sum_of-insert m (species_key r) (count_species r old) no_bucket d zero_at in
      omega (arith, rest, one, step r old)

sum_of-report_species :
    (m : Bucket → ℕ) (n : SpeciesMetrics → ℕ) (d : Dict String Bucket)
    → ((b : Bucket) → n (report_bucket b) ≡ m b)
    → sum_of n (report_species d) ≡ sum_of m d
unfolding sum_of report_species
sum_of-report_species m n [] h = refl
sum_of-report_species m n ((k, b) ∷ d) h = omega (arith, h b, sum_of-report_species m n d h)

sum-ones : (rs : List InvocationRecord) → sum (map (λ _. 1) rs) ≡ length rs
sum-ones [] = refl
sum-ones (r ∷ rs) = omega (arith, sum-ones rs)

failed : InvocationRecord → ℕ
failed r = if is_failure r then 1 else 0

sum-failed : (rs : List InvocationRecord) → sum (map failed rs) ≡ count_if is_failure rs
unfolding failed count_if
sum-failed [] = refl
sum-failed (r ∷ rs) = ground (arith, sum-failed rs)

-- The species share the records out: their invocations add up to the number of records, their
-- costs to the total of the cost summary, and their failures to the number of records that failed.
pub summarize_species-totals :
    (rs : List InvocationRecord)
    → (sum_of (λ m. m.invocations) (summarize_species rs) ≡ length rs)
      × (sum_of (λ m. m.total_cost) (summarize_species rs) ≡ (summarize_costs rs).total_cost)
      × (sum_of (λ m. m.failures) (summarize_species rs) ≡ count_if is_failure rs)
unfolding summarize_species summarize_costs
summarize_species-totals rs =
    let calls : sum_of (λ b. b.invocations) (fill_buckets rs []) ≡ sum (map (λ _. 1) rs) =
      sum_of-fill_buckets (λ b. b.invocations) (λ _. 1) (unfold no_bucket in refl)
        (λ r b. unfold count_species in omega arith) rs []
      ∙ unfold sum_of in omega arith in
    let costs : sum_of (λ b. b.total_cost) (fill_buckets rs []) ≡ sum (map cost_of rs) =
      sum_of-fill_buckets (λ b. b.total_cost) cost_of (unfold no_bucket in refl)
        (λ r b. unfold count_species cost_of in refl) rs []
      ∙ unfold sum_of in omega arith in
    let failures : sum_of (λ b. b.failures) (fill_buckets rs []) ≡ sum (map failed rs) =
      sum_of-fill_buckets (λ b. b.failures) failed (unfold no_bucket in refl)
        (λ r b. unfold count_species failed in ground arith) rs []
      ∙ unfold sum_of in omega arith in
    (
      sum_of-report_species (λ b. b.invocations) (λ m. m.invocations) (fill_buckets rs [])
            (λ b. unfold report_bucket in refl)
          ∙ calls
          ∙ sum-ones rs,
      sum_of-report_species (λ b. b.total_cost) (λ m. m.total_cost) (fill_buckets rs [])
            (λ b. unfold report_bucket in refl)
          ∙ costs
          ∙ sym (add_costs-total rs 0 [] [] ∙ omega arith),
      sum_of-report_species (λ b. b.failures) (λ m. m.failures) (fill_buckets rs [])
            (λ b. unfold report_bucket in refl)
          ∙ failures
          ∙ sum-failed rs,
    )
