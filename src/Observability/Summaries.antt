-- ===== src/Observability/Summaries.antt =====
-- src/observability.py: the aggregates over the records of the log. A mean is kept as its sum and
-- count; the code rounds it to a tenth, and the sums of costs to a millionth of a dollar.
use Prim.Native.String.{String}
use aieos_agent_harness.Base.{
  ℕ, suc, ◌-◌, ◌+◌, ◌*◌, string_eq, Bool, true, false, ◌||◌, Option, none, some, List, [], ◌∷◌,
  ◌++◌, map, ◌==◌, eqb, ltb, if◌then◌else◌,
}
use aieos_agent_harness.Base.Lists.{keep, sum, length}
use aieos_agent_harness.Base.Dict
use aieos_agent_harness.Base.Search.{occurs_in}
use aieos_agent_harness.Base.Dict.{Dict}
use aieos_agent_harness.Adapter.{Outcome, ok, err}
use aieos_agent_harness.Observability.{InvocationRecord, Env, Log, LogError, read_records}

abbrev Records : Type 0
Records = List InvocationRecord

unfoldable pub on_records :
    {A : Type 0} → (Records → A) → Outcome LogError Records → Outcome LogError A
on_records f o = elim o [ ok rs ↦ ok (f rs) | err e ↦ err e ]

pub record CostSummary : Type 0 where
  pub total_cost : ℕ
  pub cost_by_provider : Dict String ℕ
  pub cost_by_artifact_type : Dict String ℕ
  pub invocation_count : ℕ

-- `d[k] = d.get(k, 0.0) + cost`
unfoldable pub add_cost : String → ℕ → Dict String ℕ → Dict String ℕ
add_cost k cost d = Dict.insert k (Dict.get_or d k 0 + cost) d

-- The loop of `cost_summary`.
unfoldable pub add_costs : Records → ℕ → Dict String ℕ → Dict String ℕ → CostSummary
add_costs [] total by_provider by_type = record {
  total_cost = total;
  cost_by_provider = by_provider;
  cost_by_artifact_type = by_type;
  invocation_count = 0;
}
add_costs (r ∷ rs) total by_provider by_type =
    add_costs rs (total + r.cost_usd) (add_cost r.provider r.cost_usd by_provider)
      (add_cost r.artifact_type r.cost_usd by_type)

-- The records of an initiative.
unfoldable pub selected : Option String → Records → Records
selected none rs = rs
selected (some initiative) rs =
    if initiative == "" then rs else keep (λ r. occurs_in initiative r.artifact_id) rs

unfoldable pub summarize_costs : Records → CostSummary
summarize_costs rs = record (add_costs rs 0 [] []) { invocation_count = length rs }

unfoldable pub cost_summary : Env → Option String → Log → Outcome LogError CostSummary
cost_summary env initiative log =
    on_records (λ rs. summarize_costs (selected initiative rs)) (read_records env none log)

-- `r.result == "failure" or r.error`
unfoldable pub is_failure : InvocationRecord → Bool
is_failure r =
    r.result == "failure"
    || elim r.error [ none ↦ false | some e ↦ if e == "" then false else true ]

-- What is gathered of one provider.
pub record Calls : Type 0 where
  pub total : ℕ
  pub failures : ℕ
  pub latencies : List ℕ
  pub last_result : String

unfoldable pub no_calls : Calls
no_calls = record { total = 0; failures = 0; latencies = []; last_result = "" }

unfoldable pub count_call : InvocationRecord → Calls → Calls
count_call r p = record {
  total = suc p.total;
  failures = if is_failure r then suc p.failures else p.failures;
  latencies = p.latencies ++ r.latency_ms ∷ [];
  last_result = r.result;
}

-- The first loop of `provider_health_summary`.
unfoldable pub gather : Records → Dict String Calls → Dict String Calls
gather [] providers = providers
gather (r ∷ rs) providers =
    gather rs
      (Dict.insert r.provider (count_call r (Dict.get_or providers r.provider no_calls)) providers)

-- The mean of numbers: their sum and their count, of which it is the quotient.
unfoldable pub mean : List ℕ → ℕ × ℕ
mean xs = (sum xs, length xs)

-- `failures / total < 0.5` by cross-multiplying.
unfoldable pub current_status : (failures total : ℕ) → String
current_status failures total =
    if eqb failures 0 then "OK" else if ltb (2 * failures) total then "DEGRADED" else "DOWN"

pub record ProviderHealth : Type 0 where
  pub total_invocations : ℕ
  pub failures : ℕ
  pub avg_latency_ms : ℕ × ℕ
  pub current_status : String

unfoldable pub report_calls : Calls → ProviderHealth
report_calls p = record {
  total_invocations = p.total;
  failures = p.failures;
  avg_latency_ms = mean p.latencies;
  current_status = current_status p.failures p.total;
}

unfoldable pub report_providers : Dict String Calls → Dict String ProviderHealth
report_providers [] = []
report_providers ((provider, p) ∷ providers) =
    (provider, report_calls p) ∷ report_providers providers

unfoldable pub summarize_health : Records → Dict String ProviderHealth
summarize_health rs = report_providers (gather rs [])

unfoldable pub provider_health_summary : Env → Log → Outcome LogError (Dict String ProviderHealth)
provider_health_summary env log = on_records summarize_health (read_records env none log)

-- What the warning of a cost anomaly says: the mean is the quotient of `mean_cost`.
pub record Anomaly : Type 0 where
  pub artifact_type : String
  pub cost_usd : ℕ
  pub mean_cost : ℕ × ℕ
  pub window_hours : ℕ

unfoldable pub same_type : InvocationRecord → Records → Records
same_type invocation rs = keep (λ r. r.artifact_type == invocation.artifact_type) rs

unfoldable pub cost_of : InvocationRecord → ℕ
cost_of r = r.cost_usd

-- `cost > 3 * mean`, where there is a mean above zero.
unfoldable pub exceeds : ℕ → List ℕ → Bool
exceeds cost [] = false
exceeds cost (c ∷ costs) =
    let (total, n) = mean (c ∷ costs) in if eqb total 0 then false else ltb (3 * total) (cost * n)

unfoldable pub find_anomaly : InvocationRecord → ℕ → Records → Option Anomaly
find_anomaly invocation window_hours rs =
    let costs = map cost_of (same_type invocation rs) in
    if exceeds invocation.cost_usd costs
    then some (record {
      artifact_type = invocation.artifact_type;
      cost_usd = invocation.cost_usd;
      mean_cost = mean costs;
      window_hours = window_hours;
    })
    else none

-- `now` is in microseconds.
unfoldable pub detect_cost_anomaly :
    Env
    → (now : ℕ) → InvocationRecord
    → (window_hours : ℕ) → Log
    → Outcome LogError (Option Anomaly)
detect_cost_anomaly env now invocation window_hours log =
    on_records (find_anomaly invocation window_hours)
      (read_records env (some (now - window_hours * 3600000000)) log)

-- What is gathered of one species.
pub record Bucket : Type 0 where
  pub invocations : ℕ
  pub total_cost : ℕ
  pub latencies : List ℕ
  pub failures : ℕ

unfoldable pub no_bucket : Bucket
no_bucket = record { invocations = 0; total_cost = 0; latencies = []; failures = 0 }

unfoldable pub species_key : InvocationRecord → String
species_key r = if r.species == "" then "UNKNOWN" else r.species

unfoldable pub count_species : InvocationRecord → Bucket → Bucket
count_species r b = record {
  invocations = suc b.invocations;
  total_cost = b.total_cost + r.cost_usd;
  latencies = b.latencies ++ r.latency_ms ∷ [];
  failures = if is_failure r then suc b.failures else b.failures;
}

-- The first loop of `species_summary`.
unfoldable pub fill_buckets : Records → Dict String Bucket → Dict String Bucket
fill_buckets [] buckets = buckets
fill_buckets (r ∷ rs) buckets = fill_buckets rs (
    Dict.insert (species_key r) (count_species r (Dict.get_or buckets (species_key r) no_bucket))
      buckets)

pub record SpeciesMetrics : Type 0 where
  pub invocations : ℕ
  pub total_cost : ℕ
  pub avg_latency : ℕ × ℕ
  pub failures : ℕ

unfoldable pub report_bucket : Bucket → SpeciesMetrics
report_bucket b = record {
  invocations = b.invocations;
  total_cost = b.total_cost;
  avg_latency = mean b.latencies;
  failures = b.failures;
}

unfoldable pub report_species : Dict String Bucket → Dict String SpeciesMetrics
report_species [] = []
report_species ((key, b) ∷ buckets) = (key, report_bucket b) ∷ report_species buckets

unfoldable pub summarize_species : Records → Dict String SpeciesMetrics
summarize_species rs = report_species (fill_buckets rs [])

unfoldable pub species_summary : Env → Log → Outcome LogError (Dict String SpeciesMetrics)
species_summary env log = on_records summarize_species (read_records env none log)
