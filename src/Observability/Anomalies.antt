-- ===== src/Observability/Anomalies.antt =====
-- src/observability.py: when a cost stands out.
use aieos_agent_harness.Base.{
  ℕ, ◌*◌, ◌-◌, ◌<◌, string_eq, ◌≡◌, ◌≢◌, ◌↔◌, refl, sym, ap, ◌∙◌, inl, inr, true, none, some, List,
  [], ◌∷◌, ◌==◌, Bool-cases, map, arith, Option-cases,
}
use aieos_agent_harness.Base.Lists.{count_if, sum, length, keep}
use aieos_agent_harness.Adapter.{ok}
use aieos_agent_harness.Observability.{InvocationRecord, Env, Log, read_records}
use aieos_agent_harness.Observability.Totals.{cost_where}
use aieos_agent_harness.Observability.Summaries.{
  Anomaly, same_type, cost_of, exceeds, mean, find_anomaly, detect_cost_anomaly, on_records,
}

same_type-sum :
    (v : InvocationRecord) (rs : List InvocationRecord)
    → (sum (map cost_of (same_type v rs)) ≡ cost_where (λ r. r.artifact_type) v.artifact_type rs)
      × (length (map cost_of (same_type v rs))
          ≡ count_if (λ r. r.artifact_type == v.artifact_type) rs)
unfolding same_type keep cost_where count_if cost_of
same_type-sum v [] = (refl, refl)
same_type-sum v (r ∷ rs) =
    let (total, n) = same_type-sum v rs in (ground (arith, total), ground (arith, n))

exceeds_iff :
    (cost : ℕ) (costs : List ℕ)
    → (exceeds cost costs ≡ true) ↔ ((0 < sum costs) × (3 * sum costs < cost * length costs))
unfolding exceeds mean
exceeds_iff cost [] = (λ e. absurd (cc), λ h. absurd (omega (arith, h.0)))
exceeds_iff cost (c ∷ costs) = (λ e. ground (arith, e), λ h. ground (arith, h))

find_anomaly_some :
    (v : InvocationRecord) (w : ℕ) (rs : List InvocationRecord)
    → (find_anomaly v w rs ≢ none) ↔ (exceeds v.cost_usd (map cost_of (same_type v rs)) ≡ true)
unfolding find_anomaly
find_anomaly_some v w rs = elim (Bool-cases (exceeds v.cost_usd (map cost_of (same_type v rs)))) [
  | inl e ↦ (λ _. e, λ _ q. ground (arith, e, q))
  | inr e ↦ (λ n. absurd (n (ground (arith, e))), λ t. cc)
]

detect_cost_anomaly-ok :
    (env : Env) (now : ℕ) (v : InvocationRecord) (w : ℕ) (log : Log) (rs : List InvocationRecord)
    → read_records env (some (now - w * 3600000000)) log ≡ ok rs
    → detect_cost_anomaly env now v w log ≡ ok (find_anomaly v w rs)
unfolding detect_cost_anomaly on_records
detect_cost_anomaly-ok env now v w log rs h = rw (h, on_records) refl

-- Where the records of the window can be read, a call is reported as a cost anomaly exactly when the
-- window's records of its artifact type cost something in all, and the call costs more than three
-- times their mean.
pub detect_cost_anomaly_iff :
    (env : Env) (now : ℕ) (v : InvocationRecord) (window_hours : ℕ) (log : Log)
    (rs : List InvocationRecord)
    → read_records env (some (now - window_hours * 3600000000)) log ≡ ok rs
    → ((a : Anomaly) × (detect_cost_anomaly env now v window_hours log ≡ ok (some a))) ↔ (
        (0 < cost_where (λ r. r.artifact_type) v.artifact_type rs)
        × (3 * cost_where (λ r. r.artifact_type) v.artifact_type rs
            < v.cost_usd * count_if (λ r. r.artifact_type == v.artifact_type) rs))
detect_cost_anomaly_iff env now v w log rs h =
    let (total, n) = same_type-sum v rs in
    let over = exceeds_iff v.cost_usd (map cost_of (same_type v rs)) in
    let found = find_anomaly_some v w rs in
    let flags : (find_anomaly v w rs ≢ none) ↔ (
        (0 < cost_where (λ r. r.artifact_type) v.artifact_type rs)
        × (3 * cost_where (λ r. r.artifact_type) v.artifact_type rs
            < v.cost_usd * count_if (λ r. r.artifact_type == v.artifact_type) rs)) =
      rw (sym total, sym n) (λ x. over.0 (found.0 x), λ x. found.1 (over.1 x)) in
    let at = detect_cost_anomaly-ok env now v w log rs h in
    (
      λ (a, e). flags.0 (λ q. ground (arith, at, e, q)),
      λ x. elim (Option-cases (find_anomaly v w rs)) [
        | inl q ↦ absurd (flags.1 x q)
        | inr (a, q) ↦ (a, at ∙ ap ok q)
      ],
    )
