-- ===== src/Observability/Health.antt =====
-- src/observability.py: the health of a provider, by the records of its calls.
use text.Mathlib.TextEquality.{eq_iff}
use aieos_agent_harness.Base.{
  ℕ, ◌+◌, ◌*◌, ◌<◌, ◌≤◌, String, string_eq, ◌≡◌, ◌↔◌, ◌⊎◌, refl, sym, ap, inl, inr, Bool, ◌&&◌,
  Option, none, some, List, [], ◌∷◌, ◌==◌, arith, Option-cases,
}
use aieos_agent_harness.Base.Lists.{count_if}
use aieos_agent_harness.Base.Dict
use aieos_agent_harness.Base.Dict.{Dict}
use aieos_agent_harness.Observability.{InvocationRecord}
use aieos_agent_harness.Observability.Summaries.{
  Calls, no_calls, count_call, gather, is_failure, current_status, ProviderHealth, report_calls,
  report_providers, summarize_health,
}

-- The calls of one provider.
abbrev pub is_of : String → InvocationRecord → Bool
is_of p r = r.provider == p

abbrev pub fails_at : String → InvocationRecord → Bool
fails_at p r = r.provider == p && is_failure r

module _ (p : String) where
  -- The numbers of one provider's entry after the loop.
  gather-counts :
      (rs : List InvocationRecord) (d : Dict String Calls)
      → ((Dict.get_or (gather rs d) p no_calls).total
          ≡ (Dict.get_or d p no_calls).total + count_if (is_of p) rs)
        × ((Dict.get_or (gather rs d) p no_calls).failures
            ≡ (Dict.get_or d p no_calls).failures + count_if (fails_at p) rs)
  unfolding gather count_if count_call
  gather-counts [] d = (omega arith, omega arith)
  gather-counts (r ∷ rs) d =
      let c = count_call r (Dict.get_or d r.provider no_calls) in
      let (total, failures) = gather-counts rs (Dict.insert r.provider c d) in
      let at = Dict.get_or-insert p r.provider c no_calls d in
      (ground (arith, total, at), ground (arith, failures, at))

-- Every entry has a call.
abbrev IsCalled : Dict String Calls → Type 0
IsCalled d = (p : String) (c : Calls) → Dict.get d p ≡ some c → 0 < c.total

gather-IsCalled :
    (rs : List InvocationRecord) (d : Dict String Calls) → IsCalled d → IsCalled (gather rs d)
unfolding gather count_call
gather-IsCalled [] d h = h
gather-IsCalled (r ∷ rs) d h =
    let n = count_call r (Dict.get_or d r.provider no_calls) in
    gather-IsCalled rs (Dict.insert r.provider n d) (λ p c e.
      let at = Dict.get-insert p r.provider n d in let old = h p c in ground (arith, at, e, old))

get-report_providers :
    (p : String) (d : Dict String Calls)
    → Dict.get (report_providers d) p ≡ elim (Dict.get d p) as (λ _. Option ProviderHealth) [
      | none ↦ none
      | some c ↦ some (report_calls c)
    ]
unfolding Dict.get report_providers
get-report_providers p [] = refl
get-report_providers p ((k, c) ∷ d) = ground (arith, get-report_providers p d)

-- What a provider's entry says of the records: their number, the number that failed, and the status by
-- the share that failed, less than a half or not.
pub record Reports (p : String) (rs : List InvocationRecord) (h : ProviderHealth) : Type 0 where
  pub called : 0 < count_if (is_of p) rs
  pub total : h.total_invocations ≡ count_if (is_of p) rs
  pub failed : h.failures ≡ count_if (fails_at p) rs
  pub is_ok : (h.current_status ≡ "OK") ↔ (count_if (fails_at p) rs ≡ 0)
  pub is_down :
      (h.current_status ≡ "DOWN")
      ↔ ((0 < count_if (fails_at p) rs) × (count_if (is_of p) rs ≤ 2 * count_if (fails_at p) rs))
  pub is_known :
      (h.current_status ≡ "OK") ⊎ (h.current_status ≡ "DEGRADED") ⊎ (h.current_status ≡ "DOWN")

status_cases :
    (f n : ℕ)
    → ((current_status f n ≡ "OK") ↔ (f ≡ 0))
      × ((current_status f n ≡ "DOWN") ↔ ((0 < f) × (n ≤ 2 * f)))
      × ((current_status f n ≡ "OK")
          ⊎ (current_status f n ≡ "DEGRADED")
          ⊎ (current_status f n ≡ "DOWN"))
unfolding current_status
status_cases f n =
    let od = eq_iff "OK" "DOWN" in
    let og = eq_iff "OK" "DEGRADED" in
    let gd = eq_iff "DEGRADED" "DOWN" in
    (
      (λ e. ground (arith, od, og, gd, e), λ e. ground (arith, e)),
      (λ e. ground (arith, od, og, gd, e), λ e. ground (arith, e)),
      ground arith,
    )

-- The entry of a provider, and none for a provider that has none.
get_or_cases :
    (d : Dict String Calls) (p : String)
    → ((Dict.get d p ≡ none) × (Dict.get_or d p no_calls ≡ no_calls))
      ⊎ ((c : Calls) × (Dict.get d p ≡ some c) × (Dict.get_or d p no_calls ≡ c))
unfolding Dict.get_or
get_or_cases d p = elim (Option-cases (Dict.get d p)) [
  | inl e ↦ inl (e, rw (e, Dict.get_or) refl)
  | inr (c, e) ↦ inr (c, e, rw (e, Dict.get_or) refl)
]

empty_calls :
    (p : String)
    → ((Dict.get_or [] p no_calls).total ≡ 0) × ((Dict.get_or [] p no_calls).failures ≡ 0)
unfolding Dict.get_or Dict.get no_calls
empty_calls p = (refl, refl)

no_calls-total : no_calls.total ≡ 0
unfolding no_calls
no_calls-total = refl

report_calls-Reports :
    (p : String) (rs : List InvocationRecord) (c : Calls)
    → 0 < c.total
    → c.total ≡ count_if (is_of p) rs
    → c.failures ≡ count_if (fails_at p) rs
    → Reports p rs (report_calls c)
unfolding report_calls
report_calls-Reports p rs c some_call total failures =
    let (up, down, known) = status_cases c.failures c.total in
    record {
      called = omega (arith, some_call, total);
      total = total;
      failed = failures;
      is_ok = rw (sym failures) up;
      is_down = rw (sym failures, sym total) down;
      is_known = known;
    }

abbrev pub Entry : String → List InvocationRecord → Option ProviderHealth → Type 0
Entry p rs none = count_if (is_of p) rs ≡ 0
Entry p rs (some h) = Reports p rs h

-- A provider has an entry in the health summary exactly when a record names it. The entry counts its
-- records and the failed ones among them, and its status is OK when none failed, DOWN when half or
-- more failed, and otherwise DEGRADED.
pub summarize_health-Reports :
    (rs : List InvocationRecord) (p : String) → Entry p rs (Dict.get (summarize_health rs) p)
unfolding summarize_health
summarize_health-Reports rs p =
    let (total, failures) = gather-counts p rs [] in
    let (no_total, no_failures) = empty_calls p in
    let shown = get-report_providers p (gather rs []) in
    let called = gather-IsCalled rs [] (λ q c e. absurd (unfold Dict.get in cc)) in
    elim (get_or_cases (gather rs []) p) [
      | inl (e, o) ↦
          let same = ap (λ c. c.total) o in
          rw (shown, e) (omega (arith, total, no_total, same, no_calls-total))
      | inr (c, e, o) ↦
          let all_of = ap (λ c. c.total) o in
          let failed_of = ap (λ c. c.failures) o in
          rw (shown, e)
            (report_calls-Reports p rs c (called p c e) (omega (arith, total, no_total, all_of))
              (omega (arith, failures, no_failures, failed_of)))
    ]
