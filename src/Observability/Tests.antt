-- ===== src/Observability/Tests.antt =====
-- A log of three calls: two of one provider, the later of which failed and cost more.
use text.Mathlib.TextEquality.{eq_iff}
use aieos_agent_harness.Base.{
  ℕ, String, string_eq, ◌≡◌, refl, true, false, Option, none, some, List, [], ◌∷◌, ◌++◌, ◌==◌, map,
  ◌∙◌, ◌*◌, ◌-◌, if◌then◌else◌,
}
use aieos_agent_harness.Base.Dict
use aieos_agent_harness.Base.Lists.{keep, sum}
use aieos_agent_harness.Adapter.{ok}
use aieos_agent_harness.Models.{pre_generation, fallback}
use aieos_agent_harness.Observability.{
  InvocationRecord, Env, Value, object, aware, record_to_dict, read_records, read_lines, lines_of,
  is_since, replace_z,
}
use aieos_agent_harness.State.Cells.{strip, strip_end, skip_spaces, is_space}
use aieos_agent_harness.Observability.Summaries.{cost_of, summarize_costs, summarize_health}
use aieos_agent_harness.Observability.History.{record_all, passes, read_records-record_all, IsCoded}
use aieos_agent_harness.Observability.Totals.{summarize_costs-books, cost_where, sum_of}
use aieos_agent_harness.Observability.Health.{Entry, summarize_health-Reports}

abbrev call : String → String → ℕ → Option String → InvocationRecord
call at provider cost error = record {
  timestamp = at;
  artifact_type = "PRD";
  artifact_id = at;
  event = pre_generation;
  provider = provider;
  model = "m";
  strategy = fallback;
  tokens_in = 10;
  tokens_out = 20;
  cost_usd = cost;
  latency_ms = 1500;
  result = "success";
  validation_status = none;
  convergence_iteration = 1;
  error = error;
  species = "";
}

abbrev early : InvocationRecord
early = call "1Z" "anthropic" 5 none

abbrev later : InvocationRecord
later = call "2Z" "anthropic" 40 (some "timeout")

abbrev env : Env
env = record {
  dumps = λ d. elim (Dict.get d "timestamp") [
    | some (Value.text t) ↦ if t == "1Z" then "{1}" else "{2}"
    | _ ↦ ""
  ];
  loads = λ s. if s == "{1}" then object (record_to_dict early) else object (record_to_dict later);
  parse = λ s. if s == "1+00:00" then some (aware 1) else some (aware 2);
}

abbrev calls : List InvocationRecord
calls = early ∷ later ∷ []

early_line : strip (env.dumps (record_to_dict early)) ≡ "{1}"
unfolding Dict.get string_eq strip strip_end skip_spaces is_space record_to_dict
early_line = refl

early-IsCoded : IsCoded env early
unfolding string_eq
early-IsCoded = rw early_line ((λ e. let k = eq_iff "{1}" "" in cc), refl)

later_line : strip (env.dumps (record_to_dict later)) ≡ "{2}"
unfolding Dict.get string_eq strip strip_end skip_spaces is_space record_to_dict
later_line = refl

later-IsCoded : IsCoded env later
unfolding string_eq
later-IsCoded = rw later_line ((λ e. let k = eq_iff "{2}" "" in cc), refl)

early_timed : is_since env (some 2) early ≡ ok false
unfolding is_since replace_z string_eq
early_timed = refl

later_timed : is_since env (some 2) later ≡ ok true
unfolding is_since replace_z string_eq
later_timed = refl

empty_log : read_records env (some 2) none ≡ ok []
unfolding read_records read_lines lines_of
empty_log = refl

read_records-record_all_example :
    read_records env (some 2) (record_all env calls none)
    ≡ ok ([] ++ keep (λ r. passes (is_since env (some 2) r)) calls)
read_records-record_all_example =
    read_records-record_all env (some 2) calls [] none (early-IsCoded, (later-IsCoded, tt))
      ((false, early_timed), ((true, later_timed), tt)) empty_log

summarize_costs-books_example :
    ((k : String)
      → (Dict.get_or (summarize_costs calls).cost_by_provider k 0
          ≡ cost_where (λ r. r.provider) k calls)
        × (Dict.get_or (summarize_costs calls).cost_by_artifact_type k 0
            ≡ cost_where (λ r. r.artifact_type) k calls))
    × (sum_of (λ n. n) (summarize_costs calls).cost_by_provider
        ≡ (summarize_costs calls).total_cost)
    × (sum_of (λ n. n) (summarize_costs calls).cost_by_artifact_type
        ≡ (summarize_costs calls).total_cost)
    × ((summarize_costs calls).total_cost ≡ sum (map cost_of calls))
summarize_costs-books_example = summarize_costs-books calls

summarize_health-Reports_example :
    Entry "anthropic" calls (Dict.get (summarize_health calls) "anthropic")
summarize_health-Reports_example = summarize_health-Reports calls "anthropic"

both_read :
    read_records env (some (3600000002 - 1 * 3600000000)) (record_all env calls none)
    ≡ ok (later ∷ [])
both_read =
    read_records-record_all env (some 2) calls [] none (early-IsCoded, (later-IsCoded, tt))
      ((false, early_timed), ((true, later_timed), tt)) empty_log
    ∙ unfold keep is_since replace_z string_eq in refl
