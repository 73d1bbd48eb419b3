-- ===== src/Pipelines/Health.antt =====
-- src/pipelines.py: `HealthReviewPipeline`. `read` gives the text of a file, `loads` and `dumps` are
-- `json`'s; a cost is in millionths of a dollar, a latency in microseconds, and a mean is a sum and a count.
use Prim.Native.String.{String}
use aieos_agent_harness.Base.{
  ℕ, zero, suc, ◌-◌, ◌<>◌, string_eq, Bool, Option, none, some, List, [], ◌∷◌, ◌++◌, map, ◌==◌,
  if◌then◌else◌,
}
use aieos_agent_harness.Base.Lists.{length, sum, count_if}
use aieos_agent_harness.Base.Search.{split_on}
use aieos_agent_harness.Base.Dict.{Dict}
use aieos_agent_harness.Adapter.{ok, err, Call, Adapter}
use aieos_agent_harness.Models.{AgentRequest, post_validation}
use aieos_agent_harness.State.Cells.{strip}
use aieos_agent_harness.Pipelines.{
  Shell, PipelineResult, metrics_collected, Command, CheckResult, plain_check, ord_section,
  joined_by, pipeline_request,
}
use aieos_agent_harness.Pipelines.Prompts.{health_prompt}

-- What is read of an entry of the log, a JSON object.
pub record LogEntry : Type 0 where
  pub timestamp : Option String
  pub cost_usd : Option ℕ
  pub latency_ms : Option ℕ
  pub result : Option String

-- `json.loads` of a line.
pub data Decoded : Type 0 where
  entry : LogEntry → Decoded
  other undecodable : Decoded

pub record Summary : Type 0 where
  pub entries : ℕ
  pub total_cost_usd : ℕ
  pub avg_latency_ms : ℕ × ℕ
  pub failure_count : ℕ
  pub earliest : String
  pub latest : String

pub record Metrics : Type 0 where
  pub read : String → Option String
  pub loads : String → Decoded
  pub dumps : Summary → String

-- `r.get(key, default)`
unfoldable pub get_or_default : {A : Type 0} → A → Option A → A
get_or_default d none = d
get_or_default d (some a) = a

unfoldable pub drop : {A : Type 0} → ℕ → List A → List A
drop zero xs = xs
drop (suc n) [] = []
drop (suc n) (x ∷ xs) = drop n xs

-- `lines[-100:] if len(lines) > 100 else lines`
unfoldable pub recent : List String → List String
recent lines = drop (length lines - 100) lines

-- The lines that decode; a value that is no object stands for the `AttributeError` of its `get`.
unfoldable pub decode : Metrics → List String → Option (List LogEntry)
decode m [] = some []
decode m (line ∷ lines) = elim (decode m lines) [
  | none ↦ none
  | some rest ↦ elim (m.loads line) [
    | entry e ↦ some (e ∷ rest)
    | other ↦ none
    | undecodable ↦ some rest
  ]
]

unfoldable pub has_failed : LogEntry → Bool
has_failed e = get_or_default "" e.result == "failure"

unfoldable pub cost_in : LogEntry → ℕ
cost_in e = get_or_default 0 e.cost_usd

unfoldable pub latency_in : LogEntry → ℕ
latency_in e = get_or_default 0 e.latency_ms

unfoldable pub stamp_of : LogEntry → String
stamp_of e = get_or_default "" e.timestamp

unfoldable pub last_of : LogEntry → List LogEntry → LogEntry
last_of e [] = e
last_of e (f ∷ rest) = last_of f rest

unfoldable pub summarize : LogEntry → List LogEntry → Summary
summarize e rest = record {
  entries = length (e ∷ rest);
  total_cost_usd = sum (map cost_in (e ∷ rest));
  avg_latency_ms = (sum (map latency_in (e ∷ rest)), length (e ∷ rest));
  failure_count = count_if has_failed (e ∷ rest);
  earliest = stamp_of e;
  latest = stamp_of (last_of e rest);
}

-- `_read_metrics`, and `none` where it raises
unfoldable pub read_metrics : Metrics → String → Option String
read_metrics m path = elim (m.read path) [
  | none ↦ some "{\"error\": \"metrics file not found\"}"
  | some text ↦ elim (decode m (recent (split_on 10 (strip text)))) [
    | none ↦ none
    | some [] ↦ some "{\"entries\": 0}"
    | some (e ∷ rest) ↦ some (m.dumps (summarize e rest))
  ]
]

pub record HealthReview : Type 0 where
  pub metrics_path : Command
  pub health_cmds : Dict String String
  -- the values as they print
  pub slo_baselines : Dict String String

unfoldable pub metrics_section : String → String
metrics_section summary = "### observability_metrics\n```json\n" <> summary <> "\n```"

-- The metrics' part of the output: none where no path is given.
unfoldable pub metrics_part : Metrics → Command → Option (List String)
metrics_part m none = some []
metrics_part m (some path) = if path == "" then some [] else elim (read_metrics m path) [
  | none ↦ none
  | some summary ↦ some (metrics_section summary ∷ [])
]

unfoldable pub baseline_line : String × String → String
baseline_line (k, v) = "- " <> k <> ": " <> v

unfoldable pub slo_context : Dict String String → String
slo_context [] = ""
slo_context (b ∷ baselines) =
    "\n\nSLO Baselines:\n" <> joined_by "\n" (map baseline_line (b ∷ baselines))

unfoldable pub health_request : HealthReview → String → (srp prior : String) → AgentRequest
health_request p output srp prior =
    pipeline_request "health-review" post_validation srp
      (health_prompt (slo_context p.slo_baselines))
      (("metrics", output) ∷ ("prior_rhr", prior) ∷ []) "health_review"

module _ {W : Type 0} (shell : Shell W) where
  -- The loop over the health commands.
  unfoldable pub run_health : Dict String String → W → List CheckResult × W
  run_health [] w = ([], w)
  run_health ((name, command) ∷ rest) w =
      let (ran, w1) = shell command w in
      let (results, w2) = run_health rest w1 in
      (plain_check ("health_" <> name) command ran ∷ results, w2)

  -- `HealthReviewPipeline.review`
  unfoldable pub review :
      Adapter W → Metrics → HealthReview → (srp prior : String) → Call W String PipelineResult
  review ai m p srp prior w = elim (metrics_part m p.metrics_path) [
    | none ↦ (err "AttributeError", w)
    | some metrics ↦
        let (results, w1) = run_health p.health_cmds w in
        let parts = metrics ++ map ord_section results in
        let output = joined_by "\n\n" parts in
        let (answer, w2) = ai.invoke (health_request p output srp prior) w1 in
        elim answer [
          | err e ↦ (err e, w2)
          | ok response ↦ (
            ok (record {
              tool_output = output;
              ai_assessment = response.content;
              status = "complete";
              details = metrics_collected (length parts) p.slo_baselines;
            }),
            w2,
          )
        ]
  ]
