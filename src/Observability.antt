-- ===== src/Observability.antt =====
-- src/observability.py: the log of provider calls and its JSON. The log is its lines without their
-- ends; `dumps` and `loads` are `json`'s, and `parse` is `datetime.fromisoformat`.
pub mod Summaries
pub mod History
pub mod Totals
pub mod Health
pub mod Anomalies
mod Tests
use Prim.Native.Char.{code}
use Prim.Native.String.{String}
use aieos_agent_harness.Base.{
  ℕ, ◌<>◌, string_eq, Bool, true, false, not, ◌&&◌, Option, none, some, List, [], ◌∷◌, ◌++◌, ◌==◌,
  eqb, ltb, if◌then◌else◌,
}
use aieos_agent_harness.Base.Dict
use aieos_agent_harness.Base.Dict.{Dict}
use aieos_agent_harness.Adapter.{Outcome, ok, err}
use aieos_agent_harness.Models.{
  LifecycleEvent, pre_generation, post_generation, pre_validation, post_validation, post_freeze,
  on_failure, RoutingStrategy, parallel_consensus, pipeline, fallback, cost_aware,
}
use aieos_agent_harness.State.Cells.{strip}

-- A latency is in microseconds, a cost in millionths of a dollar.
pub record InvocationRecord : Type 0 where
  pub timestamp : String
  pub artifact_type : String
  pub artifact_id : String
  pub event : LifecycleEvent
  pub provider : String
  pub model : String
  pub strategy : RoutingStrategy
  pub tokens_in : ℕ
  pub tokens_out : ℕ
  pub cost_usd : ℕ
  pub latency_ms : ℕ
  pub result : String
  pub validation_status : Option String
  pub convergence_iteration : ℕ
  pub error : Option String
  pub species : String

-- A value of the JSON object of a record.
pub data Value : Type 0 where
  text : String → Value
  number : ℕ → Value
  null : Value

-- What reading raises: `KeyError`, `ValueError` of an enum, `TypeError` of a line that is no object,
-- and of a time without an offset. With a value of another JSON type than `record` writes the code
-- goes on; the model stops there, at `off_schema`.
pub data LogError : Type 0 where
  missing_key unknown_value off_schema : String → LogError
  not_object naive_time : LogError

-- `LifecycleEvent.value`
unfoldable pub event_value : LifecycleEvent → String
event_value pre_generation = "PRE_GENERATION"
event_value post_generation = "POST_GENERATION"
event_value pre_validation = "PRE_VALIDATION"
event_value post_validation = "POST_VALIDATION"
event_value post_freeze = "POST_FREEZE"
event_value on_failure = "ON_FAILURE"

-- `RoutingStrategy.value`
unfoldable pub strategy_value : RoutingStrategy → String
strategy_value parallel_consensus = "PARALLEL_CONSENSUS"
strategy_value pipeline = "PIPELINE"
strategy_value fallback = "FALLBACK"
strategy_value cost_aware = "COST_AWARE"

-- The member of an enum that has a value.
unfoldable pub member : {A : Type 0} → (A → String) → List A → String → Outcome LogError A
member value [] s = err (unknown_value s)
member value (a ∷ as') s = let rest = member value as' s in if value a == s then ok a else rest

-- `LifecycleEvent(s)`
unfoldable pub event_named : String → Outcome LogError LifecycleEvent
event_named = member event_value (
    pre_generation ∷ post_generation ∷ pre_validation ∷ post_validation ∷ post_freeze ∷ on_failure
    ∷ [])

-- `RoutingStrategy(s)`
unfoldable pub strategy_named : String → Outcome LogError RoutingStrategy
strategy_named = member strategy_value (parallel_consensus ∷ pipeline ∷ fallback ∷ cost_aware ∷ [])

unfoldable pub optional : Option String → Value
optional none = null
optional (some s) = text s

unfoldable pub record_to_dict : InvocationRecord → Dict String Value
record_to_dict r =
    ("timestamp", text r.timestamp)
    ∷ ("artifact_type", text r.artifact_type)
    ∷ ("artifact_id", text r.artifact_id)
    ∷ ("event", text (event_value r.event))
    ∷ ("provider", text r.provider)
    ∷ ("model", text r.model)
    ∷ ("strategy", text (strategy_value r.strategy))
    ∷ ("tokens_in", number r.tokens_in)
    ∷ ("tokens_out", number r.tokens_out)
    ∷ ("cost_usd", number r.cost_usd)
    ∷ ("latency_ms", number r.latency_ms)
    ∷ ("result", text r.result)
    ∷ ("validation_status", optional r.validation_status)
    ∷ ("convergence_iteration", number r.convergence_iteration)
    ∷ ("error", optional r.error)
    ∷ ("species", text r.species)
    ∷ []

infixl 5 ◌>>=◌
abbrev ◌>>=◌ : {A B : Type 0} → Outcome LogError A → (A → Outcome LogError B) → Outcome LogError B
m >>= f = elim m [ ok a ↦ f a | err e ↦ err e ]

-- `d[key]`, a text
unfoldable pub text_at : Dict String Value → String → Outcome LogError String
text_at d key = elim (Dict.get d key) [
  | none ↦ err (missing_key key)
  | some v ↦ elim v [
    | text s ↦ ok s
    | number n ↦ err (off_schema key)
    | null ↦ err (off_schema key)
  ]
]

-- `d[key]`, a number
unfoldable pub number_at : Dict String Value → String → Outcome LogError ℕ
number_at d key = elim (Dict.get d key) [
  | none ↦ err (missing_key key)
  | some v ↦ elim v [
    | text s ↦ err (off_schema key)
    | number n ↦ ok n
    | null ↦ err (off_schema key)
  ]
]

-- `d.get(key)`
unfoldable pub optional_at : Dict String Value → String → Outcome LogError (Option String)
optional_at d key = elim (Dict.get d key) [
  | none ↦ ok none
  | some v ↦ elim v [ text s ↦ ok (some s) | number n ↦ err (off_schema key) | null ↦ ok none ]
]

-- `d.get(key, "")`
unfoldable pub text_or_empty : Dict String Value → String → Outcome LogError String
text_or_empty d key = elim (Dict.get d key) [
  | none ↦ ok ""
  | some v ↦ elim v [
    | text s ↦ ok s
    | number n ↦ err (off_schema key)
    | null ↦ err (off_schema key)
  ]
]

unfoldable pub dict_to_record : Dict String Value → Outcome LogError InvocationRecord
dict_to_record d = do
  timestamp ← text_at d "timestamp"
  artifact_type ← text_at d "artifact_type"
  artifact_id ← text_at d "artifact_id"
  event_text ← text_at d "event"
  event ← event_named event_text
  provider ← text_at d "provider"
  model ← text_at d "model"
  strategy_text ← text_at d "strategy"
  strategy ← strategy_named strategy_text
  tokens_in ← number_at d "tokens_in"
  tokens_out ← number_at d "tokens_out"
  cost_usd ← number_at d "cost_usd"
  latency_ms ← number_at d "latency_ms"
  result ← text_at d "result"
  validation_status ← optional_at d "validation_status"
  convergence_iteration ← number_at d "convergence_iteration"
  error ← optional_at d "error"
  species ← text_or_empty d "species"
  ok (record {
    timestamp = timestamp;
    artifact_type = artifact_type;
    artifact_id = artifact_id;
    event = event;
    provider = provider;
    model = model;
    strategy = strategy;
    tokens_in = tokens_in;
    tokens_out = tokens_out;
    cost_usd = cost_usd;
    latency_ms = latency_ms;
    result = result;
    validation_status = validation_status;
    convergence_iteration = convergence_iteration;
    error = error;
    species = species;
  })

-- `json.loads` of a line: an object, another value, or a `JSONDecodeError`.
pub data Loaded : Type 0 where
  object : Dict String Value → Loaded
  other undecodable : Loaded

-- `datetime.fromisoformat` of a text that it reads, in microseconds.
pub data Instant : Type 0 where
  aware naive : ℕ → Instant

pub record Env : Type 0 where
  pub dumps : Dict String Value → String
  pub loads : String → Loaded
  pub parse : String → Option Instant

-- The file of the log, `none` where there is none.
abbrev pub Log : Type 0
Log = Option (List String)

unfoldable pub lines_of : Log → List String
lines_of none = []
lines_of (some lines) = lines

-- `ObservabilityLayer.record`
unfoldable pub record_invocation : Env → InvocationRecord → Log → Log
record_invocation env r log = some (lines_of log ++ env.dumps (record_to_dict r) ∷ [])

-- `timestamp.replace("Z", "+00:00")`
unfoldable pub replace_z : String → String
replace_z String.[] = String.[]
replace_z (String.◌∷◌ c s) =
    let rest = replace_z s in if eqb (code c) b'Z' then "+00:00" <> rest else String.◌∷◌ c rest

-- Whether a record is at or after `since`; one whose time cannot be read is not.
unfoldable pub is_since : Env → Option ℕ → InvocationRecord → Outcome LogError Bool
is_since env none r = ok true
is_since env (some since) r = elim (env.parse (replace_z r.timestamp)) [
  | none ↦ ok false
  | some time ↦ elim time [ aware at ↦ ok (not (ltb at since)) | naive at ↦ err naive_time ]
]

-- One round of the loop of `read_records`: the record of a line, `none` where it is passed over.
unfoldable pub read_line : Env → Option ℕ → String → Outcome LogError (Option InvocationRecord)
read_line env since line = if strip line == "" then ok none else elim (env.loads (strip line)) [
  | undecodable ↦ ok none
  | other ↦ err not_object
  | object d ↦ do
    r ← dict_to_record d
    recent ← is_since env since r
    ok (if recent then some r else none)
]

unfoldable pub read_lines : Env → Option ℕ → List String → Outcome LogError (List InvocationRecord)
read_lines env since [] = ok []
read_lines env since (line ∷ lines) = elim (read_line env since line) [
  | err e ↦ err e
  | ok found ↦ elim (read_lines env since lines) [
    | err e ↦ err e
    | ok rest ↦ ok (elim found [ none ↦ rest | some r ↦ r ∷ rest ])
  ]
]

unfoldable pub read_records : Env → Option ℕ → Log → Outcome LogError (List InvocationRecord)
read_records env since log = read_lines env since (lines_of log)
