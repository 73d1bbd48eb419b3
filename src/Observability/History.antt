-- ===== src/Observability/History.antt =====
-- src/observability.py: reading a log that was written.
use aieos_agent_harness.Base.{
  ℕ, String, string_eq, ◌≡◌, ◌≢◌, refl, sym, ap, ◌∙◌, inl, inr, Bool, false, Option, none, some,
  List, [], ◌∷◌, ◌++◌, map, if◌then◌else◌, arith,
}
use mathlib.Core.List.{append-nil, append_assoc}
use aieos_agent_harness.Base.Lists.{All, keep}
use aieos_agent_harness.State.Cells.{strip}
use aieos_agent_harness.Base.Dict
use aieos_agent_harness.Base.Dict.{Dict}
use aieos_agent_harness.Adapter.{Outcome, ok, err, Outcome-cases}
use aieos_agent_harness.Models.{LifecycleEvent, pre_generation, RoutingStrategy, fallback}
use aieos_agent_harness.Observability.{
  InvocationRecord, Env, Log, LogError, read_records, read_lines, read_line, lines_of,
  record_invocation, record_to_dict, dict_to_record, text_at, number_at, optional_at, optional,
  text_or_empty, event_named, event_value, strategy_named, strategy_value, member, object, is_since,
  Value,
}

event_named-event_value : (e : LifecycleEvent) → event_named (event_value e) ≡ ok e
unfolding event_named event_value member string_eq
event_named-event_value pre_generation = refl
event_named-event_value _ = refl

strategy_named-strategy_value : (s : RoutingStrategy) → strategy_named (strategy_value s) ≡ ok s
unfolding strategy_named strategy_value member string_eq
strategy_named-strategy_value fallback = refl
strategy_named-strategy_value _ = refl

optional_at-optional :
    (key : String) (v : Option String) (d : Dict String Value)
    → Dict.get d key ≡ some (optional v)
    → optional_at d key ≡ ok v
unfolding optional_at optional
optional_at-optional key none d h = rw (h, optional_at) refl
optional_at-optional key (some s) d h = rw (h, optional_at) refl

-- An invocation record is what its dict is decoded to.
pub dict_to_record-record_to_dict :
    (r : InvocationRecord) → dict_to_record (record_to_dict r) ≡ ok r
unfolding dict_to_record record_to_dict text_at number_at text_or_empty Dict.get string_eq
dict_to_record-record_to_dict r =
    rw
      (
        event_named-event_value r.event,
        strategy_named-strategy_value r.strategy,
        optional_at-optional "validation_status" r.validation_status (record_to_dict r) refl,
        optional_at-optional "error" r.error (record_to_dict r) refl,
      )
      refl

-- `record` for each of the invocations.
unfoldable pub record_all : Env → List InvocationRecord → Log → Log
record_all env [] log = log
record_all env (r ∷ rs) log = record_all env rs (record_invocation env r log)

-- `json.loads` reads back the line that `json.dumps` writes for a record, which is not blank.
abbrev pub IsCoded : Env → InvocationRecord → Type 0
IsCoded env r =
    (strip (env.dumps (record_to_dict r)) ≢ "")
    × (env.loads (strip (env.dumps (record_to_dict r))) ≡ object (record_to_dict r))

abbrev pub passes : Outcome LogError Bool → Bool
passes (ok b) = b
passes (err e) = false

-- A record whose time can be compared with `since`, where there is one.
abbrev pub IsTimed : Env → Option ℕ → InvocationRecord → Type 0
IsTimed env since r = (recent : Bool) × (is_since env since r ≡ ok recent)

dumped : Env → InvocationRecord → String
dumped env r = env.dumps (record_to_dict r)

read_line-dumps :
    (env : Env) (since : Option ℕ) (r : InvocationRecord) (recent : Bool)
    → IsCoded env r
    → is_since env since r ≡ ok recent
    → read_line env since (env.dumps (record_to_dict r)) ≡ ok (if recent then some r else none)
unfolding read_line
read_line-dumps env since r recent codec timed =
    let (full, loads) = codec in
    let decoded = dict_to_record-record_to_dict r in ground (arith, full, loads, decoded, timed)

read_lines-dumps :
    (env : Env) (since : Option ℕ) (rs : List InvocationRecord)
    → All (IsCoded env) rs
    → All (IsTimed env since) rs
    → read_lines env since (map (dumped env) rs) ≡ ok (keep (λ r. passes (is_since env since r)) rs)
unfolding read_lines keep dumped
read_lines-dumps env since [] codec timed = refl
read_lines-dumps env since (r ∷ rs) (c, codec) ((recent, t), timed) =
    let line = read_line-dumps env since r recent c t in
    let rest = read_lines-dumps env since rs codec timed in ground (arith, line, rest, t)

read_lines-append :
    (env : Env) (since : Option ℕ) (xs ys : List String) (rs qs : List InvocationRecord)
    → read_lines env since xs ≡ ok rs
    → read_lines env since ys ≡ ok qs
    → read_lines env since (xs ++ ys) ≡ ok (rs ++ qs)
unfolding read_lines
read_lines-append env since [] ys rs qs h k = ground arith
read_lines-append env since (x ∷ xs) ys rs qs h k = elim (Outcome-cases (read_line env since x)) [
  | inr (e, p) ↦ absurd (ground arith)
  | inl (found, p) ↦ elim (Outcome-cases (read_lines env since xs)) [
    | inr (e, q) ↦ absurd (ground arith)
    | inl (rest, q) ↦
        let later = read_lines-append env since xs ys rest qs q k in ground (arith, p, q, later, h)
  ]
]

lines_of-record_all :
    (env : Env) (rs : List InvocationRecord) (log : Log)
    → lines_of (record_all env rs log) ≡ lines_of log ++ map (dumped env) rs
unfolding record_all record_invocation lines_of dumped
lines_of-record_all env [] log = sym (append-nil (lines_of log))
lines_of-record_all env (r ∷ rs) log =
    lines_of-record_all env rs (record_invocation env r log)
    ∙ append_assoc (lines_of log) (dumped env r ∷ []) (map (dumped env) rs)

-- Where `json.loads` reads back what `json.dumps` writes for some invocations, and their times can be
-- compared with `since`, reading a readable log after they were recorded gives what it held
-- before and then those of the invocations that are at or after `since`, all of them where
-- there is no `since`, in their order.
pub read_records-record_all :
    (env : Env) (since : Option ℕ) (rs old : List InvocationRecord) (log : Log)
    → All (IsCoded env) rs
    → All (IsTimed env since) rs
    → read_records env since log ≡ ok old
    → read_records env since (record_all env rs log)
      ≡ ok (old ++ keep (λ r. passes (is_since env since r)) rs)
unfolding read_records
read_records-record_all env since rs old log codec timed h =
    ap (read_lines env since) (lines_of-record_all env rs log)
    ∙ read_lines-append env since (lines_of log) (map (dumped env) rs) old
        (keep (λ r. passes (is_since env since r)) rs) h (read_lines-dumps env since rs codec timed)
