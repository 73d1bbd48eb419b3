-- ===== src/Convergence.antt =====
-- src/convergence.py: the bounded generate-validate loop with lens reviewers.
pub mod Verdict
pub mod Iteration
pub mod Soundness
pub mod Ledger
pub mod Meters
pub mod Budget
pub mod Lenses
pub mod Detectors
pub mod Errors
mod Tests
use aieos_agent_harness.Base.{
  ℕ, zero, suc, ◌+◌, ◌-◌, String, ◌<>◌, Bool, true, false, not, Option, none, some, List, [], ◌∷◌,
  ◌++◌, map, ◌==◌, string_eq, ltb, decimal, if◌then◌else◌,
}
use aieos_agent_harness.Base.Dict
use aieos_agent_harness.Base.Dict.{Dict}
use aieos_agent_harness.Models.{
  AgentRequest, AgentResponse, ValidationResult, Issue, post_validation,
}
use aieos_agent_harness.Adapter.{
  Outcome, ok, err, Call, Adapter, pure, raise, rethrow, ◌>>=◌, ◌>>◌, raise_if,
}
use Verdict.{
  VerdictJson, verdict_of_json, Provenance, LedgerEntry, verdict, lens_verdict, ConvergenceState,
  detect_staleness, detect_oscillation,
}

-- What the loop uses of the standard library: the hash, and the search for a JSON object in a text
-- with its decoding (`none` where there is none, or where it does not decode).
pub record Codec : Type 0 where
  pub sha256 : String → String
  pub find_json : String → Option VerdictJson

-- The object that `ConvergenceLoop.__init__` builds.
pub record ConvergenceLoop (W : Type 0) : Type 0 where
  pub gen : Adapter W
  pub val : Adapter W
  pub max : ℕ
  pub lenses : Dict String (Adapter W)

-- The exceptions that leave `run`. `unbound_result` is Python's `UnboundLocalError`, at the last
-- `return` of a loop whose body never ran.
pub data RunError : Type 0 where
  adapter_failed : String → RunError
  truncated_generation : String → ℕ → ℕ → RunError
  bad_verdict : RunError
  unbound_result : RunError

-- What the loop writes to its logger at level WARNING.
pub data Warning : Type 0 where
  staleness oscillation : ℕ → Warning
  lens_failed : String → Warning

unfoldable pub parse_validation_result : Codec → AgentResponse → Option ValidationResult
unfolding verdict_of_json
parse_validation_result codec response = elim (codec.find_json response.content) [
  | none ↦ none
  | some json ↦ verdict_of_json json
]

-- The constraint that one issue adds to a correction request.
unfoldable pub constraint_of : Issue → String
unfolding Dict.get_or
constraint_of issue =
    let base = "[" <> Dict.get_or issue "gate" "" <> "] " <> Dict.get_or issue "description" "" in
    let location = Dict.get_or issue "location" "" in
    if location == "" then base else base <> " (at: " <> location <> ")"

-- The new request has no temperature: the field takes its default.
unfoldable pub build_correction_request : AgentRequest → List Issue → AgentRequest
build_correction_request original issues = record original {
  correction_constraints = original.correction_constraints ++ map constraint_of issues;
  temperature = none;
}

-- The validation request: the caller's, with the generated content and the temperature 0.0.
unfoldable pub judge_request : AgentRequest → AgentResponse → AgentRequest
judge_request val_request response = record val_request {
  current_artifact = some response.content;
  temperature = some 0;
}

unfoldable pub lens_request : String → AgentRequest → AgentResponse → AgentRequest
unfolding Dict.insert
lens_request name gen_request response = record gen_request {
  event = post_validation;
  template_content = "";
  prompt_content = "Review this artifact from a " <> name <> " perspective.";
  current_artifact = some response.content;
  correction_constraints = [];
  metadata = Dict.insert "lens" name gen_request.metadata;
  temperature = some 0;
}

-- One finding of a failing lens, under a gate that names the lens.
unfoldable pub lens_issue : String → Issue → Issue
unfolding Dict.get_or
lens_issue name issue =
    ("gate", "lens:" <> name <> ":" <> Dict.get_or issue "gate" "unknown")
    ∷ ("description", Dict.get_or issue "description" "")
    ∷ ("location", Dict.get_or issue "location" "")
    ∷ []

-- What `_run_lens_reviews` changes or returns.
pub record Reviews : Type 0 where
  pub ledger : List LedgerEntry
  pub issues : List Issue
  pub warnings : List Warning

-- The loop's variables from one iteration to the next. `last` holds the last response with its
-- verdict, which the `return` after the loop reads.
pub record Run : Type 0 where
  pub state : ConvergenceState
  pub request : AgentRequest
  pub last : Option (AgentResponse × ValidationResult)
  pub warnings : List Warning

-- What `run` returns, and what it has logged.
pub record RunResult : Type 0 where
  pub response : AgentResponse
  pub result : ValidationResult
  pub state : ConvergenceState
  pub warnings : List Warning

-- How one iteration ends: by `return`, or by going on with the loop.
pub data Control : Type 0 where
  finish : RunResult → Control
  again : Run → Control

abbrev pub failed_lens : Reviews → String → Reviews
failed_lens seen name = record seen { warnings = seen.warnings ++ lens_failed name ∷ [] }

-- What a lens that answered with a parseable verdict adds: a ledger entry, and issues on FAIL.
unfoldable pub add_review : ℕ → String → Provenance → ValidationResult → Reviews → Reviews
add_review iteration name provenance result seen = record seen {
  ledger =
      seen.ledger
      ++ lens_verdict iteration name result.status result.blocking_issues provenance ∷ [];
  issues =
      if result.status == "FAIL"
      then seen.issues ++ map (lens_issue name) result.blocking_issues
      else seen.issues;
}

unfoldable pub provenance_of : Codec → AgentRequest → AgentResponse → Provenance
provenance_of codec request response = record {
  validator_prompt_sha256 = codec.sha256 request.prompt_content;
  provider = response.provider;
  model = response.model;
  temperature = request.temperature;
}

-- What a lens's answer adds; the `except` clause catches whatever the call or the parse raises.
unfoldable pub heard :
    Codec → String → AgentRequest → ℕ → Reviews → Outcome String AgentResponse → Reviews
heard codec name request iteration seen (err e) = failed_lens seen name
heard codec name request iteration seen (ok response) =
    elim (parse_validation_result codec response) [
      | none ↦ failed_lens seen name
      | some result ↦ add_review iteration name (provenance_of codec request response) result seen
    ]

module _ {W : Type 0} (codec : Codec) where
  -- One round of the `for` over the lenses.
  unfoldable pub review_lens :
      String → Adapter W → AgentResponse → AgentRequest → ℕ → Reviews → W → Reviews × W
  review_lens name adapter response gen_request iteration seen w =
      let request = lens_request name gen_request response in
      let (answer, w') = adapter.invoke request w in
      (heard codec name request iteration seen answer, w')

  unfoldable pub run_lens_reviews :
      Dict String (Adapter W) → AgentResponse → AgentRequest → ℕ → Reviews → W → Reviews × W
  run_lens_reviews [] response gen_request iteration seen w = (seen, w)
  run_lens_reviews ((name, adapter) ∷ lenses) response gen_request iteration seen w =
      let (seen', w') = review_lens name adapter response gen_request iteration seen w in
      run_lens_reviews lenses response gen_request iteration seen' w'

abbrev is_true : Option Bool → Bool
is_true (some true) = true
is_true _ = false

abbrev is_empty {ℓ} : {A : Type ℓ} → List A → Bool
is_empty [] = true
is_empty (_ ∷ _) = false

-- Steps 1 to 3: generate, refuse a truncated answer, validate, parse, and append to the ledger.
unfoldable pub judged : ℕ → AgentResponse → ValidationResult → Provenance → Run → Run
judged iteration response result provenance run = record run {
  state = record run.state {
    ledger = run.state.ledger ++ verdict iteration result provenance ∷ [];
  };
  last = some (response, result);
}

-- Step 5: the warnings of the detectors, and the correction request.
unfoldable pub corrected : AgentRequest → ValidationResult → Run → Run
corrected gen_request result run =
    let now = run.state.current_iteration in
    record run {
      request = build_correction_request gen_request result.blocking_issues;
      warnings =
          run.warnings
          ++ (if detect_staleness run.state then staleness now ∷ [] else [])
          ++ (if detect_oscillation run.state then oscillation now ∷ [] else []);
    }

-- The result with the findings of the lenses, where no iteration is left.
unfoldable pub lens_failure : ℕ → ValidationResult → List Issue → ValidationResult
unfolding decimal
lens_failure iterations result issues = record result {
  status = "FAIL";
  summary = "Lens review failures after " <> decimal iterations <> " iterations";
  blocking_issues = issues;
}

abbrev returning : AgentResponse → ValidationResult → Run → Control
returning response result run =
    finish
      (record { response = response; result = result; state = run.state; warnings = run.warnings })

-- The end of step 4, once the lenses have reviewed.
unfoldable pub after_lenses :
    ℕ → ℕ → AgentRequest → AgentResponse → ValidationResult → Reviews → Run → Control
after_lenses max iteration gen_request response result reviews run =
    let run' = record run {
      state = record run.state { ledger = reviews.ledger };
      warnings = reviews.warnings;
    } in
    if is_empty reviews.issues
    then returning response result run'
    else if ltb iteration (max - 1)
    then again (record run' { request = build_correction_request gen_request reviews.issues })
    else returning response (lens_failure run.state.current_iteration result reviews.issues) run'

-- The `return` after the loop.
unfoldable pub exhausted : Run → Outcome RunError RunResult
exhausted run = elim run.last [
  | none ↦ err unbound_result
  | some (response, result) ↦
      ok (record {
        response = response;
        result = result;
        state = run.state;
        warnings = run.warnings;
      })
]

-- An iteration raises, returns, or goes on with the rest of the loop.
unfoldable pub proceed :
    {W : Type 0}
    → (Run → Call W RunError RunResult)
    → Outcome RunError Control × W
    → Outcome RunError RunResult × W
proceed rest (err e, w) = (err e, w)
proceed rest (ok (finish result), w) = (ok result, w)
proceed rest (ok (again run), w) = rest run w

module _ {W : Type 0} (codec : Codec) (loop : ConvergenceLoop W) where
  -- The lens reviews of a passing artifact, and what follows from them.
  unfoldable pub lens_step :
      ℕ → AgentRequest → AgentResponse → ValidationResult → Run → W → Control × W
  lens_step iteration gen_request response result run w =
      let now = run.state.current_iteration in
      let start : Reviews = record {
        ledger = run.state.ledger;
        issues = [];
        warnings = run.warnings;
      } in
      let (reviews, w') = run_lens_reviews codec loop.lenses response gen_request now start w in
      (after_lenses loop.max iteration gen_request response result reviews run, w')

  -- Steps 4 and 5, for a verdict that is in the ledger.
  unfoldable pub decide :
      ℕ → AgentRequest → AgentResponse → ValidationResult → Run → W → Control × W
  decide iteration gen_request response result run w =
      if result.status == "PASS"
      then if is_empty loop.lenses
        then (returning response result run, w)
        else lens_step iteration gen_request response result run w
      else if ltb iteration (loop.max - 1)
      then (again (corrected gen_request result run), w)
      else (again run, w)

  -- Step 3 on, for the judge's answer.
  unfoldable pub conclude :
      AgentRequest
      → AgentRequest
      → ℕ
      → Run
      → AgentResponse
      → AgentResponse
      → Call W RunError Control
  conclude gen_request val_request iteration run response val_response w =
      elim (parse_validation_result codec val_response) [
        | none ↦ (err bad_verdict, w)
        | some result ↦
            let provenance =
              provenance_of codec (judge_request val_request response) val_response in
            let run' = judged (iteration + 1) response result provenance run in
            let (control, w') = decide iteration gen_request response result run' w in
            (ok control, w')
      ]

  -- From the check for truncation on, for the generator's answer.
  unfoldable pub validate :
      AgentRequest → AgentRequest → ℕ → Run → AgentResponse → Call W RunError Control
  validate gen_request val_request iteration run response = do
    raise_if (is_true response.truncated)
        (truncated_generation val_request.artifact_type (iteration + 1) response.tokens_out)
    val_response ← rethrow adapter_failed (loop.val.invoke (judge_request val_request response))
    conclude gen_request val_request iteration run response val_response

  -- One iteration of the `for`.
  unfoldable pub iterate : AgentRequest → AgentRequest → ℕ → Run → Call W RunError Control
  iterate gen_request val_request iteration run = do
    response ← rethrow adapter_failed (loop.gen.invoke run.request)
    validate gen_request val_request iteration
        (record run { state = record run.state { current_iteration = iteration + 1 } }) response

  -- `for iteration in range(self._max)`, with `left` iterations to go.
  unfoldable pub iterations :
      AgentRequest → AgentRequest → (left iteration : ℕ) → Run → Call W RunError RunResult
  iterations gen_request val_request zero iteration run w = (exhausted run, w)
  iterations gen_request val_request (suc left) iteration run w =
      proceed (iterations gen_request val_request left (iteration + 1))
        (iterate gen_request val_request iteration run w)

  unfoldable pub start_run : AgentRequest → Run
  unfolding Dict.get_or
  start_run gen_request = record {
    state = record {
      artifact_id = Dict.get_or gen_request.metadata "artifact_id" "unknown";
      artifact_type = gen_request.artifact_type;
      max_iterations = loop.max;
      current_iteration = 0;
      ledger = [];
    };
    request = gen_request;
    last = none;
    warnings = [];
  }

  -- `ConvergenceLoop.run`
  unfoldable pub run : AgentRequest → AgentRequest → Call W RunError RunResult
  run gen_request val_request =
      iterations gen_request val_request loop.max 0 (start_run gen_request)
