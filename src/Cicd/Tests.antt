-- ===== src/Cicd/Tests.antt =====
-- src/cicd: one adapter registered and run, and the theorems about the registry and the agents.
use aieos_agent_harness.Base.{
  ℕ, ◌+◌, ◌≤◌, String, string_eq, ◌≡◌, refl, sym, inl, inr, Bool-cases, ◌≢◌, ◌⊎◌, ◌↔◌, true, false,
  List, map, ◌++◌, Option, none, some, [], ◌∷◌, ◌==◌, eqb, if◌then◌else◌, arith,
}
use mathlib.Core.Option.{some-injective}
use aieos_agent_harness.Base.Dict
use aieos_agent_harness.Base.Lists.{All, length}
use aieos_agent_harness.Adapter.{ok}
use aieos_agent_harness.Cicd.{
  RegistryEntry, RegistrationOutcome, ArtifactStore, healthy, pos, completed,
}
use aieos_agent_harness.Cicd.Registry.{Index, register_adapter, find_adapters, bucket}
use aieos_agent_harness.Cicd.Registration.{IsIndexed, register_adapter-cases}
use aieos_agent_harness.Cicd.Attestation.{
  AttestationVerifier, payload, verify, outcome_of, IsAttested, verify_iff,
  register_adapter-IsAttested,
}
use aieos_agent_harness.Cicd.Events.{
  RunEvent, Emitter, new_emitter, Stream, task_id_of, synth_task_id, status_text, event_dict,
}
use aieos_agent_harness.Cicd.Reports.{
  replay, AgentTask, plain_task, judged_task, perform, action_of, given_of, report_task, expected,
  narrate,
}
use aieos_agent_harness.Cicd.Narrative.{narrate-replay}
use aieos_agent_harness.Cicd.Agents.{
  retry, Execute, Agent, Judge, receive_task, receive_task_llm, run_entries, run_instance,
  result_of, attempt, is_zero, next_inputs,
}
use aieos_agent_harness.Cicd.Outcomes.{IsDone, receive_task-completed}
use aieos_agent_harness.Cicd.Retries.{Meters, IsMetered, receive_task_llm-bound}

abbrev pytest : RegistryEntry
pytest = record {
  adapter_id = "pytest";
  adapter_version = "1.0.0";
  capabilities = "test" ∷ [];
  contract_versions = [];
  attestation_ref = "ref";
  registered_at = "2026-01-01";
  context = [];
  health_status = healthy;
}

-- A store that takes every write and keeps the last payload.
abbrev store : ArtifactStore String
store = record { put = λ key payload s. some payload; payloads = λ prefix s. s ∷ [] }

abbrev accept : RegistryEntry → RegistrationOutcome
accept e = record { accepted = true; diagnostic = "" }

abbrev no_index : Index
no_index = []

abbrev verifier : AttestationVerifier
verifier = record {
  trusted = "ci" ∷ [];
  contracts =
      ("test", record { current_version = "2"; prior_versions_cutover = ("1", 100) ∷ [] }) ∷ [];
  fetch = λ ref. payload (record {
    adapter_id = "pytest";
    adapter_version = "1.0.0";
    contract_id = "test";
    contract_version = "1";
    signing_identity = "ci";
  });
}

verify_iff_example : ((verify verifier 50 pytest).0 ≡ true) ↔ IsAttested verifier 50 pytest
verify_iff_example = verify_iff verifier 50 pytest

register_adapter-IsAttested_example :
    ((register_adapter store
        (λ e. e.adapter_id)
        (λ e. outcome_of (λ reason. "") (verify verifier 200 e))
        pytest
        (no_index, "")).1
      ≡ (no_index, ""))
    ⊎ IsAttested verifier 200 pytest
register_adapter-IsAttested_example =
    register_adapter-IsAttested store (λ e. e.adapter_id) (λ reason. "") verifier 200 pytest
      no_index ""

register_adapter-cases_example :
    let (outcome, after) =
      register_adapter store (λ e. e.adapter_id) accept pytest (no_index, "") in
    ((accept pytest).accepted ≡ false → (outcome ≡ some (accept pytest)) × (after ≡ (no_index, "")))
    × ((accept pytest).accepted ≡ true
        → ◌≡◌ {A = Option String} (some "pytest") none
        → (outcome ≡ none) × (after ≡ (no_index, "")))
    × ((s' : String)
        → (accept pytest).accepted ≡ true
        → ◌≡◌ {A = Option String} (some "pytest") (some s')
        → (outcome ≡ some (accept pytest)) × (after.1 ≡ s') × IsIndexed pytest no_index after.0)
register_adapter-cases_example =
    register_adapter-cases store (λ e. e.adapter_id) accept pytest no_index ""

-- The adapter fails until the input is the number of runs. The world counts runs and judgments.
abbrev run_pytest : Execute (ℕ × ℕ) ℕ String
run_pytest inputs w = (
  ok (record {
    findings = some "report";
    evidence = "report.xml" ∷ [];
    exit_code = if eqb inputs w.0 then pos 0 else pos 1;
  }),
  (w.0 + 1, w.1),
)

abbrev agent : Agent (ℕ × ℕ) ℕ String
agent = record {
  index = ("test", pytest ∷ []) ∷ [];
  instances = ("pytest", run_pytest) ∷ [];
  context = [];
}

abbrev judgment : Judge (ℕ × ℕ) ℕ String
judgment result n w =
    (record { decision = retry; adjusted_inputs = some w.0; reason = "" }, (w.0, w.1 + 1))

receive_task-completed_example :
    let (result, w') = receive_task agent "test" 0 (0, 0) in
    (result.status ≡ completed) ↔ IsDone agent "test" 0 (0, 0) result w'
receive_task-completed_example = receive_task-completed agent "test" 0 (0, 0)

nobody_lints : length (find_adapters "lint" [] agent.index) ≢ 1
unfolding find_adapters bucket Dict.get_or Dict.get string_eq
nobody_lints = ground arith

abbrev meters : Meters (ℕ × ℕ)
meters = record { runs = λ w. w.0; judgments = λ w. w.1 }

only_pytest :
    (adapter_id : String) (e : Execute (ℕ × ℕ) ℕ String)
    → Dict.get agent.instances adapter_id ≡ some e
    → e ≡ run_pytest
unfolding Dict.get
only_pytest adapter_id e k = elim (Bool-cases (adapter_id == "pytest")) [
  | inl h ↦ sym (some-injective run_pytest e (rw (h, Dict.get) at k))
  | inr h ↦ absurd (ground arith)
]

agent-IsMetered : IsMetered meters agent judgment
agent-IsMetered = record {
  run_once = λ adapter_id e k inputs w. rw (only_pytest adapter_id e k) (omega arith, refl);
  judge_once = λ result n w. (refl, omega arith);
}

receive_task_llm-bound_example :
    let w' = (receive_task_llm agent judgment 2 "test" 7 (0, 0)).1 in
    (w'.0 ≤ 0 + 3) × (w'.1 ≤ 0 + 2)
receive_task_llm-bound_example =
    receive_task_llm-bound meters agent judgment "test" agent-IsMetered 2 7 (0, 0)

second_run : (receive_task_llm agent judgment 2 "test" 7 (0, 0)).0.status ≡ completed
unfolding receive_task_llm attempt receive_task run_entries find_adapters bucket Dict.get_or
    Dict.get string_eq run_instance result_of is_zero next_inputs
second_run = refl

abbrev reading : ℕ × ℕ → String
reading w = "2026-01-01T00:00:00+00:00"

abbrev digits : ℕ × ℕ → String
digits w = "0123456789ab"

abbrev emitter : Emitter
emitter = record { run_id = "run-1"; spec_ref = "spec" }

new_emitter_run : new_emitter "run-1" "spec" ≡ ok emitter
unfolding new_emitter string_eq
new_emitter_run = refl

abbrev tasks : List (AgentTask (ℕ × ℕ) ℕ String)
tasks = plain_task agent "test" 5 (some "t1") ∷ judged_task agent judgment 2 "test" 7 none ∷ []

abbrev silent : Stream (ℕ × ℕ)
silent = record { world = (0, 0); out = [] }

reported :
    map {B = String × String × List String}
      (λ r. (r.task_id, r.status, r.evidence))
      (expected reading digits tasks (0, 0)).0
    ≡ ("t1", "failed", "report.xml" ∷ [])
      ∷ ("test-0123456789ab", "completed", "report.xml" ∷ [])
      ∷ []
unfolding expected perform action_of given_of report_task task_id_of synth_task_id status_text
    string_eq receive_task receive_task_llm run_entries attempt find_adapters bucket Dict.get_or
    run_instance result_of is_zero next_inputs
reported = refl

narrate-replay_example :
    (◌≢◌ {A = String} "run-1" "")
    × ((narrate reading digits emitter tasks "failed" silent).world
        ≡ (expected reading digits tasks (0, 0)).1)
    × ((events : List RunEvent) × ((narrate reading digits emitter tasks "failed" silent).out
          ≡ [] ++ events)
        × All (λ e. Dict.get (event_dict e) "run_id" ≡ some "run-1") events
        × (replay [] (map event_dict events) ≡ (expected reading digits tasks (0, 0)).0))
narrate-replay_example =
    narrate-replay reading digits "run-1" "spec" emitter tasks "failed" silent new_emitter_run
