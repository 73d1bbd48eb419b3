-- ===== src/Cicd/Agents.antt =====
-- src/cicd/agents.py: `DeterministicAgent` and `LLMAgent`. The inputs of a task are of a type `I`
-- and the findings of a type `F`, both JSON mappings; an adapter and a judgment act on a world `W`.
use aieos_agent_harness.Base.{
  ℕ, zero, suc, String, string_eq, Bool, true, false, Option, none, some, List, [], ◌∷◌, map, ◌==◌,
  if◌then◌else◌,
}
use aieos_agent_harness.Base.Dict
use aieos_agent_harness.Base.Dict.{Dict}
use aieos_agent_harness.Adapter.{ok, err, Call}
use aieos_agent_harness.Cicd.{
  RegistryEntry, ℤ, pos, negsuc, AdapterResult, TaskError, none_registered, ambiguous, no_instance,
  raised, exited, skipped_because, TaskResult, completed, failed, skipped,
}
use aieos_agent_harness.Cicd.Registry.{Index, find_adapters}

pub data Decision : Type 0 where
  retry surrender skip : Decision

pub record Judgment (I : Type 0) : Type 0 where
  pub decision : Decision
  pub adjusted_inputs : Option I
  pub reason : String

unfoldable pub candidates : List RegistryEntry → List (String × String)
candidates = map (λ e. (e.adapter_id, e.adapter_version))

-- `result.exit_code == 0`
unfoldable pub is_zero : ℤ → Bool
is_zero (pos zero) = true
is_zero (pos (suc n)) = false
is_zero (negsuc n) = false

-- `AdapterProtocol.execute`; an exception is its type and text.
abbrev pub Execute : Type 0 → Type 0 → Type 0 → Type 0
Execute W I F = I → Call W String (AdapterResult F)

module _ {F : Type 0} where
  -- A task that failed without a result of an adapter.
  unfoldable pub failed_result : String → String → TaskError → TaskResult F
  failed_result action adapter_id e = record {
    action = action;
    adapter_id = adapter_id;
    findings = none;
    evidence = [];
    status = failed;
    error = some e;
  }

  unfoldable pub result_of : String → String → AdapterResult F → TaskResult F
  result_of action adapter_id r = record {
    action = action;
    adapter_id = adapter_id;
    findings = r.findings;
    evidence = r.evidence;
    status = if is_zero r.exit_code then completed else failed;
    error = if is_zero r.exit_code then none else some (exited r.exit_code);
  }

  unfoldable pub skipped_result : String → String → String → TaskResult F
  skipped_result action adapter_id reason = record {
    action = action;
    adapter_id = adapter_id;
    findings = none;
    evidence = [];
    status = skipped;
    error =
        some (skipped_because (if reason == "" then "LLM judgment skipped this task" else reason));
  }

-- The agent's registry index, runtime instances and context.
pub record Agent (W I F : Type 0) : Type 0 where
  pub index : Index
  pub instances : Dict String (Execute W I F)
  pub context : Dict String String

-- The judgment is asked about the failed result and the retries so far.
abbrev pub Judge : Type 0 → Type 0 → Type 0 → Type 0
Judge W I F = TaskResult F → ℕ → W → Judgment I × W

-- `dict(judgment.adjusted_inputs)`, or the inputs as they are.
unfoldable pub next_inputs : {I : Type 0} → Option I → I → I
next_inputs none inputs = inputs
next_inputs (some adjusted) inputs = adjusted

module _ {W I F : Type 0} where
  unfoldable pub run_instance : Execute W I F → String → String → I → W → TaskResult F × W
  run_instance execute action adapter_id inputs w =
      let (answer, w') = execute inputs w in
      elim answer [
        | ok r ↦ (result_of action adapter_id r, w')
        | err exc ↦ (failed_result action adapter_id (raised exc), w')
      ]

  -- `DeterministicAgent.receive_task`, on the entries that the registry found.
  unfoldable pub run_entries : Agent W I F → String → List RegistryEntry → I → W → TaskResult F × W
  run_entries agent action [] inputs w = (failed_result action "" (none_registered action), w)
  run_entries agent action (entry ∷ []) inputs w =
      elim (Dict.get agent.instances entry.adapter_id) [
        | none ↦ (failed_result action "" (no_instance entry.adapter_id), w)
        | some execute ↦ run_instance execute action entry.adapter_id inputs w
      ]
  run_entries agent action (a ∷ b ∷ entries) inputs w =
      (failed_result action "" (ambiguous action (candidates (a ∷ b ∷ entries))), w)

  unfoldable pub receive_task : Agent W I F → String → I → W → TaskResult F × W
  receive_task agent action inputs w =
      run_entries agent action (find_adapters action agent.context agent.index) inputs w

  -- The loop of `LLMAgent.receive_task`, with `left` retries still allowed.
  unfoldable pub attempt :
      Agent W I F → Judge W I F → String → (left retries : ℕ) → I → W → TaskResult F × W
  attempt agent judgment action zero retries inputs w = receive_task agent action inputs w
  attempt agent judgment action (suc left) retries inputs w =
      let (result, w1) = receive_task agent action inputs w in
      let (j, w2) = judgment result retries w1 in
      let again =
        attempt agent judgment action left (suc retries) (next_inputs j.adjusted_inputs inputs)
          w2 in
      elim result.status [
        | completed ↦ (result, w1)
        | _ ↦ elim j.decision [
          | surrender ↦ (result, w2)
          | skip ↦ (skipped_result action result.adapter_id j.reason, w2)
          | retry ↦ again
        ]
      ]

  unfoldable pub receive_task_llm :
      Agent W I F → Judge W I F → (max_retries : ℕ) → String → I → W → TaskResult F × W
  receive_task_llm agent judgment max_retries action inputs w =
      attempt agent judgment action max_retries 0 inputs w
