-- ===== src/Cicd/Outcomes.antt =====
-- src/cicd/agents.py: when a task completes, and how often an agent acts.
use aieos_agent_harness.Base.{
  zero, suc, String, string_eq, ◌≡◌, refl, ◌≢◌, ◌↔◌, inl, inr, true, some, Option-cases, List, [],
  ◌∷◌, arith,
}
use aieos_agent_harness.Base.Dict
use aieos_agent_harness.Base.Dict.{Dict}
use aieos_agent_harness.Base.Lists.{length}
use aieos_agent_harness.Adapter.{ok, Outcome-cases}
use aieos_agent_harness.Cicd.{
  RegistryEntry, ℤ, pos, negsuc, AdapterResult, TaskResult, completed, failed,
}
use aieos_agent_harness.Cicd.Registry.{find_adapters}
use aieos_agent_harness.Cicd.Agents.{
  is_zero, Execute, failed_result, result_of, Agent, run_instance, run_entries, receive_task,
}

module _ {W I F : Type 0} (agent : Agent W I F) (action : String) where
  -- Exactly one adapter is registered for the action, the agent has its instance, and the instance
  -- returns with exit code 0.
  pub record IsDone (inputs : I) (w : W) (result : TaskResult F) (w' : W) : Type 0 where
    pub entry : RegistryEntry
    pub execute : Execute W I F
    pub answer : AdapterResult F
    pub found : find_adapters action agent.context agent.index ≡ entry ∷ []
    pub known : Dict.get agent.instances entry.adapter_id ≡ some execute
    pub returned : execute inputs w ≡ (ok answer, w')
    pub exit_zero : answer.exit_code ≡ pos 0
    pub findings : result.findings ≡ answer.findings
    pub evidence : result.evidence ≡ answer.evidence

  zero-exit : (n : ℤ) → is_zero n ≡ true → n ≡ pos 0
  unfolding is_zero
  zero-exit (pos zero) h = refl
  zero-exit (pos (suc n)) h = cc
  zero-exit (negsuc n) h = cc

  entries-IsDone :
      (inputs : I) (w : W) (entries : List RegistryEntry)
      → find_adapters action agent.context agent.index ≡ entries
      → (run_entries agent action entries inputs w).0.status ≡ completed
      → let (result, w') = run_entries agent action entries inputs w in IsDone inputs w result w'
  unfolding run_entries run_instance failed_result result_of
  entries-IsDone inputs w [] f h = absurd (ground arith)
  entries-IsDone inputs w (a ∷ b ∷ es) f h = absurd (ground arith)
  entries-IsDone inputs w (e ∷ []) f h =
      elim (Option-cases (Dict.get agent.instances e.adapter_id)) [
        | inl k ↦ absurd (ground arith)
        | inr (execute, k) ↦ elim (Outcome-cases (execute inputs w).0) [
          | inr (exc, x) ↦ absurd (ground arith)
          | inl (answer, x) ↦ record {
            entry = e;
            execute = execute;
            answer = answer;
            found = f;
            known = k;
            returned = ground arith;
            exit_zero = zero-exit answer.exit_code (ground arith);
            findings = ground arith;
            evidence = ground arith;
          }
        ]
      ]

  done-completed :
      (inputs : I) (w : W) (result : TaskResult F) (w' : W)
      → (receive_task agent action inputs w ≡ (result, w'))
      → IsDone inputs w result w'
      → result.status ≡ completed
  unfolding receive_task run_entries run_instance result_of is_zero
  done-completed inputs w result w' h d =
      let found : find_adapters action agent.context agent.index ≡ d.entry ∷ [] = d.found in
      let known : Dict.get agent.instances d.entry.adapter_id ≡ some d.execute = d.known in
      let returned : d.execute inputs w ≡ (ok d.answer, w') = d.returned in
      let exit_zero : d.answer.exit_code ≡ pos 0 = d.exit_zero in
      ground (arith, found, known, returned, exit_zero)

  -- A task completes exactly when one adapter is registered for its action in the agent's context,
  -- the agent has that adapter's instance, and the instance returns with exit code 0. The findings
  -- and the evidence are then the instance's.
  pub receive_task-completed :
      (inputs : I) (w : W)
      → let (result, w') = receive_task agent action inputs w in
        (result.status ≡ completed) ↔ IsDone inputs w result w'
  unfolding receive_task
  receive_task-completed inputs w = (
    λ h. entries-IsDone inputs w (find_adapters action agent.context agent.index) refl h,
    λ d. done-completed inputs w _ _ (unfold receive_task in refl) d,
  )

  entries-failed :
      (inputs : I) (w : W) (entries : List RegistryEntry)
      → length entries ≢ 1
      → ((run_entries agent action entries inputs w).0.status ≡ failed)
        × ((run_entries agent action entries inputs w).1 ≡ w)
  unfolding run_entries failed_result
  entries-failed inputs w [] h = ground arith
  entries-failed inputs w (e ∷ []) h = absurd (h refl)
  entries-failed inputs w (a ∷ b ∷ es) h = ground arith

  -- With no adapter registered for the action, or more than one, the task fails and nothing runs.
  pub receive_task-ambiguous :
      (inputs : I) (w : W)
      → length (find_adapters action agent.context agent.index) ≢ 1
      → ((receive_task agent action inputs w).0.status ≡ failed)
        × ((receive_task agent action inputs w).1 ≡ w)
  unfolding receive_task
  receive_task-ambiguous inputs w h =
      entries-failed inputs w (find_adapters action agent.context agent.index) h
