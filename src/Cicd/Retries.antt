-- ===== src/Cicd/Retries.antt =====
-- src/cicd/agents.py: the retry loop of `LLMAgent`.
use aieos_agent_harness.Base.{
  ℕ, zero, suc, ◌+◌, ◌≤◌, String, ◌≡◌, refl, ◌⊎◌, inl, inr, some, Option-cases, List, [], ◌∷◌,
  arith, string_eq,
}
use aieos_agent_harness.Base.Dict
use aieos_agent_harness.Base.Dict.{Dict}
use aieos_agent_harness.Cicd.{RegistryEntry, TaskResult, TaskStatus, completed, failed, skipped}
use aieos_agent_harness.Cicd.Registry.{find_adapters}
use aieos_agent_harness.Cicd.Agents.{
  Decision, retry, surrender, skip, Judgment, Execute, skipped_result, Agent, Judge, next_inputs,
  run_instance, run_entries, receive_task, attempt, receive_task_llm,
}
use aieos_agent_harness.Cicd.Outcomes.{IsDone, receive_task-completed}

-- Counts of the executions and of the judgments that a world has seen.
pub record Meters (W : Type 0) : Type 0 where
  pub runs : W → ℕ
  pub judgments : W → ℕ

-- An execution counts as one run at most, a judgment as one judgment.
pub record IsMetered {W I F : Type 0} (m : Meters W) (agent : Agent W I F) (judgment : Judge W I F)
    : Type 0 where
  pub run_once :
      (adapter_id : String) (execute : Execute W I F)
      → Dict.get agent.instances adapter_id ≡ some execute
      → (inputs : I) (w : W)
      → (m.runs (execute inputs w).1 ≤ suc (m.runs w))
        × (m.judgments (execute inputs w).1 ≡ m.judgments w)
  pub judge_once :
      (result : TaskResult F) (n : ℕ) (w : W)
      → (m.runs (judgment result n w).1 ≡ m.runs w)
        × (m.judgments (judgment result n w).1 ≤ suc (m.judgments w))

module _ {W I F : Type 0} (m : Meters W) (agent : Agent W I F) (judgment : Judge W I F)
    (action : String) (metered : IsMetered m agent judgment) where
  entries-once :
      (inputs : I) (w : W) (entries : List RegistryEntry)
      → let w' = (run_entries agent action entries inputs w).1 in
        (m.runs w' ≤ suc (m.runs w)) × (m.judgments w' ≡ m.judgments w)
  unfolding run_entries run_instance
  entries-once inputs w [] = (omega arith, refl)
  entries-once inputs w (a ∷ b ∷ es) = (omega arith, refl)
  entries-once inputs w (e ∷ []) = elim (Option-cases (Dict.get agent.instances e.adapter_id)) [
    | inl k ↦ ground arith
    | inr (execute, k) ↦ ground (arith, metered.run_once e.adapter_id execute k inputs w)
  ]

  task-once :
      (inputs : I) (w : W)
      → let w' = (receive_task agent action inputs w).1 in
        (m.runs w' ≤ suc (m.runs w)) × (m.judgments w' ≡ m.judgments w)
  unfolding receive_task
  task-once inputs w = entries-once inputs w (find_adapters action agent.context agent.index)

  attempt-bound :
      (left retries : ℕ) (inputs : I) (w : W)
      → let w' = (attempt agent judgment action left retries inputs w).1 in
        (m.runs w' ≤ m.runs w + suc left) × (m.judgments w' ≤ m.judgments w + left)
  unfolding attempt
  attempt-bound zero retries inputs w = ground (arith, task-once inputs w)
  attempt-bound (suc left) retries inputs w =
      let result : TaskResult F = (receive_task agent action inputs w).0 in
      let w1 : W = (receive_task agent action inputs w).1 in
      let j : Judgment I = (judgment result retries w1).0 in
      let w2 : W = (judgment result retries w1).1 in
      ground (
        arith,
        task-once inputs w,
        metered.judge_once result retries w1,
        attempt-bound left (suc retries) (next_inputs j.adjusted_inputs inputs) w2,
      )

  -- Whatever the judgment says, a task runs an adapter at most once more than the retries that are
  -- allowed, and asks for at most that many judgments.
  pub receive_task_llm-bound :
      (max_retries : ℕ) (inputs : I) (w : W)
      → let w' = (receive_task_llm agent judgment max_retries action inputs w).1 in
        (m.runs w' ≤ m.runs w + suc max_retries) × (m.judgments w' ≤ m.judgments w + max_retries)
  unfolding receive_task_llm
  receive_task_llm-bound max_retries inputs w = attempt-bound max_retries 0 inputs w

status-cases : (s : TaskStatus) → (s ≡ completed) ⊎ ((s ≡ failed) ⊎ (s ≡ skipped))
status-cases completed = inl refl
status-cases failed = inr (inl refl)
status-cases skipped = inr (inr refl)

decision-cases : (d : Decision) → (d ≡ retry) ⊎ ((d ≡ surrender) ⊎ (d ≡ skip))
decision-cases retry = inl refl
decision-cases surrender = inr (inl refl)
decision-cases skip = inr (inr refl)

module _ {W I F : Type 0} (agent : Agent W I F) (judgment : Judge W I F) (action : String) where
  -- Some attempt, on these or on adjusted inputs, completed with this result.
  abbrev pub SomeDone : TaskResult F → W → Type 0
  SomeDone result w' = (inputs : I) × (w : W) × IsDone agent action inputs w result w'

  attempt-completed :
      (left retries : ℕ) (inputs : I) (w : W)
      → let (result, w') = attempt agent judgment action left retries inputs w in
        result.status ≡ completed → SomeDone result w'
  unfolding attempt
  attempt-completed zero retries inputs w h =
      (inputs, w, (receive_task-completed agent action inputs w).0 h)
  attempt-completed (suc left) retries inputs w h =
      let result : TaskResult F = (receive_task agent action inputs w).0 in
      let w1 : W = (receive_task agent action inputs w).1 in
      let j : Judgment I = (judgment result retries w1).0 in
      let w2 : W = (judgment result retries w1).1 in
      let again : Type 0 =
        (attempt agent judgment action left (suc retries) (next_inputs j.adjusted_inputs inputs)
          w2).0.status
        ≡ completed in
      let later : again → SomeDone _ _ =
        attempt-completed left (suc retries) (next_inputs j.adjusted_inputs inputs) w2 in
      elim (status-cases result.status) [
        | inl e ↦ rw (e, attempt) (inputs, w, (receive_task-completed agent action inputs w).0 e)
        | inr (inl e) ↦ elim (decision-cases j.decision) [
          | inl d ↦ rw (e, d, attempt) (later (ground arith))
          | inr (inl d) ↦ absurd (ground arith)
          | inr (inr d) ↦ absurd (unfold skipped_result in ground arith)
        ]
        | inr (inr e) ↦ elim (decision-cases j.decision) [
          | inl d ↦ rw (e, d, attempt) (later (ground arith))
          | inr (inl d) ↦ absurd (ground arith)
          | inr (inr d) ↦ absurd (unfold skipped_result in ground arith)
        ]
      ]

  -- Retrying never makes up a success: a completed result is that of one adapter run that returned
  -- with exit code 0, on some inputs.
  pub receive_task_llm-completed :
      (max_retries : ℕ) (inputs : I) (w : W)
      → let (result, w') = receive_task_llm agent judgment max_retries action inputs w in
        result.status ≡ completed → SomeDone result w'
  unfolding receive_task_llm
  receive_task_llm-completed max_retries inputs w = attempt-completed max_retries 0 inputs w
