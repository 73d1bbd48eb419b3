-- ===== src/Cicd/Reports.antt =====
-- src/cicd/events.py: a run of tasks on the two agents, and what a reader makes of its events.
use aieos_agent_harness.Base.Dict
use aieos_agent_harness.Base.Dict.{Dict}
use aieos_agent_harness.Base.{true, false, ◌==◌, ℕ, String, string_eq, Option, List, [], ◌∷◌, ◌++◌}
use aieos_agent_harness.Cicd.{TaskResult}
use aieos_agent_harness.Cicd.Agents.{Agent, Judge, receive_task, receive_task_llm}
use aieos_agent_harness.Cicd.Events.{
  Emitter, Stream, status_text, placeholder_findings_ref, emit_run_start, emit_run_end, task_id_of,
  emitting_receive_task, emitting_receive_task_llm,
}

-- What a reader of the events knows of one task.
pub record Report : Type 0 where
  pub task_id : String
  pub action : String
  pub adapter_id : String
  pub status : String
  pub findings_ref : String
  pub evidence : List String

-- The reading of a run's lines, which goes by what each line says under its keys: the evidence since
-- the last start or result belongs to the next result.
unfoldable pub replay : List String → List (Dict String String) → List Report
replay seen [] = []
replay seen (d ∷ ds) = elim (Dict.get_or d "type" "" == "task.evidence") [
  | true ↦ replay (seen ++ Dict.get_or d "evidence_ref" "" ∷ []) ds
  | false ↦ elim (Dict.get_or d "type" "" == "task.result") [
    | true ↦
        record {
          task_id = Dict.get_or d "task_id" "";
          action = Dict.get_or d "action" "";
          adapter_id = Dict.get_or d "adapter_id" "";
          status = Dict.get_or d "status" "";
          findings_ref = Dict.get_or d "findings_ref" "";
          evidence = seen;
        }
        ∷ replay [] ds
    | false ↦ replay [] ds
  ]
]

-- A task for one of the two agents, and the id that the caller gives it.
pub data AgentTask (W I F : Type 0) : Type 0 where
  plain_task : Agent W I F → String → I → Option String → AgentTask W I F
  judged_task : Agent W I F → Judge W I F → ℕ → String → I → Option String → AgentTask W I F

module _ {W I F : Type 0} where
  -- The agent without events.
  unfoldable pub perform : AgentTask W I F → W → TaskResult F × W
  perform (plain_task agent action inputs _) w = receive_task agent action inputs w
  perform (judged_task agent judgment retries action inputs _) w =
      receive_task_llm agent judgment retries action inputs w

  unfoldable pub action_of : AgentTask W I F → String
  action_of (plain_task _ action _ _) = action
  action_of (judged_task _ _ _ action _ _) = action

  unfoldable pub given_of : AgentTask W I F → Option String
  given_of (plain_task _ _ _ given) = given
  given_of (judged_task _ _ _ _ _ given) = given

  unfoldable pub report_task : String → AgentTask W I F → TaskResult F → Report
  report_task tid task result = record {
    task_id = tid;
    action = action_of task;
    adapter_id = result.adapter_id;
    status = status_text result.status;
    findings_ref = placeholder_findings_ref result;
    evidence = result.evidence;
  }

  module _ (clock fresh : W → String) where
    -- The tasks on the agents without events: what a reader should learn, and the world left.
    unfoldable pub expected : List (AgentTask W I F) → W → List Report × W
    expected [] w = ([], w)
    expected (task ∷ tasks) w =
        let (result, w') = perform task w in
        let (rest, end) = expected tasks w' in
        (
          report_task (task_id_of clock fresh (action_of task) (given_of task) w) task result
              ∷ rest,
          end,
        )

  module _ (clock fresh : W → String) (em : Emitter) where
    unfoldable pub perform_emitting : AgentTask W I F → Stream W → TaskResult F × Stream W
    perform_emitting (plain_task agent action inputs given) s =
        emitting_receive_task clock fresh agent em action inputs given s
    perform_emitting (judged_task agent judgment retries action inputs given) s =
        emitting_receive_task_llm clock fresh agent judgment retries em action inputs given s

    unfoldable pub perform_all : List (AgentTask W I F) → Stream W → Stream W
    perform_all [] s = s
    perform_all (task ∷ tasks) s = perform_all tasks (perform_emitting task s).1

-- A run from `run_start` to `run_end`.
unfoldable pub narrate :
    {W I F : Type 0}
    → (clock fresh : W → String) → Emitter
    → List (AgentTask W I F)
    → (status : String) → Stream W
    → Stream W
narrate clock fresh em tasks status s =
    emit_run_end clock fresh em status
      (perform_all clock fresh em tasks (emit_run_start clock fresh em s))
