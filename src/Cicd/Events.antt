-- ===== src/Cicd/Events.antt =====
-- src/cicd/events.py: the events of a run, and the two agents that emit them. The output is the
-- list of the emitted events; `event_dict` is what the JSON of a line is made of. The clock's reading, as
-- `datetime.isoformat` prints it, and the digits of a new UUID are functions of the world `W`.
use Prim.Native.String.{String}
use aieos_agent_harness.Base.{
  ℕ, ◌<>◌, string_eq, Option, none, some, List, [], ◌∷◌, ◌++◌, ◌==◌, if◌then◌else◌,
}
use aieos_agent_harness.Base.Dict
use aieos_agent_harness.Base.Dict.{Dict}
use aieos_agent_harness.Adapter.{Outcome, ok, err}
use aieos_agent_harness.Cicd.{TaskResult, TaskStatus, completed, failed, skipped}
use aieos_agent_harness.Cicd.Agents.{Agent, Judge, receive_task, receive_task_llm}

-- An event of a run, without its run id and time.
pub data EventPayload : Type 0 where
  run_start : (spec_ref : String) → EventPayload
  task_start : (task_id action adapter_id : String) → EventPayload
  task_evidence : (task_id evidence_ref : String) → EventPayload
  task_result : (task_id action adapter_id status findings_ref : String) → EventPayload
  run_end : (status : String) → EventPayload

pub record RunEvent : Type 0 where
  pub payload : EventPayload
  pub run_id : String
  pub timestamp : String

unfoldable pub payload_dict : EventPayload → Dict String String
payload_dict (run_start spec_ref) = ("type", "run.start") ∷ ("spec_ref", spec_ref) ∷ []
payload_dict (task_start task_id action adapter_id) =
    ("type", "task.start")
    ∷ ("task_id", task_id)
    ∷ ("action", action)
    ∷ ("adapter_id", adapter_id)
    ∷ []
payload_dict (task_evidence task_id evidence_ref) =
    ("type", "task.evidence") ∷ ("task_id", task_id) ∷ ("evidence_ref", evidence_ref) ∷ []
payload_dict (task_result task_id action adapter_id status findings_ref) =
    ("type", "task.result")
    ∷ ("task_id", task_id)
    ∷ ("action", action)
    ∷ ("adapter_id", adapter_id)
    ∷ ("status", status)
    ∷ ("findings_ref", findings_ref)
    ∷ []
payload_dict (run_end status) = ("type", "run.end") ∷ ("status", status) ∷ []

-- The dict whose JSON is an event's line.
unfoldable pub event_dict : RunEvent → Dict String String
event_dict e =
    Dict.insert "timestamp" e.timestamp (Dict.insert "run_id" e.run_id (payload_dict e.payload))

-- `_iso`: a last `+00:00` becomes `Z`.
unfoldable pub iso : String → String
iso String.[] = String.[]
iso (String.◌∷◌ c s) =
    let rest = iso s in if String.◌∷◌ c s == "+00:00" then "Z" else String.◌∷◌ c rest

pub record Emitter : Type 0 where
  pub run_id : String
  pub spec_ref : String

pub data EmitterError : Type 0 where
  empty_run_id : EmitterError

unfoldable pub new_emitter : String → String → Outcome EmitterError Emitter
new_emitter run_id spec_ref =
    if run_id == "" then err empty_run_id else ok (record { run_id = run_id; spec_ref = spec_ref })

-- The world, and what was emitted.
pub record Stream (W : Type 0) : Type 0 where
  pub world : W
  pub out : List RunEvent

unfoldable pub status_text : TaskStatus → String
status_text completed = "completed"
status_text failed = "failed"
status_text skipped = "skipped"

-- `_placeholder_findings_ref`
unfoldable pub placeholder_findings_ref : {F : Type 0} → TaskResult F → String
placeholder_findings_ref result = elim result.findings [
  | none ↦ ""
  | some _ ↦ "inline://" <> (if result.adapter_id == "" then "unknown" else result.adapter_id)
]

module _ {W : Type 0} (clock fresh : W → String) where
  unfoldable pub emit : Emitter → EventPayload → Stream W → Stream W
  emit em payload s = record s {
    out =
        s.out
        ++ record { payload = payload; run_id = em.run_id; timestamp = iso (clock s.world) } ∷ [];
  }

  unfoldable pub emit_run_start : Emitter → Stream W → Stream W
  emit_run_start em s = emit em (run_start em.spec_ref) s

  unfoldable pub emit_run_end : Emitter → String → Stream W → Stream W
  emit_run_end em status s = emit em (run_end status) s

  -- `_synth_task_id`
  unfoldable pub synth_task_id : String → W → String
  synth_task_id action w = action <> "-" <> fresh w

  -- `task_id or _synth_task_id(action)`
  unfoldable pub task_id_of : String → Option String → W → String
  task_id_of action none w = synth_task_id action w
  task_id_of action (some given) w = if given == "" then synth_task_id action w else given

  unfoldable pub emit_evidence : Emitter → String → List String → Stream W → Stream W
  emit_evidence em tid [] s = s
  emit_evidence em tid (ref ∷ refs) s =
      emit_evidence em tid refs (emit em (task_evidence tid ref) s)

  -- What both agents emit of a result.
  unfoldable pub emit_result :
      {F : Type 0} → Emitter → String → String → TaskResult F → Stream W → Stream W
  emit_result em tid action result s =
      emit em
        (task_result tid action result.adapter_id (status_text result.status)
          (placeholder_findings_ref result))
        (emit_evidence em tid result.evidence s)

  module _ {I F : Type 0} where
    -- `EmittingDeterministicAgent.receive_task`
    unfoldable pub emitting_receive_task :
        Agent W I F → Emitter → String → I → Option String → Stream W → TaskResult F × Stream W
    emitting_receive_task agent em action inputs given s =
        let tid = task_id_of action given s.world in
        let s1 = emit em (task_start tid action "") s in
        let (result, w) = receive_task agent action inputs s1.world in
        (result, emit_result em tid action result (record s1 { world = w }))

    -- `EmittingLLMAgent.receive_task`
    unfoldable pub emitting_receive_task_llm :
        Agent W I F
        → Judge W I F
        → (max_retries : ℕ) → Emitter
        → String
        → I
        → Option String
        → Stream W
        → TaskResult F × Stream W
    emitting_receive_task_llm agent judgment max_retries em action inputs given s =
        let tid = task_id_of action given s.world in
        let s1 = emit em (task_start tid action "") s in
        let (result, w) = receive_task_llm agent judgment max_retries action inputs s1.world in
        (result, emit_result em tid action result (record s1 { world = w }))
