-- ===== src/Cicd/Narrative.antt =====
-- src/cicd/events.py: what the events of a run tell of it.
use mathlib.Core.Path.{subst}
use mathlib.Core.List.{append-nil}
use aieos_agent_harness.Base.{
  map, String, string_eq, ◌≡◌, refl, sym, ap, ◌∙◌, some, List, [], ◌∷◌, ◌++◌, arith, Bool-cases,
  ◌==◌, ◌≢◌, inl, inr,
}
use aieos_agent_harness.Base.Lists.{All}
use aieos_agent_harness.Base.Dict
use aieos_agent_harness.Adapter.{ok}
use aieos_agent_harness.Cicd.Agents.{receive_task, receive_task_llm}
use aieos_agent_harness.Cicd.Events.{
  RunEvent, Emitter, Stream, emit, emit_run_start, emit_run_end, task_id_of, emitting_receive_task,
  emitting_receive_task_llm, new_emitter, event_dict, payload_dict,
}
use aieos_agent_harness.Cicd.Reports.{
  replay, AgentTask, plain_task, judged_task, perform, action_of, given_of, report_task,
  perform_emitting, perform_all, expected, narrate,
}
use aieos_agent_harness.Cicd.Telling.{
  Told, Told-nothing, Told-then, Told-run_start, Told-run_end, Told-around, around-world,
}

module _ {W I F : Type 0} (clock fresh : W → String) (em : Emitter) where
  -- A task with events has the result and the world of the task without them.
  Told-task :
      (task : AgentTask W I F) (s : Stream W) (seen : List String)
      → ((perform_emitting clock fresh em task s).0 ≡ (perform task s.world).0)
        × ((perform_emitting clock fresh em task s).1.world ≡ (perform task s.world).1)
        × Told em.run_id s.out (perform_emitting clock fresh em task s).1.out seen [] (
            report_task
              (task_id_of clock fresh (action_of task) (given_of task) s.world)
              task
              (perform task s.world).0
            ∷ [])
  unfolding perform_emitting perform emitting_receive_task emitting_receive_task_llm action_of
      given_of report_task emit
  Told-task (plain_task agent action inputs given) s seen =
      let tid = task_id_of clock fresh action given s.world in
      let r = receive_task agent action inputs s.world in
      (
        refl,
        around-world clock fresh em tid action r.0 r.1 s,
        Told-around clock fresh em tid action r.0 r.1 s seen,
      )
  Told-task (judged_task agent judgment retries action inputs given) s seen =
      let tid = task_id_of clock fresh action given s.world in
      let r = receive_task_llm agent judgment retries action inputs s.world in
      (
        refl,
        around-world clock fresh em tid action r.0 r.1 s,
        Told-around clock fresh em tid action r.0 r.1 s seen,
      )

  Told-tasks :
      (tasks : List (AgentTask W I F)) (s : Stream W)
      → ((perform_all clock fresh em tasks s).world ≡ (expected clock fresh tasks s.world).1)
        × Told em.run_id s.out
            (perform_all clock fresh em tasks s).out
            []
            []
            (expected clock fresh tasks s.world).0
  unfolding perform_all expected
  Told-tasks [] s = (refl, Told-nothing em.run_id s.out [])
  Told-tasks (task ∷ tasks) s =
      let s1 = (perform_emitting clock fresh em task s).1 in
      let (_, world, told) = Told-task task s [] in
      let (end, rest) = Told-tasks tasks s1 in
      (
        end ∙ ap (λ w. (expected clock fresh tasks w).1) world,
        Told-then em.run_id s.out s1.out (perform_all clock fresh em tasks s1).out [] [] [] _ _ told
            (subst
              (λ w.
                Told em.run_id s1.out (perform_all clock fresh em tasks s1).out [] []
                  (expected clock fresh tasks w).0)
              world rest),
      )

event_dict-run_id : (e : RunEvent) → Dict.get (event_dict e) "run_id" ≡ some e.run_id
unfolding event_dict string_eq
event_dict-run_id e =
    Dict.get-insert "run_id" "timestamp" e.timestamp
      (Dict.insert "run_id" e.run_id (payload_dict e.payload))
    ∙ Dict.get-insert "run_id" "run_id" e.run_id (payload_dict e.payload)

ours_lines :
    (run_id : String) (es : List RunEvent)
    → All (λ e. e.run_id ≡ run_id) es
    → All (λ e. Dict.get (event_dict e) "run_id" ≡ some run_id) es
ours_lines run_id [] h = tt
ours_lines run_id (e ∷ es) (h, hs) = (event_dict-run_id e ∙ ap some h, ours_lines run_id es hs)

new_emitter-run_id :
    (run_id spec_ref : String) (em : Emitter)
    → new_emitter run_id spec_ref ≡ ok em
    → (run_id ≢ "") × (em.run_id ≡ run_id)
unfolding new_emitter
new_emitter-run_id run_id spec_ref em h = elim (Bool-cases (run_id == "")) [
  | inl e ↦ absurd (ground (arith, h, e))
  | inr e ↦ (ground (arith, e), ground (arith, h, e))
]

-- An emitter is made for a run id that is not empty only. A run that it tells of, of any tasks on
-- either agent, changes the world as the agents without events do and appends events whose dicts all
-- carry the run id; from these dicts alone, by their keys, a reader gets back each task's id, action,
-- adapter, status, findings reference and evidence, in the order of the tasks.
pub narrate-replay :
    {W I F : Type 0} (clock fresh : W → String) (run_id spec_ref : String) (em : Emitter)
    (tasks : List (AgentTask W I F)) (status : String) (s : Stream W)
    → new_emitter run_id spec_ref ≡ ok em
    → (run_id ≢ "")
      × ((narrate clock fresh em tasks status s).world ≡ (expected clock fresh tasks s.world).1)
      × ((events : List RunEvent) × ((narrate clock fresh em tasks status s).out ≡ s.out ++ events)
          × All (λ e. Dict.get (event_dict e) "run_id" ≡ some run_id) events
          × (replay [] (map event_dict events) ≡ (expected clock fresh tasks s.world).0))
unfolding narrate emit_run_start emit_run_end emit replay
narrate-replay clock fresh run_id spec_ref em tasks status s h =
    let (full, same) = new_emitter-run_id run_id spec_ref em h in
    let s1 = emit_run_start clock fresh em s in
    let s2 = perform_all clock fresh em tasks s1 in
    let s3 = emit_run_end clock fresh em status s2 in
    let (world, told) = Told-tasks clock fresh em tasks s1 in
    let all_told =
      Told-then em.run_id s.out s1.out s3.out [] [] [] [] _ (Told-run_start clock fresh em s []) (
        Told-then em.run_id s1.out s2.out s3.out [] [] [] _ [] told
          (Told-run_end clock fresh em status s2 [])) in
    let reports = (expected clock fresh tasks s.world).0 in
    let replayed : replay [] (map event_dict all_told.events) ≡ reports =
      ap (replay []) (sym (append-nil (map event_dict all_told.events)))
      ∙ all_told.read []
      ∙ append-nil (reports ++ [])
      ∙ append-nil reports in
    (
      full,
      world,
      (
        all_told.events,
        all_told.appended,
        ours_lines run_id all_told.events
            (subst (λ i. All (λ e. e.run_id ≡ i) all_told.events) same all_told.ours),
        replayed,
      ),
    )
