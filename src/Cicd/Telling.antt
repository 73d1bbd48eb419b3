-- ===== src/Cicd/Telling.antt =====
-- src/cicd/events.py: what one event, or the events of one task, tell a reader.
use mathlib.Core.Path.{subst}
use mathlib.Core.List.{append-nil, append_assoc, map-append}
use aieos_agent_harness.Base.Dict
use aieos_agent_harness.Base.Dict.{Dict}
use aieos_agent_harness.Base.{map, String, string_eq, ◌≡◌, refl, sym, ap, ◌∙◌, List, [], ◌∷◌, ◌++◌}
use aieos_agent_harness.Base.Lists.{All, All-append}
use aieos_agent_harness.Cicd.{TaskResult}
use aieos_agent_harness.Cicd.Events.{
  EventPayload, event_dict, payload_dict, run_start, task_start, task_evidence, task_result,
  run_end, RunEvent, Emitter, Stream, status_text, placeholder_findings_ref, emit, iso,
  emit_run_start, emit_run_end, emit_evidence, emit_result,
}
use aieos_agent_harness.Cicd.Reports.{Report, replay}

-- Some events behind those of a stream, all of one run, which a reader takes from what it has `seen` to
-- `told` and what it has then.
pub record Told (run_id : String) (s t : List RunEvent) (seen after : List String)
    (told : List Report) : Type 0 where
  pub events : List RunEvent
  pub appended : t ≡ s ++ events
  pub ours : All (λ e. e.run_id ≡ run_id) events
  pub read :
      (rest : List (Dict String String))
      → replay seen (map event_dict events ++ rest) ≡ told ++ replay after rest

pub Told-nothing :
    (run_id : String) (s : List RunEvent) (seen : List String) → Told run_id s s seen seen []
Told-nothing run_id s seen = record {
  events = [];
  appended = sym (append-nil s);
  ours = tt;
  read = λ rest. refl;
}

pub Told-then :
    (run_id : String) (s t u : List RunEvent) (p q r : List String) (a b : List Report)
    → Told run_id s t p q a
    → Told run_id t u q r b
    → Told run_id s u p r (a ++ b)
Told-then run_id s t u p q r a b x y = record {
  events = x.events ++ y.events;
  appended = y.appended ∙ ap (λ l. l ++ y.events) x.appended ∙ append_assoc s x.events y.events;
  ours = All-append (λ e. e.run_id ≡ run_id) x.events y.events x.ours y.ours;
  read = λ rest.
      ap (λ l. replay p (l ++ rest)) (map-append event_dict x.events y.events)
      ∙ ap (replay p) (append_assoc (map event_dict x.events) (map event_dict y.events) rest)
      ∙ x.read (map event_dict y.events ++ rest)
      ∙ ap (λ l. a ++ l) (y.read rest)
      ∙ sym (append_assoc a b (replay r rest));
}

module _ {W : Type 0} (clock fresh : W → String) (em : Emitter) where
  Told-emit :
      (payload : EventPayload) (s : Stream W) (seen after : List String) (told : List Report)
      → ((rest : List (Dict String String))
          → replay seen (
              event_dict
                (record { payload = payload; run_id = em.run_id; timestamp = iso (clock s.world) })
              ∷ rest)
            ≡ told ++ replay after rest)
      → Told em.run_id s.out (emit clock fresh em payload s).out seen after told
  unfolding emit
  Told-emit payload s seen after told read = record {
    events = record { payload = payload; run_id = em.run_id; timestamp = iso (clock s.world) } ∷ [];
    appended = refl;
    ours = (refl, tt);
    read = read;
  }

  Told-evidence :
      (tid ref : String) (s : Stream W) (seen : List String)
      → Told em.run_id s.out
          (emit clock fresh em (task_evidence tid ref) s).out
          seen
          (seen ++ ref ∷ [])
          []
  unfolding replay event_dict payload_dict Dict.insert Dict.get_or Dict.get string_eq
  Told-evidence tid ref s seen =
      Told-emit (task_evidence tid ref) s seen (seen ++ ref ∷ []) [] (λ rest. refl)

  Told-start :
      (tid action : String) (s : Stream W) (seen : List String)
      → Told em.run_id s.out (emit clock fresh em (task_start tid action "") s).out seen [] []
  unfolding replay event_dict payload_dict Dict.insert Dict.get_or Dict.get string_eq
  Told-start tid action s seen = Told-emit (task_start tid action "") s seen [] [] (λ rest. refl)

  pub Told-run_start :
      (s : Stream W) (seen : List String)
      → Told em.run_id s.out (emit_run_start clock fresh em s).out seen [] []
  unfolding emit_run_start replay event_dict payload_dict Dict.insert Dict.get_or Dict.get string_eq
  Told-run_start s seen = Told-emit (run_start em.spec_ref) s seen [] [] (λ rest. refl)

  pub Told-run_end :
      (status : String) (s : Stream W) (seen : List String)
      → Told em.run_id s.out (emit_run_end clock fresh em status s).out seen [] []
  unfolding emit_run_end replay event_dict payload_dict Dict.insert Dict.get_or Dict.get string_eq
  Told-run_end status s seen = Told-emit (run_end status) s seen [] [] (λ rest. refl)

  Told-result :
      {F : Type 0} (tid action : String) (result : TaskResult F) (s : Stream W) (seen : List String)
      → Told em.run_id s.out
          (emit clock fresh em
            (task_result tid action result.adapter_id
              (status_text result.status)
              (placeholder_findings_ref result))
            s).out
          seen
          []
          (record {
            task_id = tid;
            action = action;
            adapter_id = result.adapter_id;
            status = status_text result.status;
            findings_ref = placeholder_findings_ref result;
            evidence = seen;
          }
            ∷ [])
  unfolding replay event_dict payload_dict Dict.insert Dict.get_or Dict.get string_eq
  Told-result tid action result s seen =
      Told-emit
        (task_result tid action result.adapter_id (status_text result.status)
          (placeholder_findings_ref result))
        s seen [] _ (λ rest. refl)

  Told-refs :
      (tid : String) (refs : List String) (s : Stream W) (seen : List String)
      → Told em.run_id s.out (emit_evidence clock fresh em tid refs s).out seen (seen ++ refs) []
  unfolding emit_evidence
  Told-refs tid [] s seen =
      subst (λ l. Told em.run_id s.out s.out seen l []) (sym (append-nil seen))
        (Told-nothing em.run_id s.out seen)
  Told-refs tid (ref ∷ refs) s seen =
      let s1 = emit clock fresh em (task_evidence tid ref) s in
      subst (λ l. Told em.run_id s.out (emit_evidence clock fresh em tid refs s1).out seen l [])
        (append_assoc seen (ref ∷ []) refs)
        (Told-then em.run_id s.out s1.out (emit_evidence clock fresh em tid refs s1).out seen
          (seen ++ ref ∷ []) ((seen ++ ref ∷ []) ++ refs) [] [] (Told-evidence tid ref s seen)
          (Told-refs tid refs s1 (seen ++ ref ∷ [])))

  emit_evidence-world :
      (tid : String) (refs : List String) (s : Stream W)
      → (emit_evidence clock fresh em tid refs s).world ≡ s.world
  unfolding emit_evidence emit
  emit_evidence-world tid [] s = refl
  emit_evidence-world tid (ref ∷ refs) s =
      emit_evidence-world tid refs (emit clock fresh em (task_evidence tid ref) s)

  -- What both agents emit around a task that ends in `result`, in the world `w`.
  abbrev pub around : {F : Type 0} → String → String → TaskResult F → W → Stream W → Stream W
  around tid action result w s =
      emit_result clock fresh em tid action result
        (record (emit clock fresh em (task_start tid action "") s) { world = w })

  pub Told-around :
      {F : Type 0} (tid action : String) (result : TaskResult F) (w : W) (s : Stream W)
      (seen : List String)
      → Told em.run_id s.out (around tid action result w s).out seen [] (
          record {
            task_id = tid;
            action = action;
            adapter_id = result.adapter_id;
            status = status_text result.status;
            findings_ref = placeholder_findings_ref result;
            evidence = result.evidence;
          }
          ∷ [])
  unfolding emit_result
  Told-around tid action result w s seen =
      let s1 = emit clock fresh em (task_start tid action "") s in
      let s2 : Stream W = record s1 { world = w } in
      let s3 = emit_evidence clock fresh em tid result.evidence s2 in
      Told-then em.run_id s.out s1.out (around tid action result w s).out seen [] [] [] _
        (Told-start tid action s seen)
        (Told-then em.run_id s2.out s3.out (around tid action result w s).out [] result.evidence []
          [] _ (Told-refs tid result.evidence s2 [])
          (Told-result tid action result s3 result.evidence))

  pub around-world :
      {F : Type 0} (tid action : String) (result : TaskResult F) (w : W) (s : Stream W)
      → (around tid action result w s).world ≡ w
  unfolding emit_result emit
  around-world tid action result w s =
      emit_evidence-world tid result.evidence
        (record (emit clock fresh em (task_start tid action "") s) { world = w })
