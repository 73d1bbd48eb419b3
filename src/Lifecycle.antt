-- ===== src/Lifecycle.antt =====
-- src/lifecycle.py: `LifecycleBinder`, which adapter a lifecycle event goes to. The `config` of a
-- binding is of a type `K`.
pub mod Priority
mod Tests
use aieos_agent_harness.Base.{
  String, string_eq, ◌<>◌, ◌≡◌, refl, ◌≢◌, inl, inr, Bool, true, false, Bool-cases, Option, none,
  some, List, [], ◌∷◌, ◌++◌, ◌==◌, if◌then◌else◌, not, ◌&&◌, arith,
}
use aieos_agent_harness.Base.Dict
use aieos_agent_harness.Base.Dict.{Dict}
use aieos_agent_harness.Base.Lists.{All}
use aieos_agent_harness.Models.{
  AgentRequest, AgentResponse, AgentSpecies, LifecycleEvent, event_eq, RoutingStrategy,
}
use aieos_agent_harness.Adapter.{Outcome, ok, err, Call, Adapter, rethrow, raise}

pub record EventBinding (K : Type 0) : Type 0 where
  pub event : LifecycleEvent
  pub artifact_type : String
  pub adapter_names : List String
  pub strategy : RoutingStrategy
  pub species : AgentSpecies
  pub config : K

pub record LifecycleBinder (W K : Type 0) : Type 0 where
  pub bindings : List (EventBinding K)
  pub adapters : Dict String (Adapter W)

pub record Resolved (W K : Type 0) : Type 0 where
  pub adapter : Adapter W
  pub strategy : RoutingStrategy
  pub config : K

pub data BindingError : Type 0 where
  no_binding : LifecycleEvent → String → BindingError
  adapter_raised : String → BindingError

module _ {W K : Type 0} where
  -- The `for` over the names of one binding: a name without an adapter is passed over.
  unfoldable pub named :
      Dict String (Adapter W) → EventBinding K → List String → List (Resolved W K)
  named adapters b [] = []
  named adapters b (name ∷ names) =
      let rest = named adapters b names in
      elim (Dict.get adapters name) [
        | none ↦ rest
        | some a ↦ record { adapter = a; strategy = b.strategy; config = b.config } ∷ rest
      ]

  -- The loop of `resolve`: the list of the exact matches and the list of the wildcard matches.
  unfoldable pub collect :
      Dict String (Adapter W)
      → LifecycleEvent
      → String
      → List (EventBinding K)
      → List (Resolved W K) × List (Resolved W K)
  collect adapters event type [] = ([], [])
  collect adapters event type (b ∷ bs) =
      let (exact, wildcard) = collect adapters event type bs in
      if b.event == event
      then if b.artifact_type == type
        then (named adapters b b.adapter_names ++ exact, wildcard)
        else if b.artifact_type == "*"
        then (exact, named adapters b b.adapter_names ++ wildcard)
        else (exact, wildcard)
      else (exact, wildcard)

  unfoldable pub resolve : LifecycleBinder W K → LifecycleEvent → String → List (Resolved W K)
  resolve binder event type =
      let (exact, wildcard) = collect binder.adapters event type binder.bindings in
      elim exact [ [] ↦ wildcard | r ∷ rs ↦ r ∷ rs ]

  unfoldable pub execute :
      LifecycleBinder W K → LifecycleEvent → AgentRequest → Call W BindingError AgentResponse
  execute binder event request = elim (resolve binder event request.artifact_type) [
    | [] ↦ raise (no_binding event request.artifact_type)
    | r ∷ rs ↦ rethrow adapter_raised (r.adapter.invoke request)
  ]
