-- ===== src/Lifecycle/Tests.antt =====
-- src/lifecycle.py: a binder with an exact and a wildcard binding, and the theorems at it.
use aieos_agent_harness.Base.{ℕ, ◌+◌, String, string_eq, ◌≡◌, ◌≢◌, [], ◌∷◌, arith}
use aieos_agent_harness.Base.Dict
use aieos_agent_harness.Base.Lists.{keep}
use aieos_agent_harness.Models.{pre_generation, fallback, dark_factory, event_eq}
use aieos_agent_harness.Adapter.{err, Adapter}
use aieos_agent_harness.Lifecycle.{EventBinding, LifecycleBinder, named, collect, resolve}
use aieos_agent_harness.Lifecycle.Priority.{only, resolve-only}

abbrev adapter : String → Adapter ℕ
adapter name = record {
  provider_name = name;
  model_name = "m";
  invoke = λ q w. (err "down", w + 1);
  cost_estimate = λ q. 0;
}

abbrev binding : String → String → EventBinding String
binding type name = record {
  event = pre_generation;
  artifact_type = type;
  adapter_names = name ∷ [];
  strategy = fallback;
  species = dark_factory;
  config = "";
}

abbrev binder : LifecycleBinder ℕ String
binder = record {
  bindings = binding "*" "a" ∷ binding "SAD" "b" ∷ [];
  adapters = ("a", adapter "a") ∷ ("b", adapter "b") ∷ [];
}

exact_found : resolve (only binder "SAD") pre_generation "SAD" ≢ []
unfolding resolve collect named keep string_eq Dict.get
exact_found = ground arith

resolve-only_example :
    resolve binder pre_generation "SAD" ≡ resolve (only binder "SAD") pre_generation "SAD"
resolve-only_example = resolve-only binder pre_generation "SAD" exact_found
