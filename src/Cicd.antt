-- ===== src/Cicd.antt =====
-- src/cicd: the capability registry and the agents of the CI/CD substrate. This file is
-- src/cicd/models.py, and the interface of src/cicd/artifact_store.py.
pub mod Registry
pub mod Registration
pub mod Listing
pub mod Agents
pub mod Attestation
pub mod Outcomes
pub mod Retries
pub mod Events
pub mod Reports
pub mod Telling
pub mod Narrative
mod Tests
pub use aieos_agent_harness.Base.Integer.{ℤ, pos, negsuc}
use aieos_agent_harness.Base.{ℕ, String, Bool, Option, List}
use aieos_agent_harness.Base.Dict.{Dict}

pub data HealthStatus : Type 0 where
  healthy degraded unavailable : HealthStatus

pub data TaskStatus : Type 0 where
  completed failed skipped : TaskStatus

pub record RegistryEntry : Type 0 where
  pub adapter_id : String
  pub adapter_version : String
  pub capabilities : List String
  pub contract_versions : Dict String String
  pub attestation_ref : String
  pub registered_at : String
  pub context : Dict String String
  pub health_status : HealthStatus

pub record RegistrationOutcome : Type 0 where
  pub accepted : Bool
  pub diagnostic : String

-- The `error` of a task's result, by its parts rather than its text.
pub data TaskError : Type 0 where
  none_registered : (action : String) → TaskError
  ambiguous : (action : String) (candidates : List (String × String)) → TaskError
  no_instance : (adapter_id : String) → TaskError
  raised : (exc : String) → TaskError
  exited : ℤ → TaskError
  skipped_because : (reason : String) → TaskError

-- `F` is the type of the findings, a JSON mapping.
pub record AdapterResult (F : Type 0) : Type 0 where
  pub findings : Option F
  pub evidence : List String
  pub exit_code : ℤ

pub record TaskResult (F : Type 0) : Type 0 where
  pub action : String
  pub adapter_id : String
  pub findings : Option F
  pub evidence : List String
  pub status : TaskStatus
  pub error : Option TaskError

-- The store of bytes that a registry is given: `put` may raise, which is `none`, and `payloads`
-- are the values under a prefix in the order of `list`.
pub record ArtifactStore (S : Type 0) : Type 0 where
  pub put : String → String → S → Option S
  pub payloads : String → S → List String
