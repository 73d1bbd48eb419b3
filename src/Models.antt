-- ===== src/Models.antt =====
-- src/models.py: the enums and dataclasses that the components share. Floats are scaled integers:
-- a temperature in hundredths, a cost in millionths of a dollar, a latency in microseconds.
use aieos_agent_harness.Base.{ℕ, String, Bool, Option, List, Eq}
use aieos_agent_harness.Base.Dict.{Dict}

pub data ArtifactStatus : Type 0 where
  draft validated freeze_pending frozen halted faulted : ArtifactStatus

pub data LifecycleEvent : Type 0 where
  pre_generation post_generation pre_validation post_validation post_freeze on_failure :
      LifecycleEvent

pub data RoutingStrategy : Type 0 where
  parallel_consensus pipeline fallback cost_aware : RoutingStrategy

pub data AgentSpecies : Type 0 where
  coding_harness dark_factory orchestration auto_research : AgentSpecies

pub data HealthStatus : Type 0 where
  up degraded down : HealthStatus

pub data DecisionOutcome : Type 0 where
  approve approve_with_conditions block remediate_and_retry require_redesign rollback :
      DecisionOutcome

pub event_discrete : Discrete LifecycleEvent
event_discrete = hlevel

pub status_discrete : Discrete ArtifactStatus
status_discrete = hlevel

instance abbrev pub event_eq : Eq LifecycleEvent
event_eq = record { dec = event_discrete }

instance abbrev pub status_eq : Eq ArtifactStatus
status_eq = record { dec = status_discrete }

-- One entry of `blocking_issues` or `warnings`, a dict from the validator's JSON.
abbrev pub Issue : Type 0
Issue = Dict String String

pub record AgentRequest : Type 0 where
  pub artifact_type : String
  pub event : LifecycleEvent
  pub spec_content : String
  pub template_content : String
  pub prompt_content : String
  pub upstream_artifacts : Dict String String
  pub current_artifact : Option String
  pub correction_constraints : List String
  pub metadata : Dict String String
  pub declared_inputs : Dict String String
  pub temperature : Option ℕ

-- `raw_response` and the provenance fields are written by the adapters and read by none of the
-- modelled components.
pub record AgentResponse : Type 0 where
  pub content : String
  pub provider : String
  pub model : String
  pub tokens_in : ℕ
  pub tokens_out : ℕ
  pub cost_usd : ℕ
  pub latency_ms : ℕ
  pub truncated : Option Bool

pub record ValidationResult : Type 0 where
  pub status : String
  pub summary : String
  pub hard_gates : Dict String String
  pub blocking_issues : List Issue
  pub warnings : List Issue
  pub completeness_score : ℕ

pub record InvariantCheck : Type 0 where
  pub name : String
  pub passed : Bool
  pub reason : String

pub data LifecycleResult : Type 0 where
  converged escalation_needed already_frozen : LifecycleResult

pub record FreezeGateDecision : Type 0 where
  pub artifact_id : String
  pub outcome : DecisionOutcome
  pub content_hash : String
  pub decided_by : String
  pub auto_freeze_attempted : Bool
  pub conditions : List String
  pub rationale : String
  pub owner : Option String

pub record FreezeResult : Type 0 where
  pub artifact_id : String
  pub status : ArtifactStatus
  pub path : String
  pub decided_by : String
  pub frozen_count : Option ℕ
  pub owner : Option String
