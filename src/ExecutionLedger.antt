-- ===== src/ExecutionLedger.antt =====
-- src/execution_ledger.py: `ExecutionLedger`, the status of each item's phases and of the groups'
-- gates. The time is an argument, what the clock reads; the Markdown file is in File.
pub mod Replay
pub mod Groups
pub mod Patterns
pub mod File
pub mod Rows
pub mod Saved
pub mod Reload
mod Tests
use aieos_agent_harness.Base.{
  ℕ, String, ◌<>◌, string_eq, ◌≡◌, Bool, true, false, ◌&&◌, Option, none, some, List, [], ◌∷◌, ◌==◌,
  if◌then◌else◌, Option-cases, Bool-cases, inl, inr, arith,
}
use aieos_agent_harness.Base.Dict
use aieos_agent_harness.Base.Integer.{ℤ}
use aieos_agent_harness.Base.Dict.{Dict}
use aieos_agent_harness.Base.Lists.{all}
use aieos_agent_harness.Wdd.{phases}

pub record ItemPhaseStatus : Type 0 where
  pub item_id : String
  pub phase : String
  pub status : String
  pub agent_id : Option String
  pub started : Option String
  pub completed : Option String
  pub output_path : Option String
  pub validation_status : Option String
  pub convergence_iterations : ℕ

pub record GroupGateResult : Type 0 where
  pub group_name : String
  pub status : String
  pub tests_before : ℕ
  pub tests_after : ℕ
  pub tests_delta : ℤ
  pub lint_clean : Bool
  pub items_completed : ℕ
  pub items_total : ℕ
  pub gate_file_path : String

pub record ExecutionLedger : Type 0 where
  pub phases : Dict String (Dict String ItemPhaseStatus)
  pub gates : Dict String GroupGateResult

-- `self._phases.get(item_id, {}).get(phase)`
unfoldable pub status_of : ExecutionLedger → String → String → Option ItemPhaseStatus
status_of l item phase = Dict.get (Dict.get_or l.phases item []) phase

-- `self._phases.setdefault(item_id, {})[phase] = s`
unfoldable pub put : String → String → ItemPhaseStatus → ExecutionLedger → ExecutionLedger
put item phase s l = record l {
  phases = Dict.insert item (Dict.insert phase s (Dict.get_or l.phases item [])) l.phases;
}

unfoldable pub started_status : String → String → (agent now : String) → ItemPhaseStatus
started_status item phase agent now = record {
  item_id = item;
  phase = phase;
  status = "running";
  agent_id = some agent;
  started = some now;
  completed = none;
  output_path = none;
  validation_status = none;
  convergence_iterations = 0;
}

unfoldable pub record_phase_start :
    String → String → (agent now : String) → ExecutionLedger → ExecutionLedger
record_phase_start item phase agent now l = put item phase (started_status item phase agent now) l

-- The status after a completion: the one that is there, changed in place, or a new one.
unfoldable pub completed_status :
    String
    → String
    → (path validation : String) → ℕ
    → (now : String) → Option ItemPhaseStatus
    → ItemPhaseStatus
completed_status item phase path validation iterations now (some s) = record s {
  status = "passed";
  completed = some now;
  output_path = some path;
  validation_status = some validation;
  convergence_iterations = iterations;
}
completed_status item phase path validation iterations now none = record {
  item_id = item;
  phase = phase;
  status = "passed";
  agent_id = none;
  started = none;
  completed = some now;
  output_path = some path;
  validation_status = some validation;
  convergence_iterations = iterations;
}

unfoldable pub record_phase_complete :
    String
    → String
    → (path validation : String) → ℕ
    → (now : String) → ExecutionLedger
    → ExecutionLedger
record_phase_complete item phase path validation iterations now l =
    put item phase
      (completed_status item phase path validation iterations now (status_of l item phase)) l

unfoldable pub failed_status :
    String → String → (error now : String) → Option ItemPhaseStatus → ItemPhaseStatus
failed_status item phase error now (some s) = record s {
  status = "failed";
  completed = some now;
  validation_status = some ("FAIL: " <> error);
}
failed_status item phase error now none = record {
  item_id = item;
  phase = phase;
  status = "failed";
  agent_id = none;
  started = none;
  completed = some now;
  output_path = none;
  validation_status = some ("FAIL: " <> error);
  convergence_iterations = 0;
}

unfoldable pub record_phase_failed :
    String → String → (error now : String) → ExecutionLedger → ExecutionLedger
record_phase_failed item phase error now l =
    put item phase (failed_status item phase error now (status_of l item phase)) l

unfoldable pub record_group_gate : GroupGateResult → ExecutionLedger → ExecutionLedger
record_group_gate result l = record l { gates = Dict.insert result.group_name result l.gates }

unfoldable pub get_item_status : ExecutionLedger → String → Dict String ItemPhaseStatus
get_item_status l item = Dict.get_or l.phases item []

unfoldable pub get_group_status : ExecutionLedger → String → Option GroupGateResult
get_group_status l group = Dict.get l.gates group

unfoldable pub passed : Option ItemPhaseStatus → Bool
passed none = false
passed (some s) = s.status == "passed"

unfoldable pub is_item_phase_complete : ExecutionLedger → String → String → Bool
is_item_phase_complete l item phase = passed (status_of l item phase)

-- The two nested loops with their early `return False`.
unfoldable pub is_group_complete : ExecutionLedger → List String → Bool
is_group_complete l items = all (λ item. all (is_item_phase_complete l item) phases) items

unfoldable pub all_groups_complete : ExecutionLedger → List String → Bool
all_groups_complete l =
    all (λ g. elim (Dict.get l.gates g) [ none ↦ false | some r ↦ r.status == "passed" ])

-- `put` changes one phase of one item, and no other.
pub status_of-put :
    (i p j q : String) (s : ItemPhaseStatus) (l : ExecutionLedger)
    → status_of (put i p s l) j q ≡ (if (j == i) && (q == p) then some s else status_of l j q)
unfolding status_of put
status_of-put i p j q s l =
    let inner = Dict.insert p s (Dict.get_or l.phases i []) in
    ground (
      arith,
      Dict.get_or-insert j i inner [] l.phases,
      Dict.get-insert q p s (Dict.get_or l.phases i []),
    )
