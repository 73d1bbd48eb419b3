-- ===== src/ExecutionLedger/Groups.antt =====
-- src/execution_ledger.py: the questions about groups.
use aieos_agent_harness.Base.{String, string_eq, ◌≡◌, ◌↔◌, true, List}
use aieos_agent_harness.Base.Lists.{all, contains, all_iff}
use aieos_agent_harness.Wdd.{phases}
use aieos_agent_harness.ExecutionLedger.{ExecutionLedger, is_group_complete, is_item_phase_complete}

-- A group is complete exactly when each of its items has passed each of the four phases.
pub is_group_complete_iff :
    (l : ExecutionLedger) (items : List String)
    → (is_group_complete l items ≡ true) ↔ (
        (item : String)
        → contains items item ≡ true
        → (phase : String) → contains phases phase ≡ true
        → is_item_phase_complete l item phase ≡ true)
unfolding is_group_complete
is_group_complete_iff l items = (
  λ h item m phase n.
      (all_iff (is_item_phase_complete l item) phases).0
        ((all_iff (λ i. all (is_item_phase_complete l i) phases) items).0 h item m) phase n,
  λ h.
      (all_iff (λ i. all (is_item_phase_complete l i) phases) items).1
        (λ item m. (all_iff (is_item_phase_complete l item) phases).1 (h item m)),
)
