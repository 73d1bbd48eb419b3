-- ===== src/ExecutionLedger/Replay.antt =====
-- src/execution_ledger.py: the ledger as the history of its records. What it says of a phase is
-- what the last record of that phase says.
use aieos_agent_harness.Base.{
  ℕ, String, string_eq, ◌≡◌, refl, Bool, true, false, ◌&&◌, Option, none, some, List, [], ◌∷◌, ◌==◌,
  if◌then◌else◌, arith,
}
use aieos_agent_harness.ExecutionLedger.{
  ExecutionLedger, GroupGateResult, record_phase_start, record_phase_complete, record_phase_failed,
  record_group_gate, is_item_phase_complete, status_of, passed, status_of-put, completed_status,
  failed_status, started_status, ItemPhaseStatus, put,
}

-- A call of one of the four methods that write, with the time at which it came.
pub data Event : Type 0 where
  started : (item phase agent now : String) → Event
  completed : (item phase path validation : String) → ℕ → (now : String) → Event
  failed : (item phase error now : String) → Event
  gate : GroupGateResult → Event

unfoldable pub apply : Event → ExecutionLedger → ExecutionLedger
apply (started i p agent now) l = record_phase_start i p agent now l
apply (completed i p path v n now) l = record_phase_complete i p path v n now l
apply (failed i p error now) l = record_phase_failed i p error now l
apply (gate r) l = record_group_gate r l

unfoldable pub replay : List Event → ExecutionLedger → ExecutionLedger
replay [] l = l
replay (e ∷ es) l = replay es (apply e l)

-- The specification: whether item `i` has passed phase `p` after one event, and after a history.
unfoldable pub after_event : String → String → Event → Bool → Bool
after_event i p (started j q _ _) before = if (i == j) && (p == q) then false else before
after_event i p (completed j q _ _ _ _) before = if (i == j) && (p == q) then true else before
after_event i p (failed j q _ _) before = if (i == j) && (p == q) then false else before
after_event i p (gate _) before = before

unfoldable pub after_events : String → String → List Event → Bool → Bool
after_events i p [] before = before
after_events i p (e ∷ es) before = after_events i p es (after_event i p e before)

passed-ne : ◌==◌ {A = String} "running" "passed" ≡ false
unfolding string_eq
passed-ne = refl

failed-ne : ◌==◌ {A = String} "failed" "passed" ≡ false
unfolding string_eq
failed-ne = refl

passed-eq : ◌==◌ {A = String} "passed" "passed" ≡ true
unfolding string_eq
passed-eq = refl

passed-started : (i p agent now : String) → passed (some (started_status i p agent now)) ≡ false
unfolding passed started_status
passed-started i p agent now = passed-ne

passed-failed :
    (i p error now : String) (o : Option ItemPhaseStatus)
    → passed (some (failed_status i p error now o)) ≡ false
unfolding passed failed_status
passed-failed i p error now none = failed-ne
passed-failed i p error now (some s) = failed-ne

passed-completed :
    (i p path v : String) (n : ℕ) (now : String) (o : Option ItemPhaseStatus)
    → passed (some (completed_status i p path v n now o)) ≡ true
unfolding passed completed_status
passed-completed i p path v n now none = passed-eq
passed-completed i p path v n now (some s) = passed-eq

-- What one write does to the test.
complete-put :
    (i p j q : String) (s : ItemPhaseStatus) (l : ExecutionLedger)
    → is_item_phase_complete (put i p s l) j q
      ≡ (if (j == i) && (q == p) then passed (some s) else is_item_phase_complete l j q)
unfolding is_item_phase_complete
complete-put i p j q s l = ground (arith, status_of-put i p j q s l)

pub is_item_phase_complete-apply :
    (i p : String) (e : Event) (l : ExecutionLedger)
    → is_item_phase_complete (apply e l) i p ≡ after_event i p e (is_item_phase_complete l i p)
unfolding apply after_event record_phase_start record_phase_complete record_phase_failed
is_item_phase_complete-apply i p (started j q agent now) l =
    ground
      (arith, complete-put j q i p (started_status j q agent now) l, passed-started j q agent now)
is_item_phase_complete-apply i p (completed j q path v n now) l =
    let s = completed_status j q path v n now (status_of l j q) in
    ground (arith, complete-put j q i p s l, passed-completed j q path v n now (status_of l j q))
is_item_phase_complete-apply i p (failed j q error now) l =
    let s = failed_status j q error now (status_of l j q) in
    ground (arith, complete-put j q i p s l, passed-failed j q error now (status_of l j q))
is_item_phase_complete-apply i p (gate r) l =
    unfold record_group_gate is_item_phase_complete status_of in refl

-- After any history of records, `is_item_phase_complete` answers as the last record of that item
-- and phase: true after a completion, false after a start or a failure; with no such record, as
-- before. No other item, phase or group gate has any effect.
pub is_item_phase_complete-replay :
    (i p : String) (es : List Event) (l : ExecutionLedger)
    → is_item_phase_complete (replay es l) i p ≡ after_events i p es (is_item_phase_complete l i p)
unfolding replay after_events
is_item_phase_complete-replay i p [] l = refl
is_item_phase_complete-replay i p (e ∷ es) l =
    rw (is_item_phase_complete-replay i p es (apply e l), is_item_phase_complete-apply i p e l) refl

-- A phase that is started and then completed has passed; the others are as before.
pub complete_after_start :
    (i p agent now path v : String) (n : ℕ) (later : String) (l : ExecutionLedger) (j q : String)
    → is_item_phase_complete
        (record_phase_complete i p path v n later (record_phase_start i p agent now l))
        j
        q
      ≡ (if (j == i) && (q == p) then true else is_item_phase_complete l j q)
complete_after_start i p agent now path v n later l j q =
    let both =
      is_item_phase_complete-replay j q (started i p agent now ∷ completed i p path v n later ∷ [])
        l in
    unfold replay apply after_events after_event in ground (arith, both)
