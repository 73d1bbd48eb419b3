-- ===== src/ExecutionLedger/Tests.antt =====
-- The theorems about the ledger at a history of four records.
use text.Mathlib.TextEquality.{eq_iff}
use aieos_agent_harness.Base.{
  String, string_eq, decimal, ◌≡◌, refl, List, [], ◌∷◌, map, leb, ◌&&◌, ◌||◌, ◌==◌, true, some,
  none, if◌then◌else◌,
}
use aieos_agent_harness.Base.Integer.{pos}
use aieos_agent_harness.Base.Search.{occurs_in, starts_with}
use aieos_agent_harness.State.Cells.{is_space}
use aieos_agent_harness.State.Values.{is_value, is_inner}
use aieos_agent_harness.State.Record.{join}
use aieos_agent_harness.ExecutionLedger.{ItemPhaseStatus, GroupGateResult}
use aieos_agent_harness.ExecutionLedger.File.{
  phase_row, gate_row, or_dash, escape_bars, is_header, load_line, load_from, phase_table,
  gate_table,
}
use aieos_agent_harness.ExecutionLedger.Patterns.{Reading, is_text}
use aieos_agent_harness.ExecutionLedger.Rows.{is_all}
use aieos_agent_harness.ExecutionLedger.Saved.{IsSaved}
use aieos_agent_harness.ExecutionLedger.Reload.{
  IsRow, put_all, load_from-phase_rows, load_line-gate_row,
}
use aieos_agent_harness.ExecutionLedger.{ExecutionLedger, is_item_phase_complete}
use aieos_agent_harness.ExecutionLedger.Replay.{
  Event, started, completed, failed, replay, after_events, is_item_phase_complete-replay,
}

abbrev blank : ExecutionLedger
blank = record { phases = []; gates = [] }

-- The tests pass, the code fails, and the tests start again.
abbrev history : List Event
history =
    started "A" "tests" "claude" "t0"
    ∷ completed "A" "tests" "a.md" "PASS" 2 "t1"
    ∷ failed "A" "code" "boom" "t2"
    ∷ started "A" "tests" "claude" "t3"
    ∷ []

is_item_phase_complete-replay_example :
    is_item_phase_complete (replay history blank) "A" "tests"
    ≡ after_events "A" "tests" history (is_item_phase_complete blank "A" "tests")
is_item_phase_complete-replay_example = is_item_phase_complete-replay "A" "tests" history blank

abbrev reading : Reading
reading = record {
  is_word = λ c. (leb 65 c && leb c 90) || (leb 97 c && leb c 122);
  is_digit = λ c. leb 48 c && leb c 57;
  int = λ s. if s == "2" then 2 else 0;
}

abbrev done : ItemPhaseStatus
done = record {
  item_id = "WDD-1";
  phase = "tests";
  status = "passed";
  agent_id = some "claude";
  started = some "t0";
  completed = some "t1";
  output_path = some "out/a b.md";
  validation_status = none;
  convergence_iterations = 2;
}

done_row : phase_row done ≡ "| WDD-1 | tests | passed | claude | - | 2 | out/a b.md |"
unfolding phase_row join or_dash escape_bars string_eq decimal
done_row = refl

done-IsSaved : IsSaved reading done
done-IsSaved =
    let differs = λ (s t : String) (e : s ≡ t). (eq_iff s t).1 e in
    record {
      spaces_apart = (refl, refl);
      id_is_word =
          (λ e. let k = differs "WDD-1" "" e in cc, unfold is_all is_text is_space in refl);
      phase_is_word = (
        λ e. let k = differs "tests" "" e in cc,
        unfold is_all in refl,
        unfold is_all is_text is_space in refl,
      );
      status_is_word = (
        λ e. let k = differs "passed" "" e in cc,
        unfold is_all in refl,
        unfold is_all is_text is_space in refl,
      );
      number_reads = (
        λ e. let k = differs "2" "" (unfold decimal in e) in cc,
        unfold is_all decimal in refl,
        unfold is_all is_text is_space decimal in refl,
        unfold decimal string_eq in refl,
      );
      agent_kept = (
        λ e. let k = differs "claude" "" e in cc,
        λ e. let k = differs "claude" "-" e in cc,
        unfold is_value is_inner is_space in refl,
      );
      validation_kept = tt;
      output_kept = (
        λ e. let k = differs "out/a b.md" "" e in cc,
        λ e. let k = differs "out/a b.md" "-" e in cc,
        unfold is_value is_inner is_space in refl,
      );
    }

done-IsRow : IsRow (phase_row done)
unfolding is_header occurs_in starts_with string_eq
done-IsRow = rw done_row (refl, refl, refl)

load_from-phase_rows_example :
    load_from reading (map phase_row (done ∷ [])) (phase_table, blank)
    ≡ (phase_table, put_all (done ∷ []) blank)
load_from-phase_rows_example =
    load_from-phase_rows reading (done ∷ []) blank (done-IsSaved, tt) (done-IsRow, tt)

abbrev gate : GroupGateResult
gate = record {
  group_name = "Group A";
  status = "passed";
  tests_before = 1;
  tests_after = 3;
  tests_delta = pos 2;
  lint_clean = true;
  items_completed = 4;
  items_total = 4;
  gate_file_path = "";
}

load_line-gate_row_example : (load_line reading (gate_row gate) (gate_table, blank)).1 ≡ blank
load_line-gate_row_example = load_line-gate_row reading gate " A" gate_table blank refl
