-- ===== src/Pipelines/Verdicts.antt =====
-- src/pipelines.py: what the status of an ORD verification says, and the size of a metrics summary.
use mathlib.Core.Path.{subst}
use text.Mathlib.TextEquality.{eq_iff}
use aieos_agent_harness.Base.{
  ℕ, zero, suc, ◌-◌, ◌≤◌, ◌<◌, String, string_eq, ◌≡◌, ◌≢◌, ◌↔◌, ◌⊎◌, refl, sym, ap, ◌∙◌, inl, inr,
  Bool, true, false, Bool-cases, Option-cases, none, some, List, [], ◌∷◌, ◌++◌, ◌==◌, if◌then◌else◌,
  arith,
}
use aieos_agent_harness.Base.Lists.{all, length, count_if-le, List-cases}
use aieos_agent_harness.Base.Integer.{ℤ, pos, negsuc}
use aieos_agent_harness.Base.Search.{split_on}
use aieos_agent_harness.Adapter.{ok, Adapter, Outcome-cases}
use aieos_agent_harness.Cicd.Agents.{is_zero}
use aieos_agent_harness.State.Cells.{strip}
use aieos_agent_harness.Pipelines.{
  Shell, Ran, finished, timed_out, raised, finished_check, failed_check, ord_check, run_commands,
  passed, OrdVerification, Command, configured, ord_commands, ord_result, ord_request, verify,
  PipelineResult,
}
use aieos_agent_harness.Pipelines.Health.{
  Metrics, Summary, LogEntry, drop, recent, decode, has_failed, summarize, read_metrics,
}

-- A command that came to an end with exit code 0.
abbrev pub Succeeded : Ran → Type 0
Succeeded (finished code out e) = code ≡ pos 0
Succeeded (timed_out exc) = ⊥
Succeeded (raised exc) = ⊥

-- Each of some commands, run one after the other from a world on, succeeds.
abbrev pub AllSucceed : {W : Type 0} → Shell W → List (String × String) → W → Type 0
AllSucceed shell [] w = Unit
AllSucceed shell ((check, command) ∷ rest) w =
    Succeeded (shell command w).0 × AllSucceed shell rest (shell command w).1

is_zero_iff : (n : ℤ) → (is_zero n ≡ true) ↔ (n ≡ pos 0)
unfolding is_zero
is_zero_iff (pos zero) = (λ _. refl, λ _. refl)
is_zero_iff (pos (suc n)) = (λ e. absurd (cc), λ e. absurd (ground arith))
is_zero_iff (negsuc n) = (λ e. absurd (cc), λ e. absurd (ground arith))

ord_check-passed :
    (check command : String) (ran : Ran)
    → (passed (ord_check check command ran) ≡ true) ↔ Succeeded ran
unfolding passed ord_check finished_check failed_check
ord_check-passed check command (finished code out e) = is_zero_iff code
ord_check-passed check command (timed_out exc) = (λ e. unfold is_zero in cc, λ h. absurd h)
ord_check-passed check command (raised exc) = (λ e. unfold is_zero in cc, λ h. absurd h)

run_commands-passed :
    {W : Type 0} (shell : Shell W) (commands : List (String × String)) (w : W)
    → (all passed (run_commands shell ord_check commands w).0 ≡ true) ↔ AllSucceed shell commands w
unfolding run_commands all
run_commands-passed shell [] w = (λ _. tt, λ _. refl)
run_commands-passed shell ((check, command) ∷ rest) w =
    let ran = (shell command w).0 in
    let (to, from) = ord_check-passed check command ran in
    let (down, up) = run_commands-passed shell rest (shell command w).1 in
    elim (Bool-cases (passed (ord_check check command ran))) [
      | inl e ↦ rw e (λ h. (to e, down h), λ h. up h.1)
      | inr e ↦ rw e (λ h. absurd (cc), λ h. absurd (let k = from h.0 in cc))
    ]

apart : ◌≢◌ {A = Bool} true false
apart e = cc

words : ◌≢◌ {A = String} "pass" "fail"
words e = apart (sym ((eq_iff "pass" "fail").1 e))

-- A command, where it is configured.
abbrev pub given : String → Command → List (String × String)
given check none = []
given check (some command) = if command == "" then [] else (check, command) ∷ []

ord_commands_lem :
    (p : OrdVerification)
    → ord_commands p
      ≡ ("test_suite", p.test_cmd) ∷ given "build" p.build_cmd ++ given "lint" p.lint_cmd
unfolding ord_commands configured
ord_commands_lem p = ground arith

-- An ORD verification that returns has the status "pass" exactly when the tests, and the build and the
-- lint where they are configured, each end with exit code 0, run in this order; otherwise its
-- status is "fail". What the model answers has no part in it.
pub verify-pass_iff :
    {W : Type 0} (shell : Shell W) (ai : Adapter W) (p : OrdVerification) (ord_content : String)
    (r : PipelineResult) (w w' : W)
    → verify shell ai p ord_content w ≡ (ok r, w')
    → ((r.status ≡ "pass")
        ↔ AllSucceed shell
            (("test_suite", p.test_cmd) ∷ given "build" p.build_cmd ++ given "lint" p.lint_cmd)
            w)
      × ((r.status ≡ "pass") ⊎ (r.status ≡ "fail"))
unfolding verify ord_result
verify-pass_iff shell ai p ord_content r w w' h =
    let ran = run_commands shell ord_check (ord_commands p) w in
    let all_passed : (all passed ran.0 ≡ true)
        ↔ AllSucceed shell
            (("test_suite", p.test_cmd) ∷ given "build" p.build_cmd ++ given "lint" p.lint_cmd) w =
      subst (λ l. (all passed ran.0 ≡ true) ↔ AllSucceed shell l w) (ord_commands_lem p)
        (run_commands-passed shell (ord_commands p) w) in
    let (to, from) = all_passed in
    elim (Outcome-cases (ai.invoke (ord_request ran.0 ord_content) ran.1).0) [
      | inr (e, q) ↦ absurd (ground arith)
      | inl (response, q) ↦
          let status : r.status ≡ (if all passed ran.0 then "pass" else "fail") = ground arith in
          elim (Bool-cases (all passed ran.0)) [
            | inl a ↦
                let pass : r.status ≡ "pass" = rw a at status in ((λ _. to a, λ _. pass), inl pass)
            | inr a ↦
                let fail : r.status ≡ "fail" = rw a at status in
                (
                  (λ e. absurd (words (sym e ∙ fail)), λ s. absurd (apart (sym (from s) ∙ a))),
                  inr fail,
                )
          ]
    ]

length-drop : {A : Type 0} (n : ℕ) (xs : List A) → length (drop n xs) ≡ length xs - n
unfolding drop
length-drop zero xs = omega arith
length-drop (suc n) [] = omega arith
length-drop (suc n) (x ∷ xs) = let k = length-drop n xs in omega (arith, k)

length-decode :
    (m : Metrics) (lines : List String) (es : List LogEntry)
    → decode m lines ≡ some es
    → length es ≤ length lines
unfolding decode
length-decode m [] es h = ground arith
length-decode m (line ∷ lines) es h = elim (Option-cases (decode m lines)) [
  | inl e ↦ absurd (ground arith)
  | inr (rest, e) ↦ let k = length-decode m lines rest e in ground (arith, e, k, h)
]

-- What a metrics summary can be: of a log that is not there, of one without entries, or of its last
-- entries.
pub data IsSummary (m : Metrics) : String → Type 0 where
  absent : {t : String} → t ≡ "{\"error\": \"metrics file not found\"}" → IsSummary m t
  empty : {t : String} → t ≡ "{\"entries\": 0}" → IsSummary m t
  of_entries :
      {t : String} (s : Summary)
      → t ≡ m.dumps s
      → 0 < s.entries
      → s.entries ≤ 100
      → s.failure_count ≤ s.entries
      → IsSummary m t

-- A metrics summary is of one to a hundred entries where there is any, however long the log, and counts
-- no more failures than entries; a log that is not there and one without entries have their own texts.
pub read_metrics-IsSummary :
    (m : Metrics) (path t : String) → read_metrics m path ≡ some t → IsSummary m t
unfolding read_metrics recent
read_metrics-IsSummary m path t h = elim (Option-cases (m.read path)) [
  | inl e ↦ absent (ground arith)
  | inr (text, e) ↦
      let lines = split_on 10 (strip text) in
      elim (Option-cases (decode m (drop (length lines - 100) lines))) [
        | inl d ↦ absurd (ground arith)
        | inr (es, d) ↦ elim (List-cases es) [
          | inl n ↦ empty (ground arith)
          | inr (first, rest, n) ↦
              let few = length-decode m (drop (length lines - 100) lines) es d in
              let most = length-drop (length lines - 100) lines in
              let failures = count_if-le has_failed (first ∷ rest) in
              let size = ap length n in
              of_entries (summarize first rest) (ground arith) (unfold summarize in omega arith)
                (unfold summarize in omega (arith, few, most, size))
                (unfold summarize in omega (arith, failures))
        ]
      ]
]
