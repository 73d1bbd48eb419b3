-- ===== src/Convergence/Ledger.antt =====
-- src/convergence.py: the ledger that a run returns (FR-014): one verdict for each iteration, every
-- entry with the provenance of a judge that was asked at temperature 0.0.
use mathlib.Core.Path.{subst}
use aieos_agent_harness.Base.{
  ℕ, suc, ◌+◌, ◌≤◌, ◌<◌, String, ◌≡◌, refl, ap, Bool-cases, ◌==◌, string_eq, ltb, ◌-◌, Option, none,
  some, List, [], ◌∷◌, ◌++◌, ◌⊎◌, inl, inr, arith,
}
use aieos_agent_harness.Base.Lists.{All, All-append}
use aieos_agent_harness.Base.Dict.{Dict}
use aieos_agent_harness.Models.{AgentRequest, AgentResponse, ValidationResult}
use aieos_agent_harness.Adapter.{Outcome, ok, err, Adapter}
use aieos_agent_harness.Convergence.{
  Codec, ConvergenceLoop, Run, RunResult, Control, Reviews, review_lens, heard, run_lens_reviews,
  add_review, decide, lens_step, after_lenses, corrected, is_empty, judged, provenance_of,
  parse_validation_result, lens_request, exhausted, run, start_run, judge_request,
}
use aieos_agent_harness.Convergence.Verdict.{
  ConvergenceState, LedgerEntry, verdict, lens_verdict, Provenance,
}
use aieos_agent_harness.Convergence.Iteration.{Iterated, recorded, iterations_rule, Step}

abbrev pub provenance : LedgerEntry → Provenance
provenance (verdict _ _ p) = p
provenance (lens_verdict _ _ _ _ p) = p

-- The entries that the validator gave, lens reviews left out.
unfoldable pub verdicts : List LedgerEntry → ℕ
verdicts [] = 0
verdicts (verdict _ _ _ ∷ l) = suc (verdicts l)
verdicts (lens_verdict _ _ _ _ _ ∷ l) = verdicts l

abbrev pub IsPinned : LedgerEntry → Type 0
IsPinned e = (provenance e).temperature ≡ some 0

-- A ledger after `n` iterations.
pub record IsLedger (n : ℕ) (l : List LedgerEntry) : Type 0 where
  pub counted : verdicts l ≡ n
  pub pinned : All IsPinned l

verdicts-append : (l m : List LedgerEntry) → verdicts (l ++ m) ≡ verdicts l + verdicts m
unfolding verdicts
verdicts-append [] m = omega arith
verdicts-append (verdict _ _ _ ∷ l) m = omega (arith, verdicts-append l m)
verdicts-append (lens_verdict _ _ _ _ _ ∷ l) m = verdicts-append l m

append-IsLedger :
    {n k : ℕ} (l m : List LedgerEntry) → IsLedger n l → IsLedger k m → IsLedger (n + k) (l ++ m)
append-IsLedger l m h k = record {
  counted = omega (arith, verdicts-append l m, h.counted, k.counted);
  pinned = All-append IsPinned l m h.pinned k.pinned;
}

lens-IsLedger :
    {n : ℕ} (l : List LedgerEntry) (e : LedgerEntry)
    → IsLedger n l
    → IsLedger 0 (e ∷ [])
    → IsLedger n (l ++ e ∷ [])
lens-IsLedger l e h k = record {
  counted = omega (arith, verdicts-append l (e ∷ []), h.counted, k.counted);
  pinned = All-append IsPinned l (e ∷ []) h.pinned k.pinned;
}

module _ (codec : Codec) (name : String) (request : AgentRequest) (iteration : ℕ) where
  heard-IsLedger :
      (seen : Reviews) (answer : Outcome String AgentResponse) {n : ℕ}
      → request.temperature ≡ some 0
      → IsLedger n seen.ledger
      → IsLedger n (heard codec name request iteration seen answer).ledger
  unfolding heard
  heard-IsLedger seen (err e) t h = h
  heard-IsLedger seen (ok a) {n} t h = go (parse_validation_result codec a) refl
    where
      go :
          (o : Option ValidationResult)
          → parse_validation_result codec a ≡ o
          → IsLedger n (heard codec name request iteration seen (ok a)).ledger
      go none p = rw (p, heard) h
      go (some result) p =
          rw (p, heard)
            (unfold add_review in
              lens-IsLedger seen.ledger _ h (record {
                counted = unfold verdicts in refl;
                pinned = (unfold provenance_of in t, tt);
              }))

module _ {W : Type 0} (codec : Codec) where
  reviews-IsLedger :
      (lenses : Dict String (Adapter W)) (response : AgentResponse) (request : AgentRequest)
      (iteration : ℕ) (seen : Reviews) (w : W) {n : ℕ}
      → IsLedger n seen.ledger
      → IsLedger n (run_lens_reviews codec lenses response request iteration seen w).0.ledger
  unfolding run_lens_reviews review_lens
  reviews-IsLedger [] response request iteration seen w h = h
  reviews-IsLedger ((name, adapter) ∷ lenses) response request iteration seen w h =
      reviews-IsLedger lenses response request iteration _ _ (
        heard-IsLedger codec name (lens_request name request response) iteration seen _
          (unfold lens_request in refl) h)

module _ {W : Type 0} (codec : Codec) (loop : ConvergenceLoop W)
    (gen_request val_request : AgentRequest) where
  record IsCounted (n : ℕ) (run : Run) : Type 0 where
    now : run.state.current_iteration ≡ n
    begun : (run.last ≡ none) ⊎ (0 < n)
    ledger : IsLedger n run.state.ledger

  -- The state that a run returns.
  pub record IsAccountedState (state : ConvergenceState) : Type 0 where
    pub started : 0 < state.current_iteration
    pub bounded : state.current_iteration ≤ loop.max
    pub ledger : IsLedger state.current_iteration state.ledger

  abbrev pub IsAccounted : RunResult → Type 0
  IsAccounted r = IsAccountedState r.state

  counted-IsAccounted :
      {iteration : ℕ} (state : ConvergenceState)
      → iteration < loop.max
      → state.current_iteration ≡ iteration + 1
      → IsLedger (iteration + 1) state.ledger
      → IsAccountedState state
  counted-IsAccounted state b e l = record {
    started = omega arith;
    bounded = omega arith;
    ledger = rw e l;
  }

  after_lenses-IsCounted :
      (iteration : ℕ) (response : AgentResponse) (result : ValidationResult) (reviews : Reviews)
      (now : Run)
      → iteration < loop.max
      → now.state.current_iteration ≡ iteration + 1
      → IsLedger (iteration + 1) reviews.ledger
      → Step IsCounted IsAccounted iteration
          (after_lenses loop.max iteration gen_request response result reviews now)
  unfolding after_lenses
  after_lenses-IsCounted iteration response result reviews now b e l =
      elim (Bool-cases (is_empty reviews.issues)) [
        | inl p ↦ rw p (counted-IsAccounted _ b e l)
        | inr p ↦ rw p (elim (Bool-cases (ltb iteration (loop.max - 1))) [
          | inl q ↦ rw q (record { now = e; begun = inr (omega arith); ledger = l })
          | inr q ↦ rw q (counted-IsAccounted _ b e l)
        ])
      ]

  decide-IsCounted :
      (iteration : ℕ) (response : AgentResponse) (result : ValidationResult) (now : Run) (w : W)
      → iteration < loop.max
      → IsCounted (iteration + 1) now
      → Step IsCounted IsAccounted iteration
          (decide codec loop iteration gen_request response result now w).0
  unfolding decide lens_step corrected
  decide-IsCounted iteration response result now w b h =
      elim (Bool-cases (result.status == "PASS")) [
        | inl p ↦ rw p (elim (Bool-cases (is_empty loop.lenses)) [
          | inl e ↦ rw e (counted-IsAccounted _ b h.now h.ledger)
          | inr e ↦ rw e (
              after_lenses-IsCounted iteration response result _ now b h.now
                (reviews-IsLedger codec loop.lenses response gen_request _ _ w h.ledger))
        ])
        | inr p ↦ rw p (elim (Bool-cases (ltb iteration (loop.max - 1))) [
          | inl l ↦ rw l (record { now = h.now; begun = h.begun; ledger = h.ledger })
          | inr l ↦ rw l h
        ])
      ]

  iterate-IsCounted :
      (iteration : ℕ) (now : Run) (w w' : W) (c : Control)
      → iteration < loop.max
      → Iterated codec loop gen_request val_request iteration now w w' c
      → IsCounted iteration now
      → Step IsCounted IsAccounted iteration c
  unfolding judged provenance_of judge_request verdicts
  iterate-IsCounted iteration now w w' c b it h =
      let entry =
        verdict (iteration + 1) it.result
          (provenance_of codec (judge_request val_request it.response) it.answer) in
      let one : IsLedger 1 (entry ∷ []) = record { counted = refl; pinned = (refl, tt) } in
      let h' : IsCounted (iteration + 1) (
          recorded codec loop gen_request val_request iteration now it.response it.answer
            it.result) =
        record {
          now = refl;
          begun = inr (omega arith);
          ledger = append-IsLedger now.state.ledger (entry ∷ []) h.ledger one;
        } in
      rw (ap (λ (x : Control × W). x.0) it.decided) at
        (decide-IsCounted iteration it.response it.result _ it.after b h')

  exhausted-IsAccounted :
      (now : Run) (r : RunResult) → IsCounted loop.max now → exhausted now ≡ ok r → IsAccounted r
  unfolding exhausted
  exhausted-IsAccounted now r h e =
      let same : now.state ≡ r.state = ground arith in
      let some_ran : 0 < loop.max = ground arith in
      subst IsAccountedState same (record {
        started = omega (arith, h.now);
        bounded = omega (arith, h.now);
        ledger = rw h.now h.ledger;
      })

  -- A run that returns has done between one and `max` iterations, its ledger holds one verdict of
  -- the validator for each of them, and every ledger entry, a lens's too, names temperature 0.0.
  pub run-IsAccounted :
      (w w' : W) (r : RunResult)
      → run codec loop gen_request val_request w ≡ (ok r, w')
      → IsAccounted r
  unfolding run start_run
  run-IsAccounted w w' r =
      iterations_rule codec loop gen_request val_request IsCounted IsAccounted loop.max
        exhausted-IsAccounted iterate-IsCounted loop.max 0 _ w w' r (omega arith)
        (record {
          now = refl;
          begun = inl refl;
          ledger = record { counted = unfold verdicts in refl; pinned = tt };
        })
