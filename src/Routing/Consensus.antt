-- ===== src/Routing/Consensus.antt =====
-- src/routing.py: what `_parallel_consensus` returns.
use aieos_agent_harness.Base.{
  ℕ, ◌+◌, ◌*◌, ◌≤◌, String, ◌≡◌, refl, ◌↔◌, sym, inl, inr, Bool, true, List, [], ◌∷◌, map, leb,
  if◌then◌else◌, arith,
}
use aieos_agent_harness.Base.Lists.{List-cases, All, length, count_if, count_if-le}
use aieos_agent_harness.Models.{AgentResponse}
use aieos_agent_harness.Adapter.{Outcome, ok, err}
use aieos_agent_harness.Routing.{
  all_failed, disagreement, count_agreeing, responses_of, errors_of, run_consensus,
}

count-All : (p : ℕ → Bool) (ns : List ℕ) → All (λ n. p n ≡ true) ns → count_if p ns ≡ length ns
unfolding count_if
count-All p [] h = refl
count-All p (n ∷ ns) h = ground (arith, h.0, count-All p ns h.1)

responses-errors :
    (cs : List (String × Outcome String AgentResponse))
    → length (responses_of cs) + length (errors_of cs) ≡ length cs
unfolding responses_of errors_of
responses-errors [] = refl
responses-errors ((p, ok r) ∷ cs) = omega (arith, responses-errors cs)
responses-errors ((p, err e) ∷ cs) = omega (arith, responses-errors cs)

-- No more responses agree than there are.
count_agreeing-le : (ns : List ℕ) → count_agreeing ns ≤ length ns
unfolding count_agreeing
count_agreeing-le [] = omega arith
count_agreeing-le (n ∷ []) = omega arith
count_agreeing-le (n ∷ k ∷ ns) = count_if-le _ (n ∷ k ∷ ns)

-- The first response in the order of completion.
pub data IsFirst (r : AgentResponse) : List (String × Outcome String AgentResponse) → Type 0 where
  here :
      (p : String) (cs : List (String × Outcome String AgentResponse)) → IsFirst r ((p, ok r) ∷ cs)
  behind :
      (p e : String) (cs : List (String × Outcome String AgentResponse))
      → IsFirst r cs
      → IsFirst r ((p, err e) ∷ cs)

IsFirst-of :
    (cs : List (String × Outcome String AgentResponse)) (r : AgentResponse)
    (rs : List AgentResponse)
    → responses_of cs ≡ r ∷ rs
    → IsFirst r cs
unfolding responses_of
IsFirst-of [] r rs h = absurd (ground arith)
IsFirst-of ((p, ok q) ∷ cs) r rs h = let e : q ≡ r = ground arith in rw e (here p cs)
IsFirst-of ((p, err e) ∷ cs) r rs h = behind p e cs (IsFirst-of cs r rs h)

-- The quorum: the share of the adapters, the failed ones included, whose responses agree.
abbrev pub Quorum : (String → ℕ) → ℕ → List (String × Outcome String AgentResponse) → Type 0
Quorum len_of threshold cs =
    threshold * length cs ≤ count_agreeing (map (λ x. len_of x.content) (responses_of cs)) * 100

no-IsFirst : (r : AgentResponse) → ¬ IsFirst r []
no-IsFirst r h = elim h [ ]

responses-first :
    (r : AgentResponse) (cs : List (String × Outcome String AgentResponse))
    → IsFirst r cs
    → (rs : List AgentResponse) × (responses_of cs ≡ r ∷ rs)
unfolding responses_of
responses-first r _ (here p cs) = (responses_of cs, refl)
responses-first r _ (behind p e cs h) = responses-first r cs h

all_down :
    (len_of : String → ℕ) (threshold : ℕ) (c : String × Outcome String AgentResponse)
    (cs : List (String × Outcome String AgentResponse))
    → responses_of (c ∷ cs) ≡ []
    → run_consensus len_of threshold (c ∷ cs) ≡ err (all_failed (errors_of (c ∷ cs)))
unfolding run_consensus
all_down len_of threshold c cs e = rw (e, run_consensus) refl

-- The consensus once a response is there, with the quorum as its test.
some_up :
    (len_of : String → ℕ) (threshold : ℕ) (c : String × Outcome String AgentResponse)
    (cs : List (String × Outcome String AgentResponse)) (q : AgentResponse)
    (rs : List AgentResponse)
    → responses_of (c ∷ cs) ≡ q ∷ rs
    → let agreed = count_agreeing (map (λ x. len_of x.content) (responses_of (c ∷ cs))) in
      run_consensus len_of threshold (c ∷ cs) ≡ (
        if leb (threshold * length (c ∷ cs)) (agreed * 100)
        then ok q
        else err (disagreement agreed (length (c ∷ cs)) threshold (errors_of (c ∷ cs))))
unfolding run_consensus
some_up len_of threshold c cs q rs e = rw (sym (responses-errors (c ∷ cs)), e, run_consensus) refl

-- The consensus returns a response exactly when some adapter answered and the quorum is there, and
-- then the response is the first to complete, whatever its length.
pub run_consensus_iff :
    (len_of : String → ℕ) (threshold : ℕ) (cs : List (String × Outcome String AgentResponse))
    (r : AgentResponse)
    → (run_consensus len_of threshold cs ≡ ok r) ↔ (IsFirst r cs × Quorum len_of threshold cs)
run_consensus_iff len_of threshold [] r =
    (λ h. absurd (unfold run_consensus in ground arith), λ h. absurd (no-IsFirst r h.0))
run_consensus_iff len_of threshold (c ∷ cs) r = (
  λ h. elim (List-cases (responses_of (c ∷ cs))) [
    | inl e ↦ absurd (ground (arith, all_down len_of threshold c cs e))
    | inr (q, rs, e) ↦
        let same : q ≡ r = ground (arith, some_up len_of threshold c cs q rs e) in
        (
          IsFirst-of (c ∷ cs) r rs (ground arith),
          ground (arith, some_up len_of threshold c cs q rs e),
        )
  ],
  λ h.
      let (rs, e) = responses-first r (c ∷ cs) h.0 in
      ground (arith, some_up len_of threshold c cs r rs e),
)
