-- ===== src/Routing/Costs.antt =====
-- src/routing.py: the order in which `_cost_aware` tries the adapters.
use aieos_agent_harness.Base.{
  ℕ, ◌≤◌, ◌≡◌, refl, sym, ◌∙◌, inl, inr, Bool, true, not, Bool-cases, Option, none, some, List, [],
  ◌∷◌, map, leb, ltb, arith,
}
use aieos_agent_harness.Base.Lists.{All, count_if, keep}
use aieos_agent_harness.Models.{AgentRequest}
use aieos_agent_harness.Adapter.{Adapter}
use aieos_agent_harness.Routing.{
  CircuitBreaker, costed, insert_by, sort_by, by_cost, run_cost_aware,
}
use aieos_agent_harness.Routing.Chain.{Routed, attempts-Routed}

module _ {A : Type 0} (key : A → ℕ) where
  abbrev pub Ascending : List A → Type 0
  Ascending [] = Unit
  Ascending (x ∷ xs) = All (λ y. key x ≤ key y) xs × Ascending xs

  insert_by-All :
      (P : A → Type 0) (x : A) (ys : List A) → P x → All P ys → All P (insert_by key x ys)
  unfolding insert_by
  insert_by-All P x [] px h = (px, tt)
  insert_by-All P x (y ∷ ys) px h = elim (Bool-cases (leb (key x) (key y))) [
    | inl e ↦ rw (e, insert_by) (px, h)
    | inr e ↦ rw (e, insert_by) (h.0, insert_by-All P x ys px h.1)
  ]

  All-weaken : (m n : ℕ) → m ≤ n → (ys : List A) → All (λ y. n ≤ key y) ys → All (λ y. m ≤ key y) ys
  All-weaken m n le [] h = tt
  All-weaken m n le (y ∷ ys) h = (omega (arith, h.0), All-weaken m n le ys h.1)

  insert_by-Ascending : (x : A) (ys : List A) → Ascending ys → Ascending (insert_by key x ys)
  unfolding insert_by
  insert_by-Ascending x [] h = (tt, tt)
  insert_by-Ascending x (y ∷ ys) h = elim (Bool-cases (leb (key x) (key y))) [
    | inl e ↦
        rw (e, insert_by) ((ground arith, All-weaken (key x) (key y) (ground arith) ys h.0), h)
    | inr e ↦
        rw (e, insert_by)
          (insert_by-All (λ z. key y ≤ key z) x ys (ground arith) h.0, insert_by-Ascending x ys h.1)
  ]

  pub sort_by-Ascending : (xs : List A) → Ascending (sort_by key xs)
  unfolding sort_by
  sort_by-Ascending [] = tt
  sort_by-Ascending (x ∷ xs) = insert_by-Ascending x (sort_by key xs) (sort_by-Ascending xs)

  pub sort_by-All : (P : A → Type 0) (xs : List A) → All P xs → All P (sort_by key xs)
  unfolding sort_by
  sort_by-All P [] h = tt
  sort_by-All P (x ∷ xs) h = insert_by-All P x (sort_by key xs) h.0 (sort_by-All P xs h.1)

  insert_by-count :
      (p : A → Bool) (x : A) (ys : List A) → count_if p (insert_by key x ys) ≡ count_if p (x ∷ ys)
  unfolding insert_by count_if
  insert_by-count p x [] = refl
  insert_by-count p x (y ∷ ys) = ground (arith, insert_by-count p x ys)

  -- Sorting keeps the number of the elements of each kind.
  pub sort_by-count : (p : A → Bool) (xs : List A) → count_if p (sort_by key xs) ≡ count_if p xs
  unfolding sort_by count_if
  sort_by-count p [] = refl
  sort_by-count p (x ∷ xs) =
      ground (arith, insert_by-count p x (sort_by key xs), sort_by-count p xs)

module _ {W : Type 0} (min_tier : Option ℕ) (request : AgentRequest) where
  abbrev pub cost : Adapter W → ℕ
  cost a = a.cost_estimate request

  abbrev pub eligible : Adapter W → Bool
  eligible a = elim min_tier [
    | none ↦ true
    | some least ↦ not (ltb (a.cost_estimate request) least)
  ]

  -- The adapters in the order of the attempts.
  abbrev pub order : List (Adapter W) → List (Adapter W)
  order adapters = map (λ p. p.1) (by_cost min_tier request adapters)

  costed-All :
      (P : ℕ × Adapter W → Type 0)
      → ((a : Adapter W) → eligible a ≡ true → P (cost a, a))
      → (adapters : List (Adapter W)) → All P (costed min_tier request adapters)
  unfolding costed
  costed-All P h [] = tt
  costed-All P h (a ∷ adapters) = ground (arith, h a, costed-All P h adapters)

  costed-priced :
      (adapters : List (Adapter W))
      → All (λ p. (p.0 ≡ cost p.1) × (eligible p.1 ≡ true)) (costed min_tier request adapters)
  costed-priced adapters = costed-All _ (λ a e. (refl, e)) adapters

  costed-count :
      (p : Adapter W → Bool) (adapters : List (Adapter W))
      → count_if (λ q. p q.1) (costed min_tier request adapters)
        ≡ count_if p (keep eligible adapters)
  unfolding costed count_if keep
  costed-count p [] = refl
  costed-count p (a ∷ adapters) = ground (arith, costed-count p adapters)

  map-count :
      (p : Adapter W → Bool) (xs : List (ℕ × Adapter W))
      → count_if p (map (λ q. q.1) xs) ≡ count_if (λ q. p q.1) xs
  unfolding count_if
  map-count p [] = refl
  map-count p (x ∷ xs) = ground (arith, map-count p xs)

  map-All :
      (P : Adapter W → Type 0) (xs : List (ℕ × Adapter W))
      → All (λ q. P q.1) xs
      → All P (map (λ q. q.1) xs)
  map-All P [] h = tt
  map-All P (x ∷ xs) h = (h.0, map-All P xs h.1)

  repriced :
      (n : ℕ) (xs : List (ℕ × Adapter W))
      → All (λ p. (p.0 ≡ cost p.1) × (eligible p.1 ≡ true)) xs
      → All (λ q. n ≤ q.0) xs
      → All (λ q. n ≤ cost q.1) xs
  repriced n [] h le = tt
  repriced n (x ∷ xs) h le = (ground (arith, h.0, le.0), repriced n xs h.1 le.1)

  map-Ascending :
      (xs : List (ℕ × Adapter W))
      → All (λ p. (p.0 ≡ cost p.1) × (eligible p.1 ≡ true)) xs
      → Ascending (λ p. p.0) xs
      → Ascending cost (map (λ q. q.1) xs)
  map-Ascending [] h asc = tt
  map-Ascending (x ∷ xs) h asc =
      (map-All _ xs (repriced (cost x.1) xs h.1 (rw (sym h.0.0) asc.0)), map-Ascending xs h.1 asc.1)

  order-priced :
      (adapters : List (Adapter W))
      → All (λ p. (p.0 ≡ cost p.1) × (eligible p.1 ≡ true)) (by_cost min_tier request adapters)
  unfolding by_cost
  order-priced adapters =
      sort_by-All (λ p. p.0) _ (costed min_tier request adapters) (costed-priced adapters)

  order-Ascending : (adapters : List (Adapter W)) → Ascending cost (order adapters)
  unfolding by_cost
  order-Ascending adapters =
      map-Ascending (by_cost min_tier request adapters) (order-priced adapters)
        (sort_by-Ascending (λ p. p.0) (costed min_tier request adapters))

  order-count :
      (p : Adapter W → Bool) (adapters : List (Adapter W))
      → count_if p (order adapters) ≡ count_if p (keep eligible adapters)
  unfolding by_cost
  order-count p adapters =
      map-count p (by_cost min_tier request adapters)
      ∙ (sort_by-count (λ q. q.0) (λ q. p q.1) (costed min_tier request adapters)
          ∙ costed-count p adapters)

-- `_cost_aware` is the chain over the adapters that meet the minimum tier, each as often as it is
-- given, the cheapest first.
pub run_cost_aware-Routed :
    {W : Type 0} (clock : W → ℕ) (min_tier : Option ℕ) (adapters : List (Adapter W))
    (request : AgentRequest) (cb : CircuitBreaker) (w : W)
    → let tried = order min_tier request adapters in
      let (o, cb', w') = run_cost_aware clock min_tier adapters request (cb, w) in
      Routed clock request tried cb w o cb' w'
      × Ascending (λ a. a.cost_estimate request) tried
      × ((p : Adapter W → Bool)
          → count_if p tried ≡ count_if p (keep (eligible min_tier request) adapters))
unfolding run_cost_aware
run_cost_aware-Routed clock min_tier adapters request cb w = (
  attempts-Routed clock request (order min_tier request adapters) [] cb w,
  order-Ascending min_tier request adapters,
  λ p. order-count min_tier request p adapters,
)
