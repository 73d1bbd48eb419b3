-- ===== src/Adapter.antt =====
-- src/adapters/base.py: the protocol of an agent adapter. A provider is an external service, so an
-- adapter is a record of functions over an unknown world `W` that each call may change; a call may
-- raise. `Call W E A` is the type of such actions, and the `do` notation chains them.
use aieos_agent_harness.Base.{
  ◌⊎◌, inl, inr, ◌≡◌, refl, ◌∙◌, arith, ℕ, String, Bool, true, false, if◌then◌else◌,
}
use aieos_agent_harness.Models.{AgentRequest, AgentResponse}

pub data Outcome (E : Type 0) (A : Type 0) : Type 0 where
  ok : A → Outcome E A
  err : E → Outcome E A

abbrev pub Call : Type 0 → Type 0 → Type 0 → Type 0
Call W E A = W → Outcome E A × W

-- The exception of a failed call is its text, `str(exc)`.
pub record Adapter (W : Type 0) : Type 0 where
  pub provider_name : String
  pub model_name : String
  pub invoke : AgentRequest → Call W String AgentResponse
  pub cost_estimate : AgentRequest → ℕ

module _ {W E A : Type 0} where
  abbrev pub pure : A → Call W E A
  pure a w = (ok a, w)

  abbrev pub raise : E → Call W E A
  raise e w = (err e, w)

  -- The exceptions of `m` under other names.
  abbrev pub rethrow : {F : Type 0} → (F → E) → Call W F A → Call W E A
  rethrow f m w = let (r, w') = m w in elim r [ ok a ↦ (ok a, w') | err e ↦ (err (f e), w') ]

infixl 5 ◌>>=◌ ◌>>◌
abbrev pub ◌>>=◌ : {W E A B : Type 0} → Call W E A → (A → Call W E B) → Call W E B
◌>>=◌ m f w = let (r, w') = m w in elim r [ ok a ↦ f a w' | err e ↦ (err e, w') ]

abbrev pub ◌>>◌ : {W E A B : Type 0} → Call W E A → Call W E B → Call W E B
m >> k = m >>= λ _. k

abbrev pub raise_if : {W E : Type 0} → Bool → E → Call W E (Unit {0})
raise_if b e w = (if b then err e else ok tt, w)

-- To split on the answer of a call and keep the equation.
pub Outcome-cases :
    {E A : Type 0} (o : Outcome E A) → ((a : A) × (o ≡ ok a)) ⊎ ((e : E) × (o ≡ err e))
Outcome-cases (ok a) = inl (a, refl)
Outcome-cases (err e) = inr (e, refl)

-- Inversion of an action that returned.
module _ {W E A B : Type 0} where
  pub bind-ok :
      (m : Call W E A) (f : A → Call W E B) (w w' : W) (b : B)
      → (m >>= f) w ≡ (ok b, w')
      → (a : A) × (w1 : W) × (m w ≡ (ok a, w1)) × (f a w1 ≡ (ok b, w'))
  bind-ok m f w w' b h = go (m w) refl h
    where
      go :
          (x : Outcome E A × W)
          → m w ≡ x
          → ◌>>=◌ (λ _. x) f w ≡ (ok b, w')
          → (a : A) × (w1 : W) × (m w ≡ (ok a, w1)) × (f a w1 ≡ (ok b, w'))
      go (ok a, w1) p q = (a, w1, p, q)
      go (err e, w1) p q = cc

  pub rethrow-ok :
      (g : E → B) (m : Call W E A) (w w' : W) (a : A)
      → rethrow g m w ≡ (ok a, w')
      → m w ≡ (ok a, w')
  rethrow-ok g m w w' a h = go (m w) refl h
    where
      go : (x : Outcome E A × W) → m w ≡ x → rethrow g (λ _. x) w ≡ (ok a, w') → m w ≡ (ok a, w')
      go (ok c, w1) p q = p ∙ cc
      go (err e, w1) p q = cc

pub raise_if-ok :
    {W E : Type 0} (b : Bool) (e : E) (w w' : W) (u : Unit {0})
    → raise_if b e w ≡ (ok u, w')
    → (b ≡ false) × (w ≡ w')
raise_if-ok true e w w' u h = cc
raise_if-ok false e w w' u h = ground arith

-- What holds of the world after a chain of two actions, whether they raise or not.
pub bind-post :
    {W E A B : Type 0} (Q : W → Type 0) (m : Call W E A) (f : A → Call W E B) (w : W)
    → Q (m w).1
    → ((a : A) (w1 : W) → m w ≡ (ok a, w1) → Q (f a w1).1)
    → Q ((m >>= f) w).1
bind-post {W} {E} {A} Q m f w stop go_on = go (m w) stop go_on
  where
    go :
        (x : Outcome E A × W)
        → Q x.1
        → ((a : A) (w1 : W) → x ≡ (ok a, w1) → Q (f a w1).1)
        → Q (◌>>=◌ (λ _. x) f w).1
    go (ok a, w1) p q = q a w1 refl
    go (err e, w1) p q = p

pub rethrow-world :
    {W E F A : Type 0} (g : F → E) (m : Call W F A) (w : W) → (rethrow g m w).1 ≡ (m w).1
rethrow-world g m w = ground arith

-- The exception of a chain is the exception of one of its actions.
pub bind-err :
    {W E A B : Type 0} (P : E → Type 0) (m : Call W E A) (f : A → Call W E B) (w : W) (e : E)
    → ((m >>= f) w).0 ≡ err e
    → ((m w).0 ≡ err e → P e)
    → ((a : A) (w1 : W) → (f a w1).0 ≡ err e → P e)
    → P e
bind-err {W} {E} {A} P m f w e h now later = go (m w) h now
  where
    go : (x : Outcome E A × W) → (◌>>=◌ (λ _. x) f w).0 ≡ err e → (x.0 ≡ err e → P e) → P e
    go (ok a, w1) p q = later a w1 p
    go (err d, w1) p q = q (cc)
