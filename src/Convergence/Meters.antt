-- ===== src/Convergence/Meters.antt =====
-- src/convergence.py: meters of the world, by which the provider calls of a run are counted.
use aieos_agent_harness.Base.{
  if◌then◌else◌, Bool, ℕ, zero, suc, ◌+◌, ◌*◌, ◌≤◌, String, ◌==◌, string_eq, arith,
}
use aieos_agent_harness.Base.Lists.{All, count_if}
use aieos_agent_harness.Models.{AgentRequest}
use aieos_agent_harness.Adapter.{Adapter}
use aieos_agent_harness.Convergence.{ConvergenceLoop}

-- Three meters of the world: of the generations, of the validations, and of the calls of the lens
-- that is `watched`.
pub record Meters (W : Type 0) : Type 0 where
  pub gens : W → ℕ
  pub vals : W → ℕ
  pub lens_calls : W → ℕ
  pub watched : String

abbrev pub one_if : Bool → ℕ
one_if b = if b then 1 else 0

module _ {W : Type 0} (m : Meters W) where
  -- Whether a lens is the one that is watched.
  abbrev pub is_watched : String × Adapter W → Bool
  is_watched (name, _) = name == m.watched

  -- From `w` to `w'` there are at most `g` generations, `v` validations and `l` calls of the
  -- lens that is watched.
  pub record IsWithin (g v l : ℕ) (w w' : W) : Type 0 where
    pub gens : m.gens w' ≤ m.gens w + g
    pub vals : m.vals w' ≤ m.vals w + v
    pub lens_calls : m.lens_calls w' ≤ m.lens_calls w + l

  -- A call of a lens counts where the lens is the one that is watched, and once at most.
  abbrev pub Once : String × Adapter W → Type 0
  Once lens =
      (q : AgentRequest) (w : W) → IsWithin 0 0 (one_if (is_watched lens)) w (lens.1.invoke q w).1

  pub record IsMetered (loop : ConvergenceLoop W) : Type 0 where
    pub gen_once : (q : AgentRequest) (w : W) → IsWithin 1 0 0 w (loop.gen.invoke q w).1
    pub val_once : (q : AgentRequest) (w : W) → IsWithin 0 1 0 w (loop.val.invoke q w).1
    pub lens_once : All Once loop.lenses
    pub one_name : count_if is_watched loop.lenses ≤ 1

  pub IsWithin-trans :
      {g v l g' v' l' g2 v2 l2 : ℕ} (a b c : W)
      → IsWithin g v l a b
      → IsWithin g' v' l' b c
      → g + g' ≤ g2
      → v + v' ≤ v2
      → l + l' ≤ l2
      → IsWithin g2 v2 l2 a c
  IsWithin-trans a b c h k p q r = record {
    gens = omega arith;
    vals = omega arith;
    lens_calls = omega arith;
  }

  pub IsWithin-self : (g v l : ℕ) (a : W) → IsWithin g v l a a
  IsWithin-self g v l a = record {
    gens = omega arith;
    vals = omega arith;
    lens_calls = omega arith;
  }

pub mul_le : (a b : ℕ) → b ≤ 1 → a * b ≤ a
mul_le a zero h = omega arith
mul_le a (suc zero) h = omega arith
mul_le a (suc (suc b)) h = absurd (omega (arith, h))
