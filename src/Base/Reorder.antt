-- ===== src/Base/Reorder.antt =====
-- Lists in another order: what the order does not change.
use mathlib.Core.Path.{◌≡◌, ◌∙◌, refl}
use mathlib.Core.Bool.{Bool}
use mathlib.Core.List.{List}
use mathlib.Core.Path.{subst, sym}
use native.Mathlib.Omega.{arith}
use aieos_agent_harness.Base.Lists.{length, All, all}
pub use mathlib.Core.List.{Permᴰ as Reordered}
pub use mathlib.Core.List.Permᴰ.{nil, cons, swap, trans}

module _ {ℓ} {A : Type ℓ} where
  pub length-Reordered : {xs ys : List A} → Reordered xs ys → length xs ≡ length ys
  length-Reordered nil = omega arith
  length-Reordered (cons e p) = omega (arith, length-Reordered p)
  length-Reordered (swap e f) = omega arith
  length-Reordered (trans p q) = length-Reordered p ∙ length-Reordered q

  pub All-Reordered {κ} : (P : A → Type κ) {xs ys : List A} → Reordered xs ys → All P ys → All P xs
  All-Reordered P nil h = h
  All-Reordered P (cons e p) h = (subst P (sym e) h.0, All-Reordered P p h.1)
  All-Reordered P (swap e f) h = (subst P (sym e) h.1.0, (subst P (sym f) h.0, h.1.1))
  All-Reordered P (trans p q) h = All-Reordered P p (All-Reordered P q h)

  pub all-Reordered : (p : A → Bool) {xs ys : List A} → Reordered xs ys → all p xs ≡ all p ys
  unfolding all
  all-Reordered p nil = refl
  all-Reordered p (cons e q) = rw (e, all-Reordered p q) refl
  all-Reordered p (swap {a} {b} {a'} {b'} {l} e f) = rw (e, f) (ground arith)
  all-Reordered p (trans q r) = all-Reordered p q ∙ all-Reordered p r
