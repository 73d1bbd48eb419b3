-- ===== src/Base/Integer.antt =====
-- Python's `int`, over the native numbers.
use Prim.Native.Nat.{ℕ}

pub data ℤ : Type 0 where
  pos negsuc : ℕ → ℤ
