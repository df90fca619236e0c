-- ===== src/Base/Int.antt =====
-- Go's `int`, where a value can be negative. No sum here leaves the range of 64 bits.
use Prim.Native.Nat.{ℕ}

-- `negsuc n` is -(n + 1).
pub data ℤ : Type 0 where
  pos : ℕ → ℤ
  negsuc : ℕ → ℤ
