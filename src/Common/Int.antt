-- ===== src/Common/Int.antt =====
-- Integers over the native numbers, for the signed numbers of the Kubernetes types.
use Prim.Native.Nat.{ℕ}

-- `negsuc n` is -(n + 1).
pub data ℤ : Type 0 where
  pos negsuc : ℕ → ℤ
