-- ===== src/Prelude/Integer.antt =====
-- The C `int`, where both signs count: the library's names over the native numbers.
use Prim.Native.Nat.{ℕ}

pub data ℤ : Type 0 where
  pos : ℕ → ℤ
  -- `negsuc k` is -(k + 1).
  negsuc : ℕ → ℤ
