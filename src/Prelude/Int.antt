-- ===== src/Prelude/Int.antt =====
-- Python's unbounded integers over the native numbers. `negsuc n` is -(n + 1).
use strange_claw.Prelude.{ℕ}

pub data ℤ : Type 0 where
  pos : ℕ → ℤ
  negsuc : ℕ → ℤ
