-- ===== src/Common/Integers.antt =====
-- Integers over the native numbers.
use Prim.Native.Nat.{ℕ, ◌-◌}
use bharat_ticker.Common.Tests.{ltb, if◌then◌else◌}

pub data ℤ : Type 0 where
  pos : ℕ → ℤ
  negsuc : ℕ → ℤ

-- `m - n` for two numbers.
abbrev pub difference : ℕ → ℕ → ℤ
difference m n = if ltb m n then ℤ.negsuc (n - m - 1) else ℤ.pos (m - n)
