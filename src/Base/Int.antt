-- ===== src/Base/Int.antt =====
-- Go's int as it is decoded from JSON: `negsuc n` is -(n + 1).
use Prim.Native.Nat.{ℕ}
use mathlib.Core.Bool.{Bool, false}
use agents_net.Base.Tests.{◌==◌}

pub data ℤ : Type 0 where
  pos : ℕ → ℤ
  negsuc : ℕ → ℤ

-- `i == n` for a number that is not negative.
abbrev pub is_nat : ℕ → ℤ → Bool
is_nat n (pos m) = m == n
is_nat n (negsuc m) = false
