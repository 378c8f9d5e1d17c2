-- ===== src/Prelude/Int.antt =====
-- Integers as a quantity or an amount can be given, negative ones included.
use Prim.Native.Nat.{ℕ}
use mathlib.Core.Bool.{Bool, true}
use trademart_b.Prelude.Tests.{ltb}

-- `negsuc n` is -(n + 1).
pub data ℤ : Type 0 where
  pos : ℕ → ℤ
  negsuc : ℕ → ℤ

-- `n > z` for a natural n
abbrev pub exceeds : ℕ → ℤ → Bool
exceeds n (pos m) = ltb m n
exceeds n (negsuc m) = true
