-- ===== src/Base/Int.antt =====
-- Go's signed `int`, where a value may be below zero. `negsuc n` is -(n + 1).
use Prim.Native.Nat.{ℕ}
use mathlib.Core.Bool.{Bool, false}
use tlsscan.Base.Test.{ltb}

pub data ℤ : Type 0 where
  pos : ℕ → ℤ
  negsuc : ℕ → ℤ

-- `k < z`, for a number `k`.
abbrev pub above : ℕ → ℤ → Bool
above k (pos n) = ltb k n
above k (negsuc n) = false
