-- ===== src/Prelude/Int.antt =====
-- Integers of any size, as the BigNumber values of the program: `negsuc n` is -(n + 1).
use Prim.Native.Nat.{ℕ, suc}

pub data ℤ : Type 0 where
  pos : ℕ → ℤ
  negsuc : ℕ → ℤ

-- The magnitude, `value.abs()`.
abbrev pub abs : ℤ → ℕ
abs (pos n) = n
abs (negsuc n) = suc n
