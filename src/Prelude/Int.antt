-- ===== src/Prelude/Int.antt =====
-- Integers on the native ℕ, for what `int` returns.
use Prim.Native.Nat.{ℕ, min, max}

pub data ℤ : Type 0 where
  pos : ℕ → ℤ
  negsuc : ℕ → ℤ

-- max(low, min(high, i)) for bounds that are not negative.
abbrev pub clamp : ℕ → ℕ → ℤ → ℕ
clamp low high (pos n) = max low (min high n)
clamp low high (negsuc n) = low
