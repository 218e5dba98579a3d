-- ===== src/Prelude/Int.antt =====
-- Signed integers over the native numbers, and the 32-bit `int`.
use Prim.Native.Nat.{ℕ, suc, ◌+◌, ◌-◌, ◌%◌, ◌^◌}
use lmq.Prelude.Tests.{ltb, if◌then◌else◌}

-- `negsuc n` is -(n + 1).
pub data ℤ : Type 0 where
  pos : ℕ → ℤ
  negsuc : ℕ → ℤ

-- The `int` with this bit pattern.
abbrev pub of_bits : ℕ → ℤ
of_bits w = if ltb w (2 ^ 31) then pos w else negsuc (2 ^ 32 - w - 1)

-- The conversion of a wider integer to `int`, which keeps the low 32 bits.
unfoldable pub to_int : ℤ → ℤ
to_int (pos n) = of_bits (n % 2 ^ 32)
to_int (negsuc n) = of_bits (2 ^ 32 - 1 - n % 2 ^ 32)

-- The sum with a natural number.
unfoldable pub add_ℕ : ℤ → ℕ → ℤ
add_ℕ (pos a) n = pos (a + n)
add_ℕ (negsuc a) n = if ltb a n then pos (n - suc a) else negsuc (a - n)
