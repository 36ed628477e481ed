-- ===== src/Prelude/Int.antt =====
-- The C `int` counters that may fall below zero.
use Prim.Native.Nat.{ℕ, zero, suc, ◌+◌, ◌^◌}
use mathlib.Core.Bool.{Bool, ◌&&◌, ◌||◌}
use moscapsule.Prelude.Tests.{ltb}

-- `negsuc n` is -(n + 1).
pub data ℤ : Type 0 where
  pos : ℕ → ℤ
  negsuc : ℕ → ℤ

abbrev pub increment : ℤ → ℤ
increment (pos n) = pos (suc n)
increment (negsuc zero) = pos zero
increment (negsuc (suc n)) = negsuc n

abbrev pub decrement : ℤ → ℤ
decrement (pos zero) = negsuc zero
decrement (pos (suc n)) = pos n
decrement (negsuc n) = negsuc (suc n)

-- Is the number below the `int` whose 32 bits are `bits`? From 2 ^ 31 on that one is negative.
abbrev pub below : ℤ → ℕ → Bool
below (pos n) bits = ltb n bits && ltb bits (2 ^ 31)
below (negsuc n) bits = ltb bits (2 ^ 31) || ltb (2 ^ 32) (n + 1 + bits)
