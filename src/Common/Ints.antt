-- ===== src/Common/Ints.antt =====
-- Go's `int` and `int64` where a value may be negative; `negsuc n` is -(n + 1).
use Prim.Native.Nat.{ℕ, ◌+◌, ◌-◌, ◌*◌, ◌%◌, ◌^◌}
use mathlib.Core.Bool.{Bool, true, false}
use dtp_discovery_agent.Common.Tests.{ltb, leb, if◌then◌else◌}

pub data ℤ : Type 0 where
  pos : ℕ → ℤ
  negsuc : ℕ → ℤ

-- n + z
abbrev pub plus : ℕ → ℤ → ℤ
plus n (pos m) = pos (n + m)
plus n (negsuc m) = if ltb m n then pos (n - m - 1) else negsuc (m - n)

-- n < z
abbrev pub below : ℕ → ℤ → Bool
below n (pos m) = ltb n m
below n (negsuc m) = false

-- z <= 0
abbrev pub at_most_zero : ℤ → Bool
at_most_zero (pos n) = leb n 0
at_most_zero (negsuc n) = true

-- the 64 bits of an int64, as a number, and the int64 of such a number
abbrev pub to_bits : ℤ → ℕ
to_bits (pos n) = n % 2 ^ 64
to_bits (negsuc n) = 2 ^ 64 - 1 - n % 2 ^ 64

abbrev pub of_bits : ℕ → ℤ
of_bits n = if ltb n (2 ^ 63) then pos n else negsuc (2 ^ 64 - 1 - n)

-- time.Duration(n) * time.Second, which wraps as int64 does
unfoldable pub seconds : ℤ → ℤ
seconds z = of_bits (to_bits z * 10 ^ 9 % 2 ^ 64)
