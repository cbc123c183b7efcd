-- ===== src/Common/Integers.antt =====
-- JavaScript's bigint, as the integers over the native numbers.
use Prim.Native.Nat.{ℕ, zero, suc, ◌-◌}
use mathlib.Core.Option.{Option, none, some}
use relstate.Common.Tests.{leb, if◌then◌else◌}

-- `negsuc n` is -(n + 1).
pub data ℤ : Type 0 where
  pos negsuc : ℕ → ℤ

-- The difference of two numbers.
abbrev pub minus : ℕ → ℕ → ℤ
minus a b = if leb b a then pos (a - b) else negsuc (b - suc a)

-- What passes the test `amount <= 0n`.
abbrev pub positive : ℤ → Option ℕ
positive (negsuc n) = none
positive (pos zero) = none
positive (pos (suc n)) = some (suc n)

-- `n > 0n ? n : 0n`.
abbrev pub at_least_zero : ℤ → ℕ
at_least_zero (negsuc n) = 0
at_least_zero (pos n) = n
