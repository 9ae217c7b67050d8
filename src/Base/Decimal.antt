-- ===== src/Base/Decimal.antt =====
-- Python's `str` on a whole number.
use Prim.Native.Nat.{ℕ, zero, suc, ◌+◌, ◌/◌, ◌%◌}
use Prim.Native.String.{String, ◌++◌, slice}
use mathlib.Core.Bool.{true, false}
use recoup_ai.Base.Tests.{ltb}

digit : ℕ → String
digit n = slice "0123456789" n (n + 1)

-- The digits of a number before a text; the number is fuel enough.
digits_before : ℕ → ℕ → String → String
unfolding digit
digits_before zero n after = digit (n % 10) ++ after
digits_before (suc fuel) n after = elim (ltb n 10) [
  | true ↦ digit n ++ after
  | false ↦ digits_before fuel (n / 10) (digit (n % 10) ++ after)
]

unfoldable pub decimal : ℕ → String
unfolding digits_before
decimal n = digits_before n n ""
