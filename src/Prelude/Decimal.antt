-- ===== src/Prelude/Decimal.antt =====
-- `str(n)` of a number: its decimal digits.
use Prim.Native.Nat.{ℕ, zero, suc, ◌/◌, ◌%◌}
use Prim.Native.String.{String, ◌++◌ as ◌<>◌}
use mathlib.Core.Path.{◌≡◌, refl}
use mathlib.Core.Bool.{true, false}
use dockkeep.Prelude.Tests.{ltb, ◌=ℕ=◌, if◌then◌else◌}

digit : ℕ → String
digit d =
    if d =ℕ= 0
    then "0"
    else if d =ℕ= 1
    then "1"
    else if d =ℕ= 2
    then "2"
    else if d =ℕ= 3
    then "3"
    else if d =ℕ= 4
    then "4"
    else if d =ℕ= 5
    then "5"
    else if d =ℕ= 6
    then "6"
    else if d =ℕ= 7
    then "7"
    else if d =ℕ= 8
    then "8"
    else "9"

-- A number has fewer digits than its value, so the fuel `n + 1` is enough.
digits : ℕ → ℕ → String
unfolding digit
digits zero n = ""
digits (suc fuel) n = elim (ltb n 10) [
  | true ↦ digit n
  | false ↦ digits fuel (n / 10) <> digit (n % 10)
]

unfoldable pub str : ℕ → String
unfolding digits
str n = digits (suc n) n

str_runs : str 1204 ≡ "1204"
unfolding str
str_runs = refl
