-- ===== src/Base/Int.antt =====
-- Go's `int` where the program takes a number from its environment, which may be negative.
use Prim.Native.Nat.{ℕ, zero, suc, ◌/◌, ◌%◌, ◌+◌}
use Prim.Native.String.{String, ◌++◌}
use docpulse.Base.Tests.{ltb, ◌==◌, if◌then◌else◌}
use mathlib.Core.Bool.{Bool, true}

-- `negsuc n` is -(n + 1).
pub data ℤ : Type 0 where
  pos : ℕ → ℤ
  negsuc : ℕ → ℤ

-- z < n
abbrev pub below : ℤ → ℕ → Bool
below (pos z) n = ltb z n
below (negsuc z) n = true

-- The rounds of `for i := 0; i <= z; i++`.
abbrev pub rounds_to : ℤ → ℕ
rounds_to (pos z) = suc z
rounds_to (negsuc z) = 0

unfoldable pub digit : ℕ → String
digit d =
    if d == 0
    then "0"
    else if d == 1
    then "1"
    else if d == 2
    then "2"
    else if d == 3
    then "3"
    else if d == 4
    then "4"
    else if d == 5
    then "5"
    else if d == 6
    then "6"
    else if d == 7
    then "7"
    else if d == 8
    then "8"
    else "9"

unfoldable pub digits : ℕ → ℕ → String → String
digits zero n out = out
digits (suc f) n out =
    let more = digits f (n / 10) (digit (n % 10) ++ out) in
    if ltb n 10 then digit n ++ out else more

-- `%d`; there are at most as many digits as the number plus one.
unfoldable pub decimal : ℕ → String
unfolding digits digit
decimal n = digits (n + 1) n ""

-- `%d` of z + 1
abbrev pub decimal_next : ℤ → String
decimal_next (pos z) = decimal (z + 1)
decimal_next (negsuc zero) = "0"
decimal_next (negsuc z) = "-" ++ decimal z
