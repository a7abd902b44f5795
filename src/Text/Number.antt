-- ===== src/Text/Number.antt =====
-- `strconv.Atoi` for a 64-bit int.
use docpulse.Base.{
  ℕ, zero, suc, ◌+◌, ◌-◌, ◌*◌, ◌^◌, ◌&&◌, Option, none, some, [], ◌∷◌, leb, ltb, ◌==◌,
  if◌then◌else◌,
}
use docpulse.Base.Int.{ℤ, pos, negsuc}
use docpulse.Text.Utf8.{Bytes}

-- The digits in front of which the number `n` stands.
abbrev pub digits_value : ℕ → Bytes → Option ℕ
digits_value n [] = some n
digits_value n (b ∷ s) =
    let rest = digits_value (n * 10 + (b - 48)) s in if leb 48 b && leb b 57 then rest else none

abbrev pub magnitude : Bytes → Option ℕ
magnitude [] = none
magnitude (b ∷ s) = digits_value 0 (b ∷ s)

abbrev pub positive : Option ℕ → Option ℤ
positive none = none
positive (some n) = if ltb n (2 ^ 63) then some (pos n) else none

abbrev pub negative : Option ℕ → Option ℤ
negative none = none
negative (some zero) = some (pos 0)
negative (some (suc n)) = if ltb n (2 ^ 63) then some (negsuc n) else none

abbrev pub atoi : Bytes → Option ℤ
atoi [] = none
atoi (b ∷ s) =
    if b == 0x2D
    then negative (magnitude s)
    else if b == 0x2B
    then positive (magnitude s)
    else positive (magnitude (b ∷ s))
