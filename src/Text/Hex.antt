-- ===== src/Text/Hex.antt =====
-- `hex.EncodeToString`
use Prim.Native.String.{String, ◌++◌}
use docpulse.Base.{ℕ, zero, suc, ◌/◌, ◌%◌, List, [], ◌∷◌}
use docpulse.Text.Utf8.{Bytes}

abbrev hex_digits : List String
hex_digits =
    "0" ∷ "1" ∷ "2" ∷ "3" ∷ "4" ∷ "5" ∷ "6" ∷ "7" ∷ "8" ∷ "9" ∷ "a" ∷ "b" ∷ "c" ∷ "d" ∷ "e" ∷ "f"
    ∷ []

abbrev item_at : ℕ → List String → String
item_at n [] = ""
item_at zero (x ∷ xs) = x
item_at (suc n) (x ∷ xs) = item_at n xs

pub hex_text : Bytes → String
hex_text [] = ""
hex_text (b ∷ s) = item_at (b / 16) hex_digits ++ (item_at (b % 16) hex_digits ++ hex_text s)
