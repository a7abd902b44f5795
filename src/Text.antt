-- ===== src/Text.antt =====
-- Go strings as byte sequences, with what internal/extraction uses of the packages `strings`,
-- `unicode` and `unicode/utf8`. The tables of `unicode` above U+00FF for upper case are a parameter.
pub mod Base64
pub mod Hex
pub mod Lengths
pub mod Number
pub mod Runes
pub mod Scalar
pub mod Split
pub mod Trim
pub mod Visible
pub mod Utf8
use docpulse.Base.{
  ℕ, zero, suc, ◌+◌, ◌-◌, Bool, true, false, ◌&&◌, Option, none, some, List, [], ◌∷◌, leb, ltb,
  ◌==◌, if◌then◌else◌, length, drop,
}
use Utf8.{utf8, Bytes, decode_rune, is_space}

-- `strings.HasPrefix`
abbrev pub starts_with : Bytes → Bytes → Bool
starts_with [] s = true
starts_with (p ∷ ps) [] = false
starts_with (p ∷ ps) (b ∷ s) = (p == b) && starts_with ps s

-- `strings.Index`; `none` is -1
unfoldable pub index : Bytes → Bytes → ℕ → Option ℕ
index sep [] i = if starts_with sep [] then some i else none
index sep (b ∷ s) i =
    let rest = index sep s (i + 1) in if starts_with sep (b ∷ s) then some i else rest

-- The width of a white space rune at the front, and 0 where there is none.
unfoldable pub space_width : Bytes → ℕ
space_width s = let (r, w) = decode_rune s in if is_space r then w else 0

-- `strings.TrimLeftFunc(s, unicode.IsSpace)`; the number counts bytes of a rune to be skipped.
unfoldable pub trim_left : ℕ → Bytes → Bytes
trim_left k [] = []
trim_left (suc k) (b ∷ s) = trim_left k s
trim_left zero (b ∷ s) = elim (space_width (b ∷ s)) [ zero ↦ b ∷ s | suc k ↦ trim_left k s ]

-- Drops a text that is one white space rune and nothing else.
unfoldable pub drop_blank : Bytes → Bytes
drop_blank s = elim (space_width s) [ zero ↦ s | suc k ↦ elim (drop (suc k) s) [ [] ↦ [] | _ ↦ s ] ]

-- `strings.TrimRightFunc(s, unicode.IsSpace)`. A byte that continues a rune is never trimmed alone,
-- so a rune is trimmed when its first byte is reached.
unfoldable pub trim_right : Bytes → Bytes
trim_right [] = []
trim_right (b ∷ s) = drop_blank (b ∷ trim_right s)

-- `strings.TrimSpace`
unfoldable pub trim_space : Bytes → Bytes
trim_space s = trim_right (trim_left 0 s)

abbrev push_byte : ℕ → List Bytes → List Bytes
push_byte b [] = (b ∷ []) ∷ []
push_byte b (p ∷ ps) = (b ∷ p) ∷ ps

-- `strings.Split` at a separator that is not empty; the number counts bytes of it to be skipped.
unfoldable pub split : Bytes → ℕ → Bytes → List Bytes
split sep k [] = [] ∷ []
split sep (suc k) (b ∷ s) = split sep k s
split sep zero (b ∷ s) = elim (starts_with sep (b ∷ s)) [
  | true ↦ [] ∷ split sep (length sep - 1) s
  | false ↦ push_byte b (split sep 0 s)
]

-- Opens the operations on text, for tests.
unfoldable pub text_operations : Unit {0}
unfolding utf8 split trim_space trim_right drop_blank trim_left space_width index
text_operations = tt
