-- ===== src/Text/Utf8.antt =====
-- Package `unicode/utf8` and the tests of `unicode` that the chunker uses.
use docpulse.Base.{
  ℕ, zero, suc, ◌+◌, ◌-◌, ◌*◌, ◌/◌, ◌%◌, Bool, ◌&&◌, ◌||◌, not, List, [], ◌∷◌, ◌++◌, String, leb,
  ltb, ◌==◌, if◌then◌else◌,
}
use Prim.Native.Char.{code}

abbrev pub Bytes : Type 0
Bytes = List ℕ

abbrev pub in_range : ℕ → ℕ → ℕ → Bool
in_range lo hi b = leb lo b && leb b hi

-- `utf8.RuneError`
abbrev pub rune_error : ℕ
rune_error = 0xFFFD

abbrev pub is_cont : ℕ → Bool
is_cont = in_range 0x80 0xBF

unfoldable pub decode2 : ℕ → Bytes → ℕ × ℕ
decode2 b0 [] = (rune_error, 1)
decode2 b0 (b1 ∷ s) = if is_cont b1 then ((b0 - 0xC0) * 64 + (b1 - 0x80), 2) else (rune_error, 1)

-- The second byte's range excludes overlong forms and surrogates.
abbrev pub low3 : ℕ → ℕ
low3 b0 = if b0 == 0xE0 then 0xA0 else 0x80

abbrev pub high3 : ℕ → ℕ
high3 b0 = if b0 == 0xED then 0x9F else 0xBF

unfoldable pub decode3 : ℕ → Bytes → ℕ × ℕ
decode3 b0 (b1 ∷ b2 ∷ s) =
    if in_range (low3 b0) (high3 b0) b1 && is_cont b2
    then ((b0 - 0xE0) * 4096 + (b1 - 0x80) * 64 + (b2 - 0x80), 3)
    else (rune_error, 1)
decode3 b0 _ = (rune_error, 1)

abbrev pub low4 : ℕ → ℕ
low4 b0 = if b0 == 0xF0 then 0x90 else 0x80

abbrev pub high4 : ℕ → ℕ
high4 b0 = if b0 == 0xF4 then 0x8F else 0xBF

unfoldable pub decode4 : ℕ → Bytes → ℕ × ℕ
decode4 b0 (b1 ∷ b2 ∷ b3 ∷ s) =
    if in_range (low4 b0) (high4 b0) b1 && (is_cont b2 && is_cont b3)
    then ((b0 - 0xF0) * 262144 + (b1 - 0x80) * 4096 + (b2 - 0x80) * 64 + (b3 - 0x80), 4)
    else (rune_error, 1)
decode4 b0 _ = (rune_error, 1)

-- `utf8.DecodeRune`: the rune and its width; an invalid byte is `rune_error` of width 1.
unfoldable pub decode_rune : Bytes → ℕ × ℕ
decode_rune [] = (rune_error, 0)
decode_rune (b0 ∷ s) =
    if ltb b0 0x80
    then (b0, 1)
    else if in_range 0xC2 0xDF b0
    then decode2 b0 s
    else if in_range 0xE0 0xEF b0
    then decode3 b0 s
    else if in_range 0xF0 0xF4 b0
    then decode4 b0 s
    else (rune_error, 1)

-- `utf8.AppendRune`: what is no Unicode scalar value is written as `rune_error`.
unfoldable pub encode_rune : ℕ → Bytes
encode_rune r =
    if ltb r 0x80
    then r ∷ []
    else if ltb r 0x800
    then (0xC0 + r / 64) ∷ (0x80 + r % 64) ∷ []
    else if in_range 0xD800 0xDFFF r || ltb 0x10FFFF r
    then 0xEF ∷ 0xBF ∷ 0xBD ∷ []
    else if ltb r 0x10000
    then (0xE0 + r / 4096) ∷ (0x80 + r / 64 % 64) ∷ (0x80 + r % 64) ∷ []
    else (0xF0 + r / 262144) ∷ (0x80 + r / 4096 % 64) ∷ (0x80 + r / 64 % 64) ∷ (0x80 + r % 64) ∷ []

pub encode_codes : String → Bytes
encode_codes String.[] = []
encode_codes (String.◌∷◌ c s) = encode_rune (code c) ++ encode_codes s

-- The bytes of a string literal of the source.
unfoldable pub str : String → Bytes
str s = encode_codes s

-- `unicode.IsSpace`: the property White_Space.
unfoldable pub is_space : ℕ → Bool
is_space r =
    in_range 9 13 r
    || r == 0x20
    || r == 0x85
    || r == 0xA0
    || r == 0x1680
    || in_range 0x2000 0x200A r
    || r == 0x2028
    || r == 0x2029
    || r == 0x202F
    || r == 0x205F
    || r == 0x3000

-- `unicode.IsUpper`; beyond Latin-1 it looks into a table.
unfoldable pub is_upper : (ℕ → Bool) → ℕ → Bool
is_upper table r =
    if leb r 0xFF
    then in_range 0x41 0x5A r || (in_range 0xC0 0xDE r && not (r == 0xD7))
    else table r

-- `[]rune(s)`; the number counts bytes of a rune to be skipped.
unfoldable pub runes : ℕ → Bytes → List ℕ
runes k [] = []
runes (suc k) (b ∷ s) = runes k s
runes zero (b ∷ s) = let (r, w) = decode_rune (b ∷ s) in r ∷ runes (w - 1) s

-- Opens the operations on runes, for tests.
unfoldable pub utf8 : Unit {0}
unfolding decode_rune decode2 decode3 decode4 encode_rune encode_codes str is_space is_upper runes
utf8 = tt
