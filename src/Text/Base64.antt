-- ===== src/Text/Base64.antt =====
-- `base64.RawURLEncoding.EncodeToString`, and the reader that takes it back.
use docpulse.Base.{
  ℕ, ◌+◌, ◌-◌, ◌*◌, ◌/◌, ◌%◌, ◌<◌, ◌≡◌, refl, [], ◌∷◌, arith, ltb, ◌==◌, if◌then◌else◌, All, ap,
  ap₂,
}
use docpulse.Text.Utf8.{Bytes}

-- The letters of six bits: A-Z, a-z, 0-9, '-' and '_'.
pub letter : ℕ → ℕ
letter n =
    if ltb n 26
    then b'A' + n
    else if ltb n 52
    then b'a' + (n - 26)
    else if ltb n 62
    then b'0' + (n - 52)
    else if n == 62
    then b'-'
    else b'_'

pub encode_base64 : Bytes → Bytes
encode_base64 [] = []
encode_base64 (a ∷ []) = letter (a / 4) ∷ letter (a % 4 * 16) ∷ []
encode_base64 (a ∷ b ∷ []) =
    letter (a / 4) ∷ letter (a % 4 * 16 + b / 16) ∷ letter (b % 16 * 4) ∷ []
encode_base64 (a ∷ b ∷ c ∷ s) =
    letter (a / 4)
    ∷ letter (a % 4 * 16 + b / 16)
    ∷ letter (b % 16 * 4 + c / 64)
    ∷ letter (c % 64)
    ∷ encode_base64 s

-- Opens the encoding, for tests.
unfoldable pub base64 : Unit {0}
unfolding letter encode_base64
base64 = tt

value : ℕ → ℕ
value c =
    if c == b'-'
    then 62
    else if c == b'_'
    then 63
    else if ltb c 58
    then c - b'0' + 52
    else if ltb c 91
    then c - b'A'
    else c - b'a' + 26

pub decode_base64 : Bytes → Bytes
decode_base64 (p ∷ q ∷ r ∷ s ∷ rest) =
    (value p * 4 + value q / 16)
    ∷ (value q % 16 * 16 + value r / 4)
    ∷ (value r % 4 * 64 + value s)
    ∷ decode_base64 rest
decode_base64 (p ∷ q ∷ r ∷ []) =
    (value p * 4 + value q / 16) ∷ (value q % 16 * 16 + value r / 4) ∷ []
decode_base64 (p ∷ q ∷ []) = (value p * 4 + value q / 16) ∷ []
decode_base64 _ = []

value-letter : (n : ℕ) → n < 64 → value (letter n) ≡ n
unfolding value letter
value-letter n h = ground arith

-- Bytes are read back as they were.
pub decode_base64-encode_base64 :
    (s : Bytes) → All (λ b. b < 256) s → decode_base64 (encode_base64 s) ≡ s
unfolding decode_base64 encode_base64
decode_base64-encode_base64 [] h = refl
decode_base64-encode_base64 (a ∷ []) (ha, _) =
    let p = value-letter (a / 4) (omega arith) in
    let q = value-letter (a % 4 * 16) (omega arith) in ap (λ x. x ∷ []) (omega (arith, p, q))
decode_base64-encode_base64 (a ∷ b ∷ []) (ha, (hb, _)) =
    let p = value-letter (a / 4) (omega arith) in
    let q = value-letter (a % 4 * 16 + b / 16) (omega arith) in
    let r = value-letter (b % 16 * 4) (omega arith) in
    ap₂ (λ x y. x ∷ y ∷ []) (omega (arith, p, q)) (omega (arith, q, r))
decode_base64-encode_base64 (a ∷ b ∷ c ∷ s) (ha, (hb, (hc, h))) =
    let p = value-letter (a / 4) (omega arith) in
    let q = value-letter (a % 4 * 16 + b / 16) (omega arith) in
    let r = value-letter (b % 16 * 4 + c / 64) (omega arith) in
    let t = value-letter (c % 64) (omega arith) in
    ap₂ ◌∷◌ (omega (arith, p, q)) (
      ap₂ ◌∷◌ (omega (arith, q, r))
        (ap₂ ◌∷◌ (omega (arith, r, t)) (decode_base64-encode_base64 s h)))
