-- ===== src/Config/Numbers.antt =====
-- `getEnvInt` of internal/config/config.go reads what `%d` prints.
use text.Mathlib.Text.{◌==◌ as str_eq}
use text.Mathlib.TextEquality.{eq_iff}
use text.Mathlib.TextLemmas.{cons-append, nil-append}
use Prim.Native.Char.{Char}
use Prim.Native.String
use docpulse.Base.{
  ℕ, zero, suc, ◌+◌, ◌*◌, ◌/◌, ◌%◌, ◌^◌, ◌<◌, ◌≡◌, refl, sym, ap, ◌∙◌, false, some, [], ◌∷◌, String,
  arith, ltb, lt→ltb, ◌==◌, Bool-cases, inl, inr, tests,
}
use docpulse.Base.Int.{ℤ, pos, negsuc, decimal, digits, digit}
use docpulse.Text.Number.{atoi, digits_value, magnitude, positive, negative}
use docpulse.Text.Utf8.{Bytes, str, utf8}
use docpulse.Config.{Environment, get_env_int, configuration}

-- A text of one character in front of another.
one_char : (c : Char) (out : String) → String.◌++◌ (String.◌∷◌ c String.[]) out ≡ String.◌∷◌ c out
one_char c out = cons-append c String.[] out ∙ ap (String.◌∷◌ c) (nil-append out)

str-digit : (d : ℕ) (out : String) → d < 10 → str (String.◌++◌ (digit d) out) ≡ (48 + d) ∷ str out
unfolding digit utf8
str-digit zero out h = ap str (one_char "0" out)
str-digit (suc zero) out h = ap str (one_char "1" out)
str-digit (suc (suc zero)) out h = ap str (one_char "2" out)
str-digit (suc (suc (suc zero))) out h = ap str (one_char "3" out)
str-digit (suc (suc (suc (suc zero)))) out h = ap str (one_char "4" out)
str-digit (suc (suc (suc (suc (suc zero))))) out h = ap str (one_char "5" out)
str-digit (suc (suc (suc (suc (suc (suc zero)))))) out h = ap str (one_char "6" out)
str-digit (suc (suc (suc (suc (suc (suc (suc zero))))))) out h = ap str (one_char "7" out)
str-digit (suc (suc (suc (suc (suc (suc (suc (suc zero)))))))) out h = ap str (one_char "8" out)
str-digit (suc (suc (suc (suc (suc (suc (suc (suc (suc zero))))))))) out h =
    ap str (one_char "9" out)
str-digit (suc (suc (suc (suc (suc (suc (suc (suc (suc (suc d)))))))))) out h =
    absurd (omega (arith, h))

digits_value-digit :
    (acc d : ℕ) (s : Bytes)
    → d < 10
    → digits_value acc ((48 + d) ∷ s) ≡ digits_value (acc * 10 + d) s
digits_value-digit acc d s h = ground arith

-- The text of a number starts with a digit, and its digits have its value.
digits-value :
    (f n : ℕ) (out : String)
    → n < f
    → (digits_value 0 (str (digits f n out)) ≡ digits_value n (str out))
      × (d : ℕ) × (s : Bytes) × (d < 10)
      × (str (digits f n out) ≡ (48 + d) ∷ s)
unfolding digits
digits-value zero n out h = absurd (omega (arith, h))
digits-value (suc f) n out h = elim (Bool-cases (ltb n 10)) [
  | inl small ↦
      let low : n < 10 = omega tests in
      let e = str-digit n out low in
      let from_zero : 0 * 10 + n ≡ n = omega arith in
      rw (small, e)
        (
          digits_value-digit 0 n (str out) low ∙ ap (λ k. digits_value k (str out)) from_zero,
          n,
          str out,
          low,
          refl,
        )
  | inr big ↦
      let (v, d, s, low, e) =
        digits-value f (n / 10) (String.◌++◌ (digit (n % 10)) out) (omega tests) in
      let last = str-digit (n % 10) out (omega arith) in
      let whole : n / 10 * 10 + n % 10 ≡ n = omega arith in
      rw big (
        v
            ∙ rw last (digits_value-digit (n / 10) (n % 10) (str out) (omega arith))
            ∙ ap (λ k. digits_value k (str out)) whole,
        d,
        s,
        low,
        e,
      )
]

-- The text of an `int`, and the range of one of 64 bits.
abbrev pub int_text : ℤ → String
int_text (pos n) = decimal n
int_text (negsuc n) = String.◌++◌ "-" (decimal (n + 1))

abbrev pub IsInt64 : ℤ → Type 0
IsInt64 (pos n) = n < 2 ^ 63
IsInt64 (negsuc n) = n < 2 ^ 63

decimal-value :
    (n : ℕ)
    → (d : ℕ) × (s : Bytes) × (d < 10)
      × (str (decimal n) ≡ (48 + d) ∷ s)
      × (digits_value 0 ((48 + d) ∷ s) ≡ some n)
unfolding decimal utf8
decimal-value n =
    let (v, d, s, low, e) = digits-value (n + 1) n "" (omega arith) in
    (d, s, low, e, ap (digits_value 0) (sym e) ∙ v)

atoi-digit :
    (d : ℕ) (s : Bytes) → d < 10 → atoi ((48 + d) ∷ s) ≡ positive (magnitude ((48 + d) ∷ s))
atoi-digit d s h =
    let minus : (48 + d == 0x2D) ≡ false = ground arith in
    let plus : (48 + d == 0x2B) ≡ false = ground arith in rw (minus, plus)

positive_small : (n : ℕ) → n < 2 ^ 63 → positive (some n) ≡ some (pos n)
positive_small n h = rw (lt→ltb n (2 ^ 63) h)

negative_small : (n : ℕ) → n < 2 ^ 63 → negative (some (suc n)) ≡ some (negsuc n)
negative_small n h = rw (lt→ltb n (2 ^ 63) h)

str-minus : (s : String) → str (String.◌++◌ "-" s) ≡ 0x2D ∷ str s
unfolding utf8
str-minus s = ap str (one_char "-" s)

atoi-int_text : (z : ℤ) → IsInt64 z → atoi (str (int_text z)) ≡ some z
atoi-int_text (pos n) h =
    let (d, s, low, e, v) = decimal-value n in
    ap atoi e ∙ atoi-digit d s low ∙ ap positive v ∙ positive_small n h
atoi-int_text (negsuc n) h =
    let (d, s, low, e, v) = decimal-value (n + 1) in
    let next : n + 1 ≡ suc n = omega arith in
    ap atoi (str-minus (decimal (n + 1)))
    ∙ ap (λ t. negative (magnitude t)) e
    ∙ ap negative (v ∙ ap some next)
    ∙ negative_small n h

ne_nil_of_byte : (t : String) (b : ℕ) (s : Bytes) → str t ≡ b ∷ s → str_eq t "" ≡ false
unfolding utf8
ne_nil_of_byte t b s e = elim (Bool-cases (str_eq t "")) [
  | inl h ↦
      let same : t ≡ "" = (eq_iff t "").0 h in
      absurd (let k : (b ∷ s) ≡ [] = sym e ∙ ap str same in cc)
  | inr h ↦ h
]

int_text_ne_nil : (z : ℤ) → str_eq (int_text z) "" ≡ false
int_text_ne_nil (pos n) = let (d, s, low, e, v) = decimal-value n in ne_nil_of_byte _ _ _ e
int_text_ne_nil (negsuc n) = ne_nil_of_byte _ _ _ (str-minus (decimal (n + 1)))

-- A variable that holds the decimal text of a 64-bit integer, with a minus sign where it is
-- negative, is read as that integer, whatever the fallback.
pub get_env_int-int_text :
    (env : Environment) (key : String) (fallback z : ℤ)
    → IsInt64 z
    → env key ≡ int_text z
    → get_env_int env key fallback ≡ z
unfolding configuration
get_env_int-int_text env key fallback z h e = rw (e, int_text_ne_nil z, atoi-int_text z h)
