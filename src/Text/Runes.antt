-- ===== src/Text/Runes.antt =====
-- `utf8.DecodeRune` at a border between two texts: a rune does not reach over a byte that continues
-- no rune.
use docpulse.Base.{
  ℕ, ◌≤◌, ◌<◌, ◌≡◌, ◌≢◌, refl, ◌∙◌, ap, Bool, true, false, [], ◌∷◌, ◌++◌, arith, append-nil,
  append_assoc, length-append, ltb, if◌then◌else◌, length,
}
use docpulse.Text.Utf8.{
  Bytes, is_cont, in_range, rune_error, decode2, decode3, decode4, decode_rune, is_space, utf8,
}

-- The text is empty, or no rune goes on in it.
abbrev pub StartsWell : Bytes → Type 0
StartsWell [] = Unit
StartsWell (b ∷ s) = is_cont b ≡ false

-- The text is empty, or ends in a byte that is a rune alone.
abbrev pub EndsWell : Bytes → Type 0
EndsWell [] = Unit
EndsWell (b ∷ []) = b < 0x80
EndsWell (b ∷ c ∷ s) = EndsWell (c ∷ s)

decode2-stop : (a c : ℕ) (s : Bytes) → is_cont c ≡ false → decode2 a (c ∷ s) ≡ (rune_error, 1)
unfolding decode2
decode2-stop a c s h = rw h

decode3-stop : (a c : ℕ) (s : Bytes) → is_cont c ≡ false → decode3 a (c ∷ s) ≡ (rune_error, 1)
unfolding decode3
decode3-stop a c [] h = refl
decode3-stop a c (d ∷ s) h = ground arith

decode3-stop_second :
    (a b c : ℕ) (s : Bytes) → is_cont c ≡ false → decode3 a (b ∷ c ∷ s) ≡ (rune_error, 1)
unfolding decode3
decode3-stop_second a b c s h = ground arith

decode4-stop : (a c : ℕ) (s : Bytes) → is_cont c ≡ false → decode4 a (c ∷ s) ≡ (rune_error, 1)
unfolding decode4
decode4-stop a c [] h = refl
decode4-stop a c (d ∷ []) h = refl
decode4-stop a c (d ∷ e ∷ s) h = ground arith

decode4-stop_second :
    (a b c : ℕ) (s : Bytes) → is_cont c ≡ false → decode4 a (b ∷ c ∷ s) ≡ (rune_error, 1)
unfolding decode4
decode4-stop_second a b c [] h = refl
decode4-stop_second a b c (d ∷ s) h = ground arith

decode4-stop_third :
    (a b c d : ℕ) (s : Bytes) → is_cont d ≡ false → decode4 a (b ∷ c ∷ d ∷ s) ≡ (rune_error, 1)
unfolding decode4
decode4-stop_third a b c d s h = ground arith

-- What follows and starts well does not change the first rune.
pub decode_rune-append :
    (p s : Bytes) → p ≢ [] → StartsWell s → decode_rune (p ++ s) ≡ decode_rune p
unfolding decode_rune decode2 decode3 decode4
decode_rune-append [] s n w = absurd (n refl)
decode_rune-append p [] n w = ap decode_rune (append-nil p)
decode_rune-append (a ∷ []) (c ∷ s) n w =
    rw (decode2-stop a c s w, decode3-stop a c s w, decode4-stop a c s w)
decode_rune-append (a ∷ b ∷ []) (c ∷ s) n w =
    rw (decode3-stop_second a b c s w, decode4-stop_second a b c s w)
decode_rune-append (a ∷ b ∷ c ∷ []) (d ∷ s) n w = rw (decode4-stop_third a b c d s w)
decode_rune-append (a ∷ b ∷ c ∷ d ∷ p) (e ∷ s) n w = refl

-- A rune is no wider than the text.
pub width-le-length : (s : Bytes) → (decode_rune s).1 ≤ length s
unfolding decode_rune decode2 decode3 decode4
width-le-length [] = omega arith
width-le-length (a ∷ []) = ground arith
width-le-length (a ∷ b ∷ []) = ground arith
width-le-length (a ∷ b ∷ c ∷ []) = ground arith
width-le-length (a ∷ b ∷ c ∷ d ∷ s) = ground arith

pub space_error : is_space rune_error ≡ false
unfolding utf8
space_error = refl

-- The four kinds of a first byte, of which each may decide by the space it gives.
abbrev by_kind : (b1 b2 b3 b4 : Bool) (one two three four : ℕ × ℕ) → ℕ × ℕ
by_kind b1 b2 b3 b4 one two three four =
    if b1
    then one
    else if b2
    then two
    else if b3
    then three
    else if b4
    then four
    else (rune_error, 1)

abbrev Extends : ℕ × ℕ → ℕ × ℕ → Type 0
Extends long short = is_space short.0 ≡ true → long ≡ short

by_kind-Extends :
    (b1 b2 b3 b4 : Bool) (one two three four two' three' four' : ℕ × ℕ)
    → Extends two two'
    → Extends three three'
    → Extends four four'
    → Extends (by_kind b1 b2 b3 b4 one two three four) (by_kind b1 b2 b3 b4 one two' three' four')
by_kind-Extends true b2 b3 b4 one two three four two' three' four' e2 e3 e4 h = refl
by_kind-Extends false true b3 b4 one two three four two' three' four' e2 e3 e4 h = e2 h
by_kind-Extends false false true b4 one two three four two' three' four' e2 e3 e4 h = e3 h
by_kind-Extends false false false true one two three four two' three' four' e2 e3 e4 h = e4 h
by_kind-Extends false false false false one two three four two' three' four' e2 e3 e4 h = refl

no_space : (x : ℕ × ℕ) → Extends x (rune_error, 1)
no_space x h = absurd (let e = space_error in cc)

-- A white space rune that is there remains when the text is extended.
pub decode_rune_space :
    (s t : Bytes) → is_space (decode_rune s).0 ≡ true → decode_rune (s ++ t) ≡ decode_rune s
unfolding decode_rune decode2 decode3 decode4
decode_rune_space [] t h = absurd (let e = space_error in cc)
decode_rune_space (a ∷ []) t h =
    by_kind-Extends (ltb a 0x80) (in_range 0xC2 0xDF a) (in_range 0xE0 0xEF a)
      (in_range 0xF0 0xF4 a) _ _ _ _ _ _ _ (no_space _) (no_space _) (no_space _) h
decode_rune_space (a ∷ b ∷ []) t h =
    by_kind-Extends (ltb a 0x80) (in_range 0xC2 0xDF a) (in_range 0xE0 0xEF a)
      (in_range 0xF0 0xF4 a) _ _ _ _ _ _ _ (λ e. refl) (no_space _) (no_space _) h
decode_rune_space (a ∷ b ∷ c ∷ []) t h =
    by_kind-Extends (ltb a 0x80) (in_range 0xC2 0xDF a) (in_range 0xE0 0xEF a)
      (in_range 0xF0 0xF4 a) _ _ _ _ _ _ _ (λ e. refl) (λ e. refl) (no_space _) h
decode_rune_space (a ∷ b ∷ c ∷ d ∷ s) t h = refl

-- The last byte of a text that ends well.
last_byte :
    (s : Bytes) → EndsWell s → s ≢ [] → (t : Bytes) × (z : ℕ) × (s ≡ t ++ z ∷ []) × (z < 0x80)
last_byte [] w n = absurd (n refl)
last_byte (a ∷ []) w n = ([], a, refl, w)
last_byte (a ∷ b ∷ s) w n =
    let (t, z, e, low) = last_byte (b ∷ s) w (λ k. cc) in (a ∷ t, z, ap (λ k. a ∷ k) e, low)

not_cont : (z : ℕ) → z < 0x80 → is_cont z ≡ false
not_cont z h = ground arith

width_before :
    (t : Bytes) (z : ℕ) (s : Bytes)
    → z < 0x80
    → (decode_rune ((t ++ z ∷ []) ++ s)).1 ≤ length (t ++ z ∷ [])
unfolding decode_rune
width_before [] z s low = ground arith
width_before (a ∷ t) z s low =
    let e : decode_rune (((a ∷ t) ++ z ∷ []) ++ s) ≡ decode_rune (a ∷ t) =
      ap decode_rune (append_assoc (a ∷ t) (z ∷ []) s)
      ∙ decode_rune-append (a ∷ t) (z ∷ s) (λ k. cc) (not_cont z low) in
    omega
      (arith, ap (λ (x : ℕ × ℕ). x.1) e, width-le-length (a ∷ t), length-append (a ∷ t) (z ∷ []))

-- The first rune of a text that ends well does not reach over its end.
pub width_of_EndsWell : (s t : Bytes) → EndsWell s → s ≢ [] → (decode_rune (s ++ t)).1 ≤ length s
width_of_EndsWell s t w n = let (r, z, e, low) = last_byte s w n in rw e (width_before r z t low)
