-- ===== src/Text/Scalar.antt =====
-- `utf8.AppendRune` and `utf8.DecodeRune` take each other back.
use docpulse.Base.{ℕ, zero, suc, ◌≤◌, ◌<◌, ◌≡◌, ◌≢◌, ap, refl, ◌⊎◌, [], ◌∷◌, arith, All, length}
use docpulse.Text.Utf8.{Bytes, decode_rune, decode2, decode3, decode4, encode_rune, runes}
use docpulse.Text.Runes.{StartsWell}
use docpulse.Text.Visible.{not_blank, visible, runes_beyond}

-- A Unicode scalar value.
abbrev pub IsScalar : ℕ → Type 0
IsScalar r = (r < 0xD800) ⊎ ((0xE000 ≤ r) × (r < 0x110000))

decode2-IsScalar : (b : ℕ) (s : Bytes) → b ≤ 0xDF → IsScalar (decode2 b s).0
unfolding decode2
decode2-IsScalar b [] h = ground arith
decode2-IsScalar b (c ∷ s) h = ground arith

decode3-IsScalar : (b : ℕ) (s : Bytes) → 0xE0 ≤ b → b ≤ 0xEF → IsScalar (decode3 b s).0
unfolding decode3
decode3-IsScalar b [] g h = ground arith
decode3-IsScalar b (c ∷ []) g h = ground arith
decode3-IsScalar b (c ∷ d ∷ s) g h = ground arith

decode4-IsScalar : (b : ℕ) (s : Bytes) → 0xF0 ≤ b → b ≤ 0xF4 → IsScalar (decode4 b s).0
unfolding decode4
decode4-IsScalar b [] g h = ground arith
decode4-IsScalar b (c ∷ []) g h = ground arith
decode4-IsScalar b (c ∷ d ∷ []) g h = ground arith
decode4-IsScalar b (c ∷ d ∷ e ∷ s) g h = ground arith

decode_rune-IsScalar : (s : Bytes) → IsScalar (decode_rune s).0
unfolding decode_rune
decode_rune-IsScalar [] = ground arith
decode_rune-IsScalar (b ∷ s) =
    ground (arith, decode2-IsScalar b s, decode3-IsScalar b s, decode4-IsScalar b s)

pub runes-IsScalar : (k : ℕ) (s : Bytes) → All IsScalar (runes k s)
unfolding runes
runes-IsScalar k [] = tt
runes-IsScalar (suc k) (b ∷ s) = runes-IsScalar k s
runes-IsScalar zero (b ∷ s) = (decode_rune-IsScalar (b ∷ s), runes-IsScalar _ s)

-- A scalar value is decoded from its encoding, which it fills.
decode_rune-encode_rune :
    (r : ℕ) → IsScalar r → decode_rune (encode_rune r) ≡ (r, length (encode_rune r))
unfolding decode_rune decode2 decode3 decode4 encode_rune
decode_rune-encode_rune r h = ground arith

pub StartsWell-encode_rune : (r : ℕ) → IsScalar r → StartsWell (encode_rune r)
unfolding encode_rune
StartsWell-encode_rune r h = ground arith

visible_whole :
    (s : Bytes) (r : ℕ) → s ≢ [] → decode_rune s ≡ (r, length s) → visible s ≡ not_blank (r ∷ [])
unfolding visible runes
visible_whole [] r n e = absurd (n refl)
visible_whole (b ∷ s) r n e = rw e (ap (λ k. not_blank (r ∷ k)) (runes_beyond _ s (omega arith)))

encode_rune_present : (r : ℕ) → encode_rune r ≢ []
unfolding encode_rune
encode_rune_present r = ground arith

pub visible-encode_rune : (r : ℕ) → IsScalar r → visible (encode_rune r) ≡ not_blank (r ∷ [])
visible-encode_rune r h =
    visible_whole (encode_rune r) r (encode_rune_present r) (decode_rune-encode_rune r h)
