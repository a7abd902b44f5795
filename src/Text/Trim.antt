-- ===== src/Text/Trim.antt =====
-- `strings.TrimSpace` leaves a trimmed text in the middle of another one as it is.
use docpulse.Base.{
  ℕ, zero, suc, ◌≤◌, ◌<◌, ◌≡◌, ◌≢◌, refl, sym, ◌∙◌, ap, subst, ◌⊎◌, inl, inr, [], ◌∷◌, ◌++◌, arith,
  append-nil, length, length-append, drop, length-drop, Bool-cases,
}
use docpulse.Text.Utf8.{Bytes, decode_rune, is_space}
use docpulse.Text.Runes.{
  StartsWell, EndsWell, decode_rune-append, width-le-length, decode_rune_space, width_of_EndsWell,
}
use docpulse.Text.{space_width, trim_left, drop_blank, trim_right, trim_space}

space_width_le : (s : Bytes) (n : ℕ) → (decode_rune s).1 ≤ n → space_width s ≤ n
unfolding space_width
space_width_le s n h = ground arith

space_width-append : (p s : Bytes) → p ≢ [] → StartsWell s → space_width (p ++ s) ≡ space_width p
unfolding space_width
space_width-append p s n w = rw (decode_rune-append p s n w)

space_width_zero : (s t : Bytes) → space_width (s ++ t) ≡ 0 → space_width s ≡ 0
unfolding space_width
space_width_zero s t h = elim (Bool-cases (is_space (decode_rune s).0)) [
  | inl e ↦ rw (decode_rune_space s t e) at h
  | inr e ↦ rw e
]

pub zero_or_suc : (n : ℕ) → (n ≡ 0) ⊎ ((k : ℕ) × (n ≡ suc k))
zero_or_suc zero = inl refl
zero_or_suc (suc k) = inr (k, refl)

pub trim_left_stop : (b : ℕ) (s : Bytes) → space_width (b ∷ s) ≡ 0 → trim_left zero (b ∷ s) ≡ b ∷ s
unfolding trim_left
trim_left_stop b s e = rw (trim_left, e)

pub trim_left_skip :
    (b k : ℕ) (s : Bytes) → space_width (b ∷ s) ≡ suc k → trim_left zero (b ∷ s) ≡ trim_left k s
unfolding trim_left
trim_left_skip b k s e = rw (trim_left, e)

EndsWell-tail : (a : ℕ) (s : Bytes) → EndsWell (a ∷ s) → EndsWell s
EndsWell-tail a [] w = tt
EndsWell-tail a (b ∷ s) w = w

-- The white space in front of a text is dropped, and nothing of the text.
trim_left-before :
    (k : ℕ) (s t : Bytes)
    → k ≤ length s
    → EndsWell s
    → t ≢ []
    → space_width t ≡ 0
    → (r : Bytes) × (trim_left k (s ++ t) ≡ r ++ t) × EndsWell r
unfolding trim_left
trim_left-before k s [] h w n z = absurd (n refl)
trim_left-before (suc k) [] (b ∷ t) h w n z = absurd (omega (arith, h))
trim_left-before zero [] (b ∷ t) h w n z = ([], trim_left_stop b t z, tt)
trim_left-before (suc k) (a ∷ s) (b ∷ t) h w n z =
    trim_left-before k s (b ∷ t) (omega (arith, h)) (EndsWell-tail a s w) n z
trim_left-before zero (a ∷ s) (b ∷ t) h w n z =
    let most =
      space_width_le ((a ∷ s) ++ b ∷ t) _ (width_of_EndsWell (a ∷ s) (b ∷ t) w (λ k. cc)) in
    elim (zero_or_suc (space_width ((a ∷ s) ++ b ∷ t))) [
      | inl e ↦ (a ∷ s, trim_left_stop a (s ++ b ∷ t) e, w)
      | inr (k, e) ↦
          let (r, f, v) =
            trim_left-before k s (b ∷ t) (omega (arith, most, e)) (EndsWell-tail a s w) n z in
          (r, trim_left_skip a k (s ++ b ∷ t) e ∙ f, v)
    ]

trim_left_space : (k : ℕ) (s : Bytes) → (trim_left k s ≡ []) ⊎ (space_width (trim_left k s) ≡ 0)
unfolding trim_left
trim_left_space k [] = inl refl
trim_left_space (suc k) (b ∷ s) = trim_left_space k s
trim_left_space zero (b ∷ s) = elim (zero_or_suc (space_width (b ∷ s))) [
  | inl e ↦ inr (ap space_width (trim_left_stop b s e) ∙ e)
  | inr (k, e) ↦ rw (trim_left_skip b k s e) (trim_left_space k s)
]

pub drop_blank_cases : (s : Bytes) → (drop_blank s ≡ []) ⊎ (drop_blank s ≡ s)
unfolding drop_blank
drop_blank_cases s = ground arith

-- A text with something behind its first rune is kept.
drop_blank_keeps : (s : Bytes) → space_width s < length s → drop_blank s ≡ s
unfolding drop_blank
drop_blank_keeps s h = elim (zero_or_suc (space_width s)) [
  | inl e ↦ rw (drop_blank, e)
  | inr (k, e) ↦
      rw (drop_blank, e) (some_left (drop (suc k) s) (omega (arith, length-drop (suc k) s, e, h)))
]
  where
    some_left : (r : Bytes) → 0 < length r → (elim r as (λ x. Bytes) [ [] ↦ [] | ◌∷◌ b t ↦ s ]) ≡ s
    some_left [] l = absurd (omega (arith, l))
    some_left (b ∷ r) l = refl

pub trim_right_cases :
    (b : ℕ) (s : Bytes) → (trim_right (b ∷ s) ≡ []) ⊎ (trim_right (b ∷ s) ≡ b ∷ trim_right s)
unfolding trim_right
trim_right_cases b s = drop_blank_cases (b ∷ trim_right s)

trim_right_twice : (s : Bytes) → trim_right (trim_right s) ≡ trim_right s
unfolding trim_right
trim_right_twice [] = refl
trim_right_twice (b ∷ s) = elim (trim_right_cases b s) [
  | inl e ↦ rw e
  | inr e ↦ ap trim_right e ∙ rw (trim_right_twice s)
]

trim_right_prefix : (s : Bytes) → (t : Bytes) × (trim_right s ++ t ≡ s)
unfolding trim_right
trim_right_prefix [] = ([], refl)
trim_right_prefix (b ∷ s) = elim (trim_right_cases b s) [
  | inl e ↦ (b ∷ s, ap (λ k. k ++ b ∷ s) e)
  | inr e ↦ let (t, f) = trim_right_prefix s in (t, ap (λ k. k ++ t) e ∙ ap (λ k. b ∷ k) f)
]

trim_right_tail : (b : ℕ) (s : Bytes) → trim_right (b ∷ s) ≡ b ∷ s → trim_right s ≡ s
trim_right_tail b s h = elim (trim_right_cases b s) [
  | inl e ↦ absurd (let f : (b ∷ s) ≡ [] = sym h ∙ e in cc)
  | inr e ↦ (let f : (b ∷ trim_right s) ≡ b ∷ s = sym e ∙ h in cc)
]

StartsWell-trim_right : (s : Bytes) → StartsWell s → StartsWell (trim_right s)
unfolding trim_right
StartsWell-trim_right [] w = tt
StartsWell-trim_right (b ∷ s) w = elim (trim_right_cases b s) [
  | inl e ↦ subst StartsWell (sym e) tt
  | inr e ↦ subst StartsWell (sym e) w
]

-- A text that ends in no white space, in front of what starts well.
drop_blank-append :
    (p t : Bytes) → p ≢ [] → drop_blank p ≡ p → StartsWell t → drop_blank (p ++ t) ≡ p ++ t
drop_blank-append p [] n h w = rw append-nil h
drop_blank-append p (c ∷ t) n h w = drop_blank_keeps (p ++ c ∷ t) (
    omega (
      arith,
      space_width-append p (c ∷ t) n w,
      space_width_le p (length p) (width-le-length p),
      length-append p (c ∷ t),
    ))

trim_right-append :
    (p s : Bytes)
    → p ≢ []
    → trim_right p ≡ p
    → StartsWell s
    → trim_right (p ++ s) ≡ p ++ trim_right s
unfolding trim_right
trim_right-append [] s n h w = absurd (n refl)
trim_right-append (b ∷ []) s n h w =
    drop_blank-append (b ∷ []) (trim_right s) n h (StartsWell-trim_right s w)
trim_right-append (b ∷ c ∷ p) s n h w =
    let rest = trim_right_tail b (c ∷ p) h in
    let inner = trim_right-append (c ∷ p) s (λ k. cc) rest w in
    let kept : drop_blank (b ∷ c ∷ p) ≡ b ∷ c ∷ p = ap (λ k. drop_blank (b ∷ k)) (sym rest) ∙ h in
    ap (λ k. drop_blank (b ∷ k)) inner
    ∙ drop_blank-append (b ∷ c ∷ p) (trim_right s) n kept (StartsWell-trim_right s w)

pub length_ne_zero : (s : Bytes) → s ≢ [] → 0 < length s
length_ne_zero [] n = absurd (n refl)
length_ne_zero (b ∷ s) n = omega arith

-- What stands in front of a text that is not blank.
trim_right-before :
    (s t : Bytes) → EndsWell s → trim_right t ≢ [] → trim_right (s ++ t) ≡ s ++ trim_right t
unfolding trim_right
trim_right-before [] t w n = refl
trim_right-before (a ∷ s) t w n =
    let inner = trim_right-before s t (EndsWell-tail a s w) n in
    ap (λ k. drop_blank (a ∷ k)) inner
    ∙ drop_blank_keeps ((a ∷ s) ++ trim_right t) (
        omega (
          arith,
          space_width_le ((a ∷ s) ++ trim_right t) _
              (width_of_EndsWell (a ∷ s) (trim_right t) w (λ k. cc)),
          length-append (a ∷ s) (trim_right t),
          length_ne_zero (trim_right t) n,
        ))

-- A text without white space at its ends.
pub record IsTrimmed (p : Bytes) : Type 0 where
  pub present : p ≢ []
  pub left : space_width p ≡ 0
  pub right : trim_right p ≡ p

pub trim_space-IsTrimmed : (s : Bytes) → trim_space s ≢ [] → IsTrimmed (trim_space s)
unfolding trim_space trim_right
trim_space-IsTrimmed s n =
    let t = trim_left 0 s in
    let (z, e) = trim_right_prefix t in
    record {
      present = n;
      left = elim (trim_left_space 0 s) [
        | inl f ↦ absurd (n (ap trim_right f))
        | inr f ↦ space_width_zero (trim_right t) z (ap space_width e ∙ f)
      ];
      right = trim_right_twice t;
    }

append_ne_nil : (p t : Bytes) → p ≢ [] → p ++ t ≢ []
append_ne_nil [] t n e = n refl
append_ne_nil (b ∷ p) t n e = cc

-- A trimmed text stays in a text that is trimmed around it.
pub trim_space-keeps :
    (s p t : Bytes)
    → EndsWell s
    → IsTrimmed p
    → StartsWell t
    → (s' : Bytes) × (t' : Bytes) × (trim_space (s ++ (p ++ t)) ≡ s' ++ (p ++ t'))
unfolding trim_space
trim_space-keeps s p t w m v =
    let blank = space_width-append p t m.present v ∙ m.left in
    let (r, e, w') =
      trim_left-before 0 s (p ++ t) (omega arith) w (append_ne_nil p t m.present) blank in
    let inner = trim_right-append p t m.present m.right v in
    let full : trim_right (p ++ t) ≢ [] =
      λ f. append_ne_nil p (trim_right t) m.present (sym inner ∙ f) in
    (
      r,
      trim_right t,
      ap trim_right e ∙ trim_right-before r (p ++ t) w' full ∙ ap (λ k. r ++ k) inner,
    )
