-- ===== src/Text/Visible.antt =====
-- The runes of a text that are no white space: what trimming and splitting keep.
use docpulse.Base.{
  ℕ, zero, suc, ◌-◌, ◌≤◌, ◌≡◌, refl, sym, ◌∙◌, ap, inl, inr, true, false, List, [], ◌∷◌, ◌++◌,
  arith, append-nil, length, length-drop, drop, if◌then◌else◌, Bool-cases,
}
use docpulse.Text.{space_width, trim_left, drop_blank, trim_right, trim_space}
use docpulse.Text.Utf8.{Bytes, decode_rune, is_space, runes, is_cont}
use docpulse.Text.Runes.{space_error, StartsWell, decode_rune-append, width-le-length}
use docpulse.Text.Trim.{zero_or_suc, trim_left_stop, trim_left_skip, trim_right_cases}

abbrev pub not_blank : List ℕ → List ℕ
not_blank [] = []
not_blank (r ∷ rs) = if is_space r then not_blank rs else r ∷ not_blank rs

pub not_blank-append : (rs qs : List ℕ) → not_blank (rs ++ qs) ≡ not_blank rs ++ not_blank qs
not_blank-append [] qs = refl
not_blank-append (r ∷ rs) qs = elim (Bool-cases (is_space r)) [
  | inl e ↦ rw e (not_blank-append rs qs)
  | inr e ↦ rw e (ap (λ k. r ∷ k) (not_blank-append rs qs))
]

unfoldable pub visible : Bytes → List ℕ
visible s = not_blank (runes 0 s)

runes-cons :
    (b : ℕ) (s : Bytes)
    → runes 0 (b ∷ s) ≡ (decode_rune (b ∷ s)).0 ∷ runes ((decode_rune (b ∷ s)).1 - 1) s
unfolding runes
runes-cons b s = refl

-- A text that starts well is decoded by itself.
pub runes-append :
    (k : ℕ) (s t : Bytes) → k ≤ length s → StartsWell t → runes k (s ++ t) ≡ runes k s ++ runes 0 t
unfolding runes
runes-append zero [] t h w = refl
runes-append (suc k) [] t h w = absurd (omega arith)
runes-append (suc k) (b ∷ s) t h w = runes-append k s t (omega arith) w
runes-append zero (b ∷ s) t h w = rw (decode_rune-append (b ∷ s) t (λ e. cc) w) (
    ap (λ k. (decode_rune (b ∷ s)).0 ∷ k)
      (runes-append ((decode_rune (b ∷ s)).1 - 1) s t (omega (arith, width-le-length (b ∷ s))) w))

pub visible-append : (s t : Bytes) → StartsWell t → visible (s ++ t) ≡ visible s ++ visible t
unfolding visible
visible-append s t w =
    ap not_blank (runes-append 0 s t (omega arith) w) ∙ not_blank-append (runes 0 s) (runes 0 t)

space_of_width :
    (s : Bytes) (k : ℕ)
    → space_width s ≡ suc k
    → (is_space (decode_rune s).0 ≡ true) × ((decode_rune s).1 ≡ suc k)
unfolding space_width
space_of_width s k h = elim (Bool-cases (is_space (decode_rune s).0)) [
  | inl e ↦ (e, rw e at h)
  | inr e ↦ absurd (let f : 0 ≡ suc k = rw e at h in omega (arith, f))
]

pred : (k : ℕ) → suc k - 1 ≡ k
pred k = omega arith

not_blank-trim_left :
    (k : ℕ) (s : Bytes) → not_blank (runes 0 (trim_left k s)) ≡ not_blank (runes k s)
unfolding trim_left runes
not_blank-trim_left k [] = refl
not_blank-trim_left (suc k) (b ∷ s) = not_blank-trim_left k s
not_blank-trim_left zero (b ∷ s) = elim (zero_or_suc (space_width (b ∷ s))) [
  | inl e ↦ ap (λ t. not_blank (runes 0 t)) (trim_left_stop b s e)
  | inr (k, e) ↦
      let (blank, wide) = space_of_width (b ∷ s) k e in
      ap (λ t. not_blank (runes 0 t)) (trim_left_skip b k s e)
      ∙ not_blank-trim_left k s
      ∙ sym (rw (blank, wide) (ap (λ n. not_blank (runes n s)) (pred k)))
]

-- A byte that continues a rune starts none.
starts_of_space : (b : ℕ) (s : Bytes) → is_space (decode_rune (b ∷ s)).0 ≡ true → is_cont b ≡ false
unfolding decode_rune
starts_of_space b s h = elim (Bool-cases (is_cont b)) [
  | inl e ↦ absurd (ground (arith, space_error))
  | inr e ↦ e
]

pub runes_beyond : (k : ℕ) (s : Bytes) → length s ≤ k → runes k s ≡ []
unfolding runes
runes_beyond k [] h = refl
runes_beyond zero (b ∷ s) h = absurd (omega arith)
runes_beyond (suc k) (b ∷ s) h = runes_beyond k s (omega arith)

-- What is trimmed at the end is blank.
record Trimmed (s t : Bytes) : Type 0 where
  rest : Bytes
  parts : t ++ rest ≡ s
  starts : StartsWell rest
  blank : visible rest ≡ []

drop_blank_space :
    (b : ℕ) (s : Bytes)
    → drop_blank (b ∷ s) ≡ []
    → (is_space (decode_rune (b ∷ s)).0 ≡ true) × (length (b ∷ s) ≤ (decode_rune (b ∷ s)).1)
unfolding drop_blank
drop_blank_space b s h = elim (zero_or_suc (space_width (b ∷ s))) [
  | inl e ↦ absurd (let f : (b ∷ s) ≡ [] = rw (drop_blank, e) at h in cc)
  | inr (k, e) ↦
      let (blank, wide) = space_of_width (b ∷ s) k e in
      (
        blank,
        omega (arith, wide, length-drop (suc k) (b ∷ s), all_gone k (rw (drop_blank, e) at h)),
      )
]
  where
    all_gone :
        (k : ℕ)
        → (elim (drop (suc k) (b ∷ s)) as (λ x. Bytes) [ [] ↦ [] | ◌∷◌ c t ↦ b ∷ s ]) ≡ []
        → length (drop (suc k) (b ∷ s)) ≡ 0
    all_gone k e = ground arith

one_space :
    (b : ℕ) (s : Bytes)
    → is_space (decode_rune (b ∷ s)).0 ≡ true
    → length (b ∷ s) ≤ (decode_rune (b ∷ s)).1
    → visible (b ∷ s) ≡ []
unfolding visible runes
one_space b s blank wide =
    rw blank (ap not_blank (runes_beyond ((decode_rune (b ∷ s)).1 - 1) s (omega arith)))

trim_right-Trimmed : (s : Bytes) → Trimmed s (trim_right s)
unfolding trim_right visible runes
trim_right-Trimmed [] = record { rest = []; parts = refl; starts = tt; blank = refl }
trim_right-Trimmed (b ∷ s) =
    let t = trim_right-Trimmed s in
    elim (trim_right_cases b s) [
      | inl e ↦
          let (blank, wide) = drop_blank_space b (trim_right s) e in
          rw e (record {
            rest = b ∷ s;
            parts = refl;
            starts = starts_of_space b (trim_right s) blank;
            blank =
                ap (λ k. visible (b ∷ k)) (sym t.parts)
                ∙ visible-append (b ∷ trim_right s) t.rest t.starts
                ∙ rw (one_space b (trim_right s) blank wide) t.blank;
          })
      | inr e ↦ rw e (record {
        rest = t.rest;
        parts = ap (λ k. b ∷ k) t.parts;
        starts = t.starts;
        blank = t.blank;
      })
    ]

visible-trim_right : (s : Bytes) → visible (trim_right s) ≡ visible s
visible-trim_right s =
    let t = trim_right-Trimmed s in
    sym (
      ap visible (sym t.parts)
      ∙ visible-append (trim_right s) t.rest t.starts
      ∙ rw t.blank (append-nil _))

-- Trimming drops nothing but white space.
pub visible-trim_space : (s : Bytes) → visible (trim_space s) ≡ visible s
unfolding trim_space visible
visible-trim_space s = visible-trim_right (trim_left 0 s) ∙ not_blank-trim_left 0 s
