-- ===== src/Text/Lengths.antt =====
-- Trimming gives a part of the text.
use docpulse.Base.{ℕ, zero, suc, ◌≤◌, [], ◌∷◌, arith, length}
use docpulse.Text.{trim_left, drop_blank, trim_right, trim_space, space_width}
use docpulse.Text.Utf8.{Bytes}

length-trim_left-le : (k : ℕ) (s : Bytes) → length (trim_left k s) ≤ length s
unfolding trim_left
length-trim_left-le k [] = omega arith
length-trim_left-le (suc k) (b ∷ s) = omega (arith, length-trim_left-le k s)
length-trim_left-le zero (b ∷ s) =
    elim (space_width (b ∷ s))
      as (λ w.
        length (elim w as (λ x. Bytes) [ zero ↦ b ∷ s | suc k ↦ trim_left k s ]) ≤ suc (length s)) [
          | zero ↦ omega arith
          | suc k ↦ omega (arith, length-trim_left-le k s)
        ]

length-drop_blank-le : (s : Bytes) → length (drop_blank s) ≤ length s
unfolding drop_blank
length-drop_blank-le s = ground arith

length-trim_right-le : (s : Bytes) → length (trim_right s) ≤ length s
unfolding trim_right
length-trim_right-le [] = omega arith
length-trim_right-le (b ∷ s) =
    omega (arith, length-drop_blank-le (b ∷ trim_right s), length-trim_right-le s)

pub length-trim_space-le : (s : Bytes) → length (trim_space s) ≤ length s
unfolding trim_space
length-trim_space-le s =
    omega (arith, length-trim_right-le (trim_left 0 s), length-trim_left-le 0 s)
