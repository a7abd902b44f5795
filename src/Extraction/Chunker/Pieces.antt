-- ===== src/Extraction/Chunker/Pieces.antt =====
-- The paragraphs and the sentences of internal/extraction/chunker.go have no white space at their ends.
use docpulse.Base.{
  ℕ, ◌≡◌, refl, sym, ◌∙◌, subst, inl, inr, Bool, true, false, ◌&&◌, List, [], ◌∷◌, ◌++◌, Bool-cases,
}
use docpulse.Text.{trim_space}
use docpulse.Text.Utf8.{Bytes, encode_rune}
use docpulse.Text.Trim.{IsTrimmed, trim_space-IsTrimmed}
use docpulse.Extraction.Chunker.{
  keep_trimmed, split_paragraphs, is_stop, starts_sentence, add_trimmed, sentence_loop,
  split_sentences,
}
use docpulse.Extraction.Chunker.Held.{IsItem}

IsTrimmed-item :
    (q piece : Bytes) (v rest : _)
    → trim_space q ≡ v
    → (IsItem piece rest → IsTrimmed piece)
    → IsItem piece (add_trimmed v rest)
    → IsTrimmed piece
IsTrimmed-item q piece [] rest e later i = later i
IsTrimmed-item q piece (b ∷ t) rest e later (inl same) =
    let whole : trim_space q ≡ piece = e ∙ sym same in
    subst IsTrimmed whole (trim_space-IsTrimmed q (λ n. let k : (b ∷ t) ≡ [] = sym e ∙ n in cc))
IsTrimmed-item q piece (b ∷ t) rest e later (inr i) = later i

pub keep_trimmed-cons :
    (q : Bytes) (qs : List Bytes) (v : Bytes)
    → trim_space q ≡ v
    → keep_trimmed (q ∷ qs) ≡ add_trimmed v (keep_trimmed qs)
unfolding keep_trimmed
keep_trimmed-cons q qs [] e = rw (keep_trimmed, e)
keep_trimmed-cons q qs (b ∷ t) e = rw (keep_trimmed, e)

keep_trimmed-IsTrimmed :
    (qs : List Bytes) (piece : Bytes) → IsItem piece (keep_trimmed qs) → IsTrimmed piece
unfolding keep_trimmed
keep_trimmed-IsTrimmed [] piece i = absurd i
keep_trimmed-IsTrimmed (q ∷ qs) piece i =
    IsTrimmed-item q piece (trim_space q) (keep_trimmed qs) refl (keep_trimmed-IsTrimmed qs piece)
      (subst (IsItem piece) (keep_trimmed-cons q qs (trim_space q) refl) i)

pub split_paragraphs-IsTrimmed :
    (text piece : Bytes) → IsItem piece (split_paragraphs text) → IsTrimmed piece
unfolding split_paragraphs
split_paragraphs-IsTrimmed text piece i = keep_trimmed-IsTrimmed _ piece i

pub sentence_loop_stop :
    (table : ℕ → Bool) (current : Bytes) (r : ℕ) (rs : List ℕ)
    → (is_stop r && starts_sentence table rs) ≡ true
    → sentence_loop table current (r ∷ rs)
      ≡ add_trimmed (trim_space (current ++ encode_rune r)) (sentence_loop table [] rs)
unfolding sentence_loop
sentence_loop_stop table current r rs e = rw (sentence_loop, e)

pub sentence_loop_go :
    (table : ℕ → Bool) (current : Bytes) (r : ℕ) (rs : List ℕ)
    → (is_stop r && starts_sentence table rs) ≡ false
    → sentence_loop table current (r ∷ rs) ≡ sentence_loop table (current ++ encode_rune r) rs
unfolding sentence_loop
sentence_loop_go table current r rs e = rw (sentence_loop, e)

sentence_loop-IsTrimmed :
    (table : ℕ → Bool) (current : Bytes) (rs : List ℕ) (piece : Bytes)
    → IsItem piece (sentence_loop table current rs)
    → IsTrimmed piece
unfolding sentence_loop
sentence_loop-IsTrimmed table current [] piece i =
    IsTrimmed-item current piece (trim_space current) [] refl (λ k. absurd k) i
sentence_loop-IsTrimmed table current (r ∷ rs) piece i =
    elim (Bool-cases (is_stop r && starts_sentence table rs)) [
      | inl y ↦
          IsTrimmed-item (current ++ encode_rune r) piece (trim_space (current ++ encode_rune r))
            (sentence_loop table [] rs) refl (sentence_loop-IsTrimmed table [] rs piece)
            (subst (IsItem piece) (sentence_loop_stop table current r rs y) i)
      | inr n ↦
          sentence_loop-IsTrimmed table (current ++ encode_rune r) rs piece
            (subst (IsItem piece) (sentence_loop_go table current r rs n) i)
    ]

pub split_sentences-IsTrimmed :
    (table : ℕ → Bool) (text piece : Bytes)
    → IsItem piece (split_sentences table text)
    → IsTrimmed piece
unfolding split_sentences
split_sentences-IsTrimmed table text piece i = sentence_loop-IsTrimmed table [] _ piece i
