-- ===== src/Extraction/Chunker/Overlap.antt =====
-- `getOverlap` of internal/extraction/chunker.go.
use docpulse.Base.{
  ℕ, zero, suc, ◌-◌, ◌≤◌, ◌≡◌, refl, ap, Bool-cases, some, [], ◌∷◌, arith, length, drop,
  length-drop, IsSuffix, drop-IsSuffix, IsSuffix-trans, length-IsSuffix, if_both, if_cases, leb→le,
  ltb→le, Option-cases, inl, inr, tests,
}
use docpulse.Text.Utf8.{Bytes, decode_rune, is_space}
use docpulse.Extraction.Chunker.{ChunkConfig, after_space, word_start, overlap_start, get_overlap}

IsSuffix-cons : (b : ℕ) (s t : Bytes) → IsSuffix s t → IsSuffix s (b ∷ t)
IsSuffix-cons b s t (zs, e) = (b ∷ zs, ap (λ u. b ∷ u) e)

after_space-IsSuffix : (k : ℕ) (s : Bytes) {t : Bytes} → after_space k s ≡ some t → IsSuffix t s
unfolding after_space
after_space-IsSuffix k [] e = cc
after_space-IsSuffix (suc k) (b ∷ s) e = IsSuffix-cons b _ s (after_space-IsSuffix k s e)
after_space-IsSuffix zero (b ∷ s) {t} e = elim (Bool-cases (is_space (decode_rune (b ∷ s)).0)) [
  | inl found ↦ IsSuffix-cons b t s ([], ground arith)
  | inr other ↦
      IsSuffix-cons b t s
        (after_space-IsSuffix ((decode_rune (b ∷ s)).1 - 1) s (rw (other, after_space) at e))
]

word_start-IsSuffix : (s : Bytes) → IsSuffix (word_start s) s
unfolding word_start
word_start-IsSuffix s = elim (Option-cases (after_space 0 s)) [
  | inl e ↦ rw (e, word_start) ([], refl)
  | inr (t, e) ↦ rw (e, word_start) (after_space-IsSuffix 0 s e)
]

overlap_start-IsSuffix : (s : Bytes) → IsSuffix (overlap_start s) s
unfolding overlap_start
overlap_start-IsSuffix s = if_both (λ t. IsSuffix t s) _ (drop-IsSuffix _ s) (word_start-IsSuffix s)

-- The overlap is an end of the text, of at most `overlap_size` bytes: the next chunk starts with
-- text that the chunk before it ends with, whatever the text holds.
pub get_overlap-IsSuffix :
    (cfg : ChunkConfig) (text : Bytes)
    → IsSuffix (get_overlap cfg text) text × (length (get_overlap cfg text) ≤ cfg.overlap_size)
unfolding get_overlap
get_overlap-IsSuffix cfg text =
    if_cases (λ t. IsSuffix t text × (length t ≤ cfg.overlap_size)) _
      (λ short. (([], refl), leb→le _ _ short))
      (λ long.
        let rest : Bytes = drop (length text - cfg.overlap_size) text in
        let last : IsSuffix (overlap_start rest) rest = overlap_start-IsSuffix rest in
        (
          IsSuffix-trans _ rest text last (drop-IsSuffix (length text - cfg.overlap_size) text),
          omega (
            tests,
            length-IsSuffix (overlap_start rest) rest last,
            length-drop (length text - cfg.overlap_size) text,
            ltb→le,
          ),
        ))
