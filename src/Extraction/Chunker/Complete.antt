-- ===== src/Extraction/Chunker/Complete.antt =====
-- The paragraphs and the sentences of internal/extraction/chunker.go leave out white space alone, and
-- the chunks leave out none of them.
use docpulse.Base.{
  ℕ, ◌<◌, ◌≡◌, refl, sym, ap, ◌∙◌, inl, inr, Bool, ◌&&◌, List, [], ◌∷◌, ◌++◌, arith, append_assoc,
  append-nil, ltb, leb, length, All, if◌then◌else◌, if_cases, tests, if_both, All-append,
  Bool-cases,
}
use docpulse.Text.{trim_space, split}
use docpulse.Text.Utf8.{Bytes, str, encode_rune, runes, utf8}
use docpulse.Text.Visible.{not_blank, not_blank-append, visible, visible-append, visible-trim_space}
use docpulse.Text.Split.{join, join-split}
use docpulse.Text.Scalar.{IsScalar, runes-IsScalar, StartsWell-encode_rune, visible-encode_rune}
use docpulse.Domain.{Uuid}
use docpulse.Extraction.Chunker.{
  ChunkConfig, keep_trimmed, split_paragraphs, is_stop, starts_sentence, add_trimmed, sentence_loop,
  split_sentences, chunk,
}
use docpulse.Extraction.Chunker.Held.{IsItem, InSome}
use docpulse.Extraction.Chunker.Coverage.{IsPiece, chunk-InSome, chunk-InSome_whole}
use docpulse.Extraction.Chunker.Pieces.{keep_trimmed-cons, sentence_loop_stop, sentence_loop_go}

-- The visible runes of texts, one after the other.
pub visible_all : List Bytes → List ℕ
visible_all [] = []
visible_all (p ∷ ps) = visible p ++ visible_all ps

visible_all-append :
    (ps qs : List Bytes) → visible_all (ps ++ qs) ≡ visible_all ps ++ visible_all qs
unfolding visible_all
visible_all-append [] qs = refl
visible_all-append (p ∷ ps) qs =
    ap (λ k. visible p ++ k) (visible_all-append ps qs)
    ∙ sym (append_assoc (visible p) (visible_all ps) (visible_all qs))

visible_nil : [] ≡ visible []
unfolding visible runes
visible_nil = refl

visible_all-add_trimmed :
    (q : Bytes) (v : Bytes) (rest : List Bytes)
    → trim_space q ≡ v
    → visible_all (add_trimmed v rest) ≡ visible q ++ visible_all rest
unfolding visible_all
visible_all-add_trimmed q [] rest e =
    ap (λ k. k ++ visible_all rest) (visible_nil ∙ ap visible (sym e) ∙ visible-trim_space q)
visible_all-add_trimmed q (b ∷ t) rest e =
    ap (λ k. k ++ visible_all rest) (ap visible (sym e) ∙ visible-trim_space q)

visible_all-keep_trimmed : (qs : List Bytes) → visible_all (keep_trimmed qs) ≡ visible_all qs
unfolding visible_all keep_trimmed
visible_all-keep_trimmed [] = refl
visible_all-keep_trimmed (q ∷ qs) =
    ap visible_all (keep_trimmed-cons q qs (trim_space q) refl)
    ∙ visible_all-add_trimmed q (trim_space q) (keep_trimmed qs) refl
    ∙ ap (λ k. visible q ++ k) (visible_all-keep_trimmed qs)

abbrev newlines : Bytes
newlines = 10 ∷ 10 ∷ []

newlines-append : (t : Bytes) → visible (newlines ++ t) ≡ visible t
unfolding visible utf8
newlines-append t = refl

visible-join : (ps : List Bytes) → visible (join newlines ps) ≡ visible_all ps
unfolding visible_all join
visible-join [] = sym visible_nil
visible-join (p ∷ []) = sym (append-nil (visible p))
visible-join (p ∷ q ∷ ps) =
    visible-append p (newlines ++ join newlines (q ∷ ps)) refl
    ∙ ap (λ k. visible p ++ k) (newlines-append (join newlines (q ∷ ps)) ∙ visible-join (q ∷ ps))

-- The paragraphs have the visible runes of the text.
split_paragraphs-visible : (text : Bytes) → visible_all (split_paragraphs text) ≡ visible text
unfolding split_paragraphs str utf8
split_paragraphs-visible text =
    visible_all-keep_trimmed (split newlines 0 text)
    ∙ sym (visible-join (split newlines 0 text))
    ∙ ap visible (join-split 10 (10 ∷ []) 0 text)

module _ (table : ℕ → Bool) where
  sentence_loop-visible :
      (current : Bytes) (rs : List ℕ)
      → All IsScalar rs
      → visible_all (sentence_loop table current rs) ≡ visible current ++ not_blank rs
  unfolding sentence_loop visible_all
  sentence_loop-visible current [] h = visible_all-add_trimmed current (trim_space current) [] refl
  sentence_loop-visible current (r ∷ rs) (s, h) =
      let one : visible (current ++ encode_rune r) ≡ visible current ++ not_blank (r ∷ []) =
        visible-append current (encode_rune r) (StartsWell-encode_rune r s)
        ∙ ap (λ k. visible current ++ k) (visible-encode_rune r s) in
      let both : visible (current ++ encode_rune r) ++ not_blank rs
          ≡ visible current ++ not_blank (r ∷ rs) =
        ap (λ k. k ++ not_blank rs) one
        ∙ append_assoc (visible current) (not_blank (r ∷ [])) (not_blank rs)
        ∙ ap (λ k. visible current ++ k) (sym (not_blank-append (r ∷ []) rs)) in
      elim (Bool-cases (is_stop r && starts_sentence table rs)) [
        | inl y ↦
            ap visible_all (sentence_loop_stop table current r rs y)
            ∙ visible_all-add_trimmed (current ++ encode_rune r)
                (trim_space (current ++ encode_rune r)) (sentence_loop table [] rs) refl
            ∙ ap (λ k. visible (current ++ encode_rune r) ++ k)
                (sentence_loop-visible [] rs h ∙ ap (λ k. k ++ not_blank rs) (sym visible_nil))
            ∙ both
        | inr n ↦
            ap visible_all (sentence_loop_go table current r rs n)
            ∙ sentence_loop-visible (current ++ encode_rune r) rs h
            ∙ both
      ]

  -- The sentences have the visible runes of the paragraph.
  split_sentences-visible : (para : Bytes) → visible_all (split_sentences table para) ≡ visible para
  unfolding split_sentences visible runes
  split_sentences-visible para = sentence_loop-visible [] (runes 0 para) (runes-IsScalar 0 para)

-- The parts of a text that are never cut: the text, if it fits in a chunk; otherwise its paragraphs,
-- and in place of a paragraph that does not fit its sentences.
pub pieces_of : (ℕ → Bool) → ChunkConfig → List Bytes → List Bytes
pieces_of table cfg [] = []
pieces_of table cfg (para ∷ paras) =
    let rest = pieces_of table cfg paras in
    if ltb cfg.max_chunk_size (length para) then split_sentences table para ++ rest else para ∷ rest

pub pieces : (ℕ → Bool) → ChunkConfig → Bytes → List Bytes
pieces table cfg text =
    if leb (length text) cfg.max_chunk_size
    then text ∷ []
    else pieces_of table cfg (split_paragraphs text)

module _ (table : ℕ → Bool) (cfg : ChunkConfig) where
  pieces_of-visible :
      (paras : List Bytes) → visible_all (pieces_of table cfg paras) ≡ visible_all paras
  unfolding pieces_of visible_all
  pieces_of-visible [] = refl
  pieces_of-visible (para ∷ paras) =
      let rest = pieces_of-visible paras in
      if_both (λ (ps : List Bytes). visible_all ps ≡ visible para ++ visible_all paras)
        (ltb cfg.max_chunk_size (length para))
        (visible_all-append (split_sentences table para) (pieces_of table cfg paras)
          ∙ ap (λ k. k ++ visible_all (pieces_of table cfg paras))
              (split_sentences-visible table para)
          ∙ ap (λ k. visible para ++ k) rest)
        (ap (λ k. visible para ++ k) rest)

  pieces-visible : (text : Bytes) → visible_all (pieces table cfg text) ≡ visible text
  unfolding pieces visible_all
  pieces-visible text =
      if_both (λ (ps : List Bytes). visible_all ps ≡ visible text)
        (leb (length text) cfg.max_chunk_size) (append-nil (visible text))
        (pieces_of-visible (split_paragraphs text) ∙ split_paragraphs-visible text)

  module _ (P : Bytes → Type 0) where
    All-items : (ss : List Bytes) → ((s : Bytes) → IsItem s ss → P s) → All P ss
    All-items [] h = tt
    All-items (s ∷ ss) h = (h s (inl refl), All-items ss (λ x i. h x (inr i)))

    All-pieces_of :
        (paras : List Bytes)
        → ((para piece : Bytes) → IsItem para paras → IsPiece table cfg piece para → P piece)
        → All P (pieces_of table cfg paras)
    unfolding pieces_of
    All-pieces_of [] h = tt
    All-pieces_of (para ∷ paras) h =
        let rest = All-pieces_of paras (λ q piece i. h q piece (inr i)) in
        if_cases (All P) (ltb cfg.max_chunk_size (length para))
          (λ long.
            All-append P (split_sentences table para) (pieces_of table cfg paras)
              (All-items (split_sentences table para)
                (λ s i. h para s (inl refl) (inr (omega tests, i))))
              rest)
          (λ fits. (h para para (inl refl) (inl (omega tests, refl)), rest))

  -- Below the cap nothing is lost: if a text gives fewer than `max_chunks` chunks, then each of its
  -- pieces stands whole in the content of some chunk, and the pieces have, one after the other, all
  -- runes of the text but white space. The pieces are the text alone, if it fits in a chunk, and
  -- otherwise its paragraphs, with the sentences of a paragraph in its place where it does not fit.
  pub chunk-InSome_all :
      (new_id : ℕ → Uuid) (job_id : Uuid) (text : Bytes)
      → length (chunk table new_id cfg job_id text) < cfg.max_chunks
      → (visible_all (pieces table cfg text) ≡ visible text)
        × All (λ p. InSome p (chunk table new_id cfg job_id text)) (pieces table cfg text)
  unfolding pieces
  chunk-InSome_all new_id job_id text below = (
    pieces-visible text,
    if_cases (All (λ p. InSome p (chunk table new_id cfg job_id text)))
        (leb (length text) cfg.max_chunk_size)
        (λ fits. (chunk-InSome_whole table new_id cfg job_id text (omega tests), tt))
        (λ long. All-pieces_of _ (split_paragraphs text) (λ para piece i h.
          chunk-InSome table new_id cfg job_id text para piece (ground arith) below i h)),
  )
