-- ===== src/Extraction/Chunker/Coverage.antt =====
-- Nothing of a text is lost by internal/extraction/chunker.go below its cap.
use docpulse.Base.{
  ℕ, ◌≤◌, ◌<◌, ◌≡◌, sym, subst, ◌⊎◌, inl, inr, Bool, ◌&&◌, List, [], ◌∷◌, arith, ltb, leb, length,
  if_both, if_cases, tests, append-nil,
}
use docpulse.Text.Utf8.{Bytes, str}
use docpulse.Text.Trim.{IsTrimmed}
use docpulse.Domain.{Uuid, Chunk}
use docpulse.Extraction.Chunker.{
  ChunkConfig, Progress, OnFlow, stopped, goes, OnFlow-resume, flush, emit, append_text, emit_rest,
  split_long_paragraph, add_long, split_paragraphs, split_sentences, add_paragraph, paragraph_loop,
  last_chunk, chunk, whole_chunk,
}
use docpulse.Extraction.Chunker.Pieces.{split_paragraphs-IsTrimmed, split_sentences-IsTrimmed}
use docpulse.Extraction.Chunker.Held.{
  IsItem, InSome, InSome-left, InSome-right, InCurrent-length, Held, emit-InSome, emit-Stands,
  emit_rest-Stands, append_text-Held, append_text-Held_piece, long_loop-Held_piece,
  newlines-IsSeparator,
}

-- What is to be found in a chunk: a paragraph that fits in one, or a sentence of a longer one.
abbrev pub IsPiece : (ℕ → Bool) → ChunkConfig → Bytes → Bytes → Type 0
IsPiece table cfg piece para =
    ((length para ≤ cfg.max_chunk_size) × (piece ≡ para))
    ⊎ ((cfg.max_chunk_size < length para) × IsItem piece (split_sentences table para))

module _ (table : ℕ → Bool) (new_id : ℕ → Uuid) (cfg : ChunkConfig) (job_id : Uuid) (piece : Bytes)
    (m : IsTrimmed piece) where
  abbrev Holds : Progress → Type 0
  Holds = Held table new_id cfg job_id piece m

  add_paragraph-Holds :
      (p : Progress) (para : Bytes) → Holds p → Holds (add_paragraph table new_id cfg job_id p para)
  unfolding add_paragraph add_long
  add_paragraph-Holds p para h =
      if_both Holds (ltb cfg.max_chunk_size (length para))
        (inr (
          InSome-left piece (emit_rest table new_id cfg job_id p).chunks _
            (emit_rest-Stands table new_id cfg job_id piece m p h)))
        (append_text-Held table new_id cfg job_id piece m (str "\n\n") p para newlines-IsSeparator
          h)

  add_paragraph-Holds_piece :
      (p : Progress) (para : Bytes)
      → IsPiece table cfg piece para
      → Holds (add_paragraph table new_id cfg job_id p para)
  unfolding add_paragraph add_long split_long_paragraph
  add_paragraph-Holds_piece p para (inl (short, e)) =
      if_cases Holds (ltb cfg.max_chunk_size (length para)) (λ long. absurd (omega (tests, short)))
        (λ fits.
          subst (λ k. Holds (append_text table new_id cfg job_id (str "\n\n") p k)) e
            (append_text-Held_piece table new_id cfg job_id piece m (str "\n\n") p
              newlines-IsSeparator))
  add_paragraph-Holds_piece p para (inr (long, i)) =
      if_cases Holds (ltb cfg.max_chunk_size (length para))
        (λ _. inr (
          InSome-right piece (emit_rest table new_id cfg job_id p).chunks _ (
            emit_rest-Stands table new_id cfg job_id piece m _ (
              long_loop-Held_piece table new_id cfg job_id piece m _ (split_sentences table para)
                i))))
        (λ fits. absurd (omega (tests, long)))

  abbrev IsFull : Progress → Type 0
  IsFull p = cfg.max_chunks ≤ length p.chunks

  -- The piece stands in a chunk, unless the cap is reached.
  abbrev Delivers : Progress → Type 0
  Delivers p =
      length (last_chunk table new_id cfg job_id p) < cfg.max_chunks
      → InSome piece (last_chunk table new_id cfg job_id p)

  full_le_last_chunk :
      (p : Progress) → IsFull p → cfg.max_chunks ≤ length (last_chunk table new_id cfg job_id p)
  unfolding last_chunk
  full_le_last_chunk p full = ground arith

  last_chunk-Delivers_full : (p : Progress) → IsFull p → Delivers p
  last_chunk-Delivers_full p full below = absurd (omega (arith, full_le_last_chunk p full, below))

  last_chunk-Delivers : (p : Progress) → Holds p → Delivers p
  unfolding last_chunk
  last_chunk-Delivers p h =
      if_cases (λ (cs : List Chunk). length cs < cfg.max_chunks → InSome piece cs)
        (ltb 0 (length p.current) && ltb (length p.chunks) cfg.max_chunks)
        (λ _ below. emit-InSome table new_id cfg job_id piece m p h)
        (λ no below. elim h [
          | inr s ↦ s
          | inl c ↦ let some_text = InCurrent-length piece m p.current c in absurd (ground arith)
        ])

  flush-Holds :
      (p : Progress) (para : Bytes)
      → Holds p
      → OnFlow IsFull Holds (flush table new_id cfg job_id p para)
  unfolding flush
  flush-Holds p para h =
      if_both (OnFlow IsFull Holds) _
        (if_cases (OnFlow IsFull Holds)
          (leb cfg.max_chunks (length (emit table new_id cfg job_id p).chunks))
          (λ reached. stopped (omega (tests, reached)))
          (λ _. goes (inr (emit-Stands table new_id cfg job_id piece m p h))))
        (goes h)

  flush-IsFull :
      (p : Progress) (para : Bytes)
      → OnFlow IsFull (λ q. Unit {0}) (flush table new_id cfg job_id p para)
  unfolding flush
  flush-IsFull p para =
      if_both (OnFlow IsFull (λ q. Unit {0})) _
        (if_cases (OnFlow IsFull (λ q. Unit {0}))
          (leb cfg.max_chunks (length (emit table new_id cfg job_id p).chunks))
          (λ reached. stopped (omega (tests, reached))) (λ _. goes tt))
        (goes tt)

  paragraph_loop-Delivers :
      (p : Progress) (paras : List Bytes)
      → Holds p
      → Delivers (paragraph_loop table new_id cfg job_id p paras)
  unfolding paragraph_loop
  paragraph_loop-Delivers p [] h = last_chunk-Delivers p h
  paragraph_loop-Delivers p (para ∷ paras) h =
      OnFlow-resume IsFull Holds Delivers _ (flush-Holds p para h) last_chunk-Delivers_full (λ q k.
        paragraph_loop-Delivers (add_paragraph table new_id cfg job_id q para) paras
          (add_paragraph-Holds q para k))

  paragraph_loop-Delivers_piece :
      (p : Progress) (paras : List Bytes) (para : Bytes)
      → IsItem para paras
      → IsPiece table cfg piece para
      → Delivers (paragraph_loop table new_id cfg job_id p paras)
  unfolding paragraph_loop
  paragraph_loop-Delivers_piece p [] para i h = absurd i
  paragraph_loop-Delivers_piece p (first ∷ paras) para (inl e) h =
      OnFlow-resume IsFull (λ q. Unit {0}) Delivers _ (flush-IsFull p first)
        last_chunk-Delivers_full
        (λ q k.
          paragraph_loop-Delivers (add_paragraph table new_id cfg job_id q first) paras
            (add_paragraph-Holds_piece q first (subst (IsPiece table cfg piece) e h)))
  paragraph_loop-Delivers_piece p (first ∷ paras) para (inr i) h =
      OnFlow-resume IsFull (λ q. Unit {0}) Delivers _ (flush-IsFull p first)
        last_chunk-Delivers_full
        (λ q k.
          paragraph_loop-Delivers_piece (add_paragraph table new_id cfg job_id q first) paras para i
            h)

piece-IsTrimmed :
    (table : ℕ → Bool) (cfg : ChunkConfig) (text para piece : Bytes)
    → IsItem para (split_paragraphs text)
    → IsPiece table cfg piece para
    → IsTrimmed piece
piece-IsTrimmed table cfg text para piece i (inl (short, e)) =
    subst IsTrimmed (sym e) (split_paragraphs-IsTrimmed text para i)
piece-IsTrimmed table cfg text para piece i (inr (long, j)) =
    split_sentences-IsTrimmed table para piece j

-- A text that fits in a chunk is one.
pub chunk-InSome_whole :
    (table : ℕ → Bool) (new_id : ℕ → Uuid) (cfg : ChunkConfig) (job_id : Uuid) (text : Bytes)
    → length text ≤ cfg.max_chunk_size
    → InSome text (chunk table new_id cfg job_id text)
unfolding chunk whole_chunk
chunk-InSome_whole table new_id cfg job_id text short =
    if_cases (InSome text) (leb (length text) cfg.max_chunk_size)
      (λ _. inl ([], [], sym (append-nil text))) (λ long. absurd (ground arith))

-- If a text that is longer than a chunk gives fewer than `max_chunks` chunks, then each of its
-- paragraphs that is no longer than `max_chunk_size`, and each sentence of the others, stands whole
-- in the content of some chunk.
pub chunk-InSome :
    (table : ℕ → Bool) (new_id : ℕ → Uuid) (cfg : ChunkConfig) (job_id : Uuid)
    (text para piece : Bytes)
    → cfg.max_chunk_size < length text
    → length (chunk table new_id cfg job_id text) < cfg.max_chunks
    → IsItem para (split_paragraphs text)
    → IsPiece table cfg piece para
    → InSome piece (chunk table new_id cfg job_id text)
unfolding chunk
chunk-InSome table new_id cfg job_id text para piece long below i h =
    if_cases (λ (cs : List Chunk). length cs < cfg.max_chunks → InSome piece cs)
      (leb (length text) cfg.max_chunk_size) (λ short. absurd (omega (tests, short, long)))
      (λ _.
        paragraph_loop-Delivers_piece table new_id cfg job_id piece
          (piece-IsTrimmed table cfg text para piece i h)
          (record { chunks = []; current = []; seq = 0 }) (split_paragraphs text) para i h)
      below
