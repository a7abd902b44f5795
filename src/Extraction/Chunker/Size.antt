-- ===== src/Extraction/Chunker/Size.antt =====
-- The size of the chunks of internal/extraction/chunker.go.
use docpulse.Base.{
  ltb→le, ℕ, ◌+◌, ◌≤◌, ◌≡◌, refl, Bool, true, false, List, [], ◌∷◌, ◌++◌, arith, ltb, leb, ◌&&◌,
  length, length-append, All, All-append, inl, inr, ◌⊎◌, if_both, if_cases, tests,
}
use docpulse.Text.Lengths.{length-trim_space-le}
use docpulse.Text.Utf8.{Bytes, str, utf8}
use docpulse.Domain.{Uuid, Chunk}
use docpulse.Extraction.Chunker.{
  ChunkConfig, Progress, OnFlow, stopped, goes, OnFlow-resume, flush, finalize_chunk, emit,
  append_text, sentence_step, long_loop, emit_rest, split_long_paragraph, split_sentences, add_long,
  add_paragraph, paragraph_loop, last_chunk, whole_chunk, chunk, split_paragraphs, get_overlap,
}
use docpulse.Extraction.Chunker.Overlap.{get_overlap-IsSuffix}

abbrev pub HasSize : ℕ → Chunk → Type 0
HasSize most c = length c.content ≤ most

length-newlines : length (str "\n\n") ≡ 2
unfolding utf8
length-newlines = refl

length-blank : length (str " ") ≡ 1
unfolding utf8
length-blank = refl

module _ (table : ℕ → Bool) (new_id : ℕ → Uuid) (cfg : ChunkConfig) (job_id : Uuid) where
  -- A chunk, the overlap before a text that fits in a chunk, and the two bytes between them.
  abbrev pub most_size : ℕ
  most_size = cfg.overlap_size + cfg.max_chunk_size + 2

  record IsBounded (p : Progress) : Type 0 where
    sized : All (HasSize most_size) p.chunks
    fits : length p.current ≤ most_size

  finalize_chunk-HasSize :
      (n : ℕ) (text : Bytes)
      → length text ≤ most_size
      → HasSize most_size (finalize_chunk table new_id cfg job_id n text)
  unfolding finalize_chunk
  finalize_chunk-HasSize n text h = omega (arith, length-trim_space-le text)

  emit-IsBounded : (p : Progress) → IsBounded p → IsBounded (emit table new_id cfg job_id p)
  unfolding emit
  emit-IsBounded p b = record {
    sized =
        All-append (HasSize most_size) p.chunks _ b.sized
          (finalize_chunk-HasSize p.seq p.current b.fits, tt);
    fits = b.fits;
  }

  -- Text that fits in a chunk is appended where the chunk has room, or behind an overlap.
  abbrev HasRoom : Progress → Bytes → Type 0
  HasRoom p next = length p.current + length next ≤ cfg.overlap_size + cfg.max_chunk_size

  append_text-IsBounded :
      (sep : Bytes) (p : Progress) (next : Bytes)
      → length sep ≤ 2
      → All (HasSize most_size) p.chunks
      → HasRoom p next
      → IsBounded (append_text table new_id cfg job_id sep p next)
  unfolding append_text
  append_text-IsBounded sep p next short sized room = record {
    sized = sized;
    fits =
        if_both (λ (t : Bytes). length t ≤ most_size) (ltb 0 (length p.current))
          (omega (arith, length-append (p.current ++ sep) next, length-append p.current sep))
          (omega (arith, length-append p.current next));
  }

  length-overlap : (text : Bytes) → length (get_overlap cfg text) ≤ cfg.overlap_size
  length-overlap text = (get_overlap-IsSuffix cfg text).1

  -- Text that is no longer than a chunk has room where the chunk is not full.
  room_of_not_full :
      (p : Progress) (next : Bytes)
      → (ltb 0 (length p.current) && ltb cfg.max_chunk_size (length p.current + length next + 1))
        ≡ false
      → length next ≤ cfg.max_chunk_size
      → HasRoom p next
  room_of_not_full p next h fits = ground arith

  long_loop-IsBounded :
      (p : Progress) (sents : List Bytes)
      → All (λ s. length s ≤ cfg.max_chunk_size) sents
      → IsBounded p
      → IsBounded (long_loop table new_id cfg job_id p sents)
  unfolding long_loop sentence_step
  long_loop-IsBounded p [] _ b = b
  long_loop-IsBounded p (s ∷ ss) (h, hs) b =
      long_loop-IsBounded (sentence_step table new_id cfg job_id p s) ss hs (
        if_cases (λ q. IsBounded (append_text table new_id cfg job_id (str " ") q s))
          (ltb 0 (length p.current) && ltb cfg.max_chunk_size (length p.current + length s + 1))
          (λ full.
            append_text-IsBounded (str " ") _ s (omega (arith, length-blank))
              (emit-IsBounded p b).sized (omega (arith, length-overlap p.current)))
          (λ room.
            append_text-IsBounded (str " ") p s (omega (arith, length-blank)) b.sized
              (room_of_not_full p s room h)))

  emit_rest-IsBounded :
      (p : Progress) → IsBounded p → IsBounded (emit_rest table new_id cfg job_id p)
  unfolding emit_rest
  emit_rest-IsBounded p b = if_both IsBounded _ (emit-IsBounded p b) b

  -- The paragraph, or each of its sentences, is no longer than a chunk.
  abbrev pub IsDivisible : Bytes → Type 0
  IsDivisible para =
      (length para ≤ cfg.max_chunk_size)
      ⊎ All (λ s. length s ≤ cfg.max_chunk_size) (split_sentences table para)

  sentences_fit :
      (para : Bytes)
      → IsDivisible para
      → ltb cfg.max_chunk_size (length para) ≡ true
      → All (λ s. length s ≤ cfg.max_chunk_size) (split_sentences table para)
  sentences_fit para (inl h) long = absurd (ground arith)
  sentences_fit para (inr h) long = h

  split_long_paragraph-IsBounded :
      (n : ℕ) (para : Bytes)
      → All (λ s. length s ≤ cfg.max_chunk_size) (split_sentences table para)
      → IsBounded (split_long_paragraph table new_id cfg job_id n para)
  unfolding split_long_paragraph
  split_long_paragraph-IsBounded n para h = emit_rest-IsBounded _ (
      long_loop-IsBounded (record { chunks = []; current = []; seq = n }) _ h
        (record { sized = tt; fits = omega arith }))

  add_long-IsBounded :
      (p : Progress) (para : Bytes)
      → All (λ s. length s ≤ cfg.max_chunk_size) (split_sentences table para)
      → IsBounded p
      → IsBounded (add_long table new_id cfg job_id p para)
  unfolding add_long
  add_long-IsBounded p para h b = record {
    sized =
        All-append (HasSize most_size) (emit_rest table new_id cfg job_id p).chunks _
          (emit_rest-IsBounded p b).sized (split_long_paragraph-IsBounded _ para h).sized;
    fits = omega arith;
  }

  -- A paragraph is added to progress that has room for it, if it has no more than a chunk's size.
  record IsReady (para : Bytes) (p : Progress) : Type 0 where
    bounded : IsBounded p
    room : length para ≤ cfg.max_chunk_size → HasRoom p para

  add_paragraph-IsBounded :
      (p : Progress) (para : Bytes)
      → IsDivisible para
      → IsReady para p
      → IsBounded (add_paragraph table new_id cfg job_id p para)
  unfolding add_paragraph
  add_paragraph-IsBounded p para d r =
      if_cases IsBounded (ltb cfg.max_chunk_size (length para))
        (λ long. add_long-IsBounded p para (sentences_fit para d long) r.bounded)
        (λ short.
          append_text-IsBounded (str "\n\n") p para (omega (arith, length-newlines)) r.bounded.sized
            (r.room (ltb→le _ _ short)))

  flush-IsReady :
      (p : Progress) (para : Bytes)
      → IsBounded p
      → OnFlow IsBounded (IsReady para) (flush table new_id cfg job_id p para)
  unfolding flush
  flush-IsReady p para b =
      if_cases (OnFlow IsBounded (IsReady para))
        (ltb 0 (length p.current) && ltb cfg.max_chunk_size (length p.current + length para + 1))
        (λ full. if_both (OnFlow IsBounded (IsReady para)) _ (stopped (emit-IsBounded p b)) (
          goes (record {
            bounded = record {
              sized = (emit-IsBounded p b).sized;
              fits = omega (arith, length-overlap p.current);
            };
            room = λ h. omega (arith, length-overlap p.current);
          })))
        (λ space. goes (record { bounded = b; room = λ h. room_of_not_full p para space h }))

  paragraph_loop-IsBounded :
      (p : Progress) (paras : List Bytes)
      → All IsDivisible paras
      → IsBounded p
      → IsBounded (paragraph_loop table new_id cfg job_id p paras)
  unfolding paragraph_loop
  paragraph_loop-IsBounded p [] _ b = b
  paragraph_loop-IsBounded p (para ∷ paras) (d, ds) b =
      OnFlow-resume IsBounded (IsReady para) IsBounded _ (flush-IsReady p para b) (λ q h. h)
        (λ q r.
          paragraph_loop-IsBounded (add_paragraph table new_id cfg job_id q para) paras ds
            (add_paragraph-IsBounded q para d r))

  last_chunk-HasSize :
      (p : Progress) → IsBounded p → All (HasSize most_size) (last_chunk table new_id cfg job_id p)
  unfolding last_chunk
  last_chunk-HasSize p b =
      if_both (All (HasSize most_size))
        (ltb 0 (length p.current) && ltb (length p.chunks) cfg.max_chunks)
        (All-append (HasSize most_size) p.chunks _ b.sized
          (finalize_chunk-HasSize p.seq p.current b.fits, tt))
        b.sized

  -- If each paragraph, or each of its sentences, is no longer than `max_chunk_size`, then no chunk
  -- is longer than that size, the overlap and two bytes together.
  pub chunk-HasSize :
      (text : Bytes)
      → All IsDivisible (split_paragraphs text)
      → All (HasSize most_size) (chunk table new_id cfg job_id text)
  unfolding chunk whole_chunk
  chunk-HasSize text d =
      if_cases (All (HasSize most_size)) (leb (length text) cfg.max_chunk_size)
        (λ short. (omega tests, tt))
        (λ long. last_chunk-HasSize _ (
          paragraph_loop-IsBounded (record { chunks = []; current = []; seq = 0 }) _ d
            (record { sized = tt; fits = omega arith })))
