-- ===== src/Extraction/Chunker/Cap.antt =====
-- `MaxChunks` of internal/extraction/chunker.go, where it holds and where it does not.
use docpulse.Base.{
  ℕ, ◌+◌, ◌≤◌, ◌<◌, ◌≡◌, Bool, true, false, List, [], ◌∷◌, arith, ltb, leb, ◌&&◌, length,
  length-append, All, if_both, if_cases, tests,
}
use docpulse.Text.Utf8.{Bytes}
use docpulse.Domain.{Uuid, Chunk}
use docpulse.Extraction.Chunker.{
  ChunkConfig, Progress, OnFlow, stopped, goes, OnFlow-resume, flush, finalize_chunk, emit,
  append_text, emit_rest, split_long_paragraph, add_long, add_paragraph, paragraph_loop, last_chunk,
  chunk, split_paragraphs,
}

module _ (table : ℕ → Bool) (new_id : ℕ → Uuid) (cfg : ChunkConfig) (job_id : Uuid) where
  abbrev IsBelow : Progress → Type 0
  IsBelow p = length p.chunks < cfg.max_chunks

  abbrev IsWithin : Progress → Type 0
  IsWithin p = length p.chunks ≤ cfg.max_chunks

  length-emit :
      (p : Progress) → length (emit table new_id cfg job_id p).chunks ≡ length p.chunks + 1
  unfolding emit
  length-emit p = length-append p.chunks _

  flush-IsWithin :
      (p : Progress) (para : Bytes)
      → IsBelow p
      → OnFlow IsWithin IsBelow (flush table new_id cfg job_id p para)
  unfolding flush
  flush-IsWithin p para h =
      if_both (OnFlow IsWithin IsBelow)
        (ltb 0 (length p.current) && ltb cfg.max_chunk_size (length p.current + length para + 1))
        (if_cases (OnFlow IsWithin IsBelow)
          (leb cfg.max_chunks (length (emit table new_id cfg job_id p).chunks))
          (λ reached. stopped (omega (arith, length-emit p))) (λ below. goes (ground arith)))
        (goes h)

  add_paragraph-IsBelow :
      (p : Progress) (para : Bytes)
      → length para ≤ cfg.max_chunk_size
      → IsBelow p
      → IsBelow (add_paragraph table new_id cfg job_id p para)
  unfolding add_paragraph append_text
  add_paragraph-IsBelow p para short h =
      if_cases IsBelow (ltb cfg.max_chunk_size (length para)) (λ long. absurd (omega tests))
        (λ _. h)

  paragraph_loop-IsWithin :
      (p : Progress) (paras : List Bytes)
      → All (λ para. length para ≤ cfg.max_chunk_size) paras
      → IsBelow p
      → IsWithin (paragraph_loop table new_id cfg job_id p paras)
  unfolding paragraph_loop
  paragraph_loop-IsWithin p [] _ h = omega arith
  paragraph_loop-IsWithin p (para ∷ paras) (short, shorts) h =
      OnFlow-resume IsWithin IsBelow IsWithin _ (flush-IsWithin p para h) (λ q w. w)
        (λ q b.
          paragraph_loop-IsWithin (add_paragraph table new_id cfg job_id q para) paras shorts
            (add_paragraph-IsBelow q para short b))

  last_chunk_within :
      (p : Progress) → IsWithin p → length (last_chunk table new_id cfg job_id p) ≤ cfg.max_chunks
  unfolding last_chunk
  last_chunk_within p w =
      ground (
        arith,
        length-append p.chunks (finalize_chunk table new_id cfg job_id p.seq p.current ∷ []),
      )

  -- If no paragraph is longer than `max_chunk_size`, there are at most `max_chunks` chunks, where
  -- that is at least one.
  pub length-chunk-le :
      (text : Bytes)
      → 1 ≤ cfg.max_chunks
      → All (λ para. length para ≤ cfg.max_chunk_size) (split_paragraphs text)
      → length (chunk table new_id cfg job_id text) ≤ cfg.max_chunks
  unfolding chunk
  length-chunk-le text one short =
      if_both (λ (cs : List Chunk). length cs ≤ cfg.max_chunks)
        (leb (length text) cfg.max_chunk_size) (omega arith)
        (last_chunk_within _ (
          paragraph_loop-IsWithin (record { chunks = []; current = []; seq = 0 }) _ short
            (omega arith)))

module _ (table : ℕ → Bool) (new_id : ℕ → Uuid) (cfg : ChunkConfig) (job_id : Uuid) where
  -- A text of one paragraph that is longer than `max_chunk_size` is split into all its sentence
  -- chunks, whatever `max_chunks` is.
  pub chunk-one_long :
      (text para : Bytes)
      → cfg.max_chunk_size < length text
      → split_paragraphs text ≡ para ∷ []
      → cfg.max_chunk_size < length para
      → chunk table new_id cfg job_id text
        ≡ (split_long_paragraph table new_id cfg job_id 0 para).chunks
  unfolding chunk paragraph_loop flush add_paragraph add_long emit_rest last_chunk
  chunk-one_long text para big one long =
      let too_big : leb (length text) cfg.max_chunk_size ≡ false = ground arith in
      let too_long : ltb cfg.max_chunk_size (length para) ≡ true = ground arith in
      rw (too_big, one, too_long)
