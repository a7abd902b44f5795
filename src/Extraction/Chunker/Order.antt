-- ===== src/Extraction/Chunker/Order.antt =====
-- The sequence numbers, the job and the status of the chunks of internal/extraction/chunker.go.
use docpulse.Base.{
  ℕ, suc, ◌+◌, ◌≡◌, refl, ap, Bool, List, [], ◌∷◌, ◌++◌, arith, length, length-append, if_both,
  Bool-cases, inl, inr, leb,
}
use native.Mathlib.Nat.{add-zero}
use docpulse.Text.Utf8.{Bytes}
use docpulse.Domain.{Uuid, Chunk, pending}
use docpulse.Extraction.Chunker.{
  ChunkConfig, Progress, OnFlow, stopped, goes, OnFlow-resume, flush, finalize_chunk, emit,
  append_text, sentence_step, long_loop, emit_rest, split_long_paragraph, add_long, add_paragraph,
  paragraph_loop, last_chunk, whole_chunk, chunk, split_paragraphs,
}

-- The chunks are numbered one by one from `n`, with the ids drawn in that order, and each is a
-- pending chunk of the job.
shift : (n k : ℕ) → n + suc k ≡ suc n + k
shift n k = omega arith

module _ (new_id : ℕ → Uuid) (job_id : Uuid) where
  pub record IsChunkAt (n : ℕ) (c : Chunk) : Type 0 where
    pub number : c.sequence ≡ n
    pub drawn : c.id ≡ new_id n
    pub job : c.job_id ≡ job_id
    pub waits : c.status ≡ pending

  abbrev pub IsNumbered : ℕ → List Chunk → Type 0
  IsNumbered n [] = Unit
  IsNumbered n (c ∷ cs) = IsChunkAt n c × IsNumbered (suc n) cs

  IsNumbered-append :
      (n : ℕ) (xs ys : List Chunk)
      → IsNumbered n xs
      → IsNumbered (n + length xs) ys
      → IsNumbered n (xs ++ ys)
  IsNumbered-append n [] ys h k = rw (← add-zero n) k
  IsNumbered-append n (x ∷ xs) ys (hx, h) k =
      (hx, IsNumbered-append (suc n) xs ys h (rw (← shift n (length xs)) k))

  -- Progress whose chunks are numbered from `n`, and whose counter is the next number.
  pub record IsCounted (n : ℕ) (p : Progress) : Type 0 where
    pub numbered : IsNumbered n p.chunks
    pub next : p.seq ≡ n + length p.chunks

module _ (table : ℕ → Bool) (new_id : ℕ → Uuid) (cfg : ChunkConfig) (job_id : Uuid) where
  emit-IsCounted :
      (n : ℕ) (p : Progress)
      → IsCounted new_id job_id n p
      → IsCounted new_id job_id n (emit table new_id cfg job_id p)
  unfolding emit finalize_chunk
  emit-IsCounted n p c = record {
    numbered =
        IsNumbered-append new_id job_id n p.chunks _ c.numbered
          (record { number = c.next; drawn = ap new_id c.next; job = refl; waits = refl }, tt);
    next = omega (
      arith,
      c.next,
      length-append p.chunks (finalize_chunk table new_id cfg job_id p.seq p.current ∷ []),
    );
  }

  -- A change of the current text alone.
  with_current :
      (n : ℕ) (p : Progress) (text : Bytes)
      → IsCounted new_id job_id n p
      → IsCounted new_id job_id n (record p { current = text })
  with_current n p text c = record { numbered = c.numbered; next = c.next }

  abbrev Counted : ℕ → Progress → Type 0
  Counted = IsCounted new_id job_id

  sentence_step-IsCounted :
      (n : ℕ) (p : Progress) (sent : Bytes)
      → Counted n p
      → Counted n (sentence_step table new_id cfg job_id p sent)
  unfolding sentence_step append_text
  sentence_step-IsCounted n p sent c =
      with_current n _ _ (if_both (Counted n) _ (with_current n _ _ (emit-IsCounted n p c)) c)

  long_loop-IsCounted :
      (n : ℕ) (p : Progress) (sents : List Bytes)
      → Counted n p
      → Counted n (long_loop table new_id cfg job_id p sents)
  unfolding long_loop
  long_loop-IsCounted n p [] c = c
  long_loop-IsCounted n p (sent ∷ sents) c =
      long_loop-IsCounted n (sentence_step table new_id cfg job_id p sent) sents
        (sentence_step-IsCounted n p sent c)

  emit_rest-IsCounted :
      (n : ℕ) (p : Progress) → Counted n p → Counted n (emit_rest table new_id cfg job_id p)
  unfolding emit_rest
  emit_rest-IsCounted n p c = if_both (Counted n) _ (emit-IsCounted n p c) c

  pub split_long_paragraph-IsCounted :
      (n : ℕ) (para : Bytes) → Counted n (split_long_paragraph table new_id cfg job_id n para)
  unfolding split_long_paragraph
  split_long_paragraph-IsCounted n para =
      emit_rest-IsCounted n _
        (long_loop-IsCounted n _ _ (record { numbered = tt; next = omega arith }))

  add_long-IsCounted :
      (p : Progress) (para : Bytes)
      → Counted 0 p
      → Counted 0 (add_long table new_id cfg job_id p para)
  unfolding add_long
  add_long-IsCounted p para c =
      let flushed = emit_rest table new_id cfg job_id p in
      let f : Counted 0 flushed = emit_rest-IsCounted 0 p c in
      let l : Counted flushed.seq (split_long_paragraph table new_id cfg job_id flushed.seq para) =
        split_long_paragraph-IsCounted flushed.seq para in
      record {
        numbered =
            IsNumbered-append new_id job_id 0 flushed.chunks _ f.numbered
              (rw (← f.next) l.numbered);
        next = omega (
          arith,
          f.next,
          l.next,
          length-append flushed.chunks
              (split_long_paragraph table new_id cfg job_id flushed.seq para).chunks,
        );
      }

  add_paragraph-IsCounted :
      (p : Progress) (para : Bytes)
      → Counted 0 p
      → Counted 0 (add_paragraph table new_id cfg job_id p para)
  unfolding add_paragraph append_text
  add_paragraph-IsCounted p para c =
      if_both (Counted 0) _ (add_long-IsCounted p para c) (with_current 0 p _ c)

  flush-IsCounted :
      (p : Progress) (para : Bytes)
      → Counted 0 p
      → OnFlow (Counted 0) (Counted 0) (flush table new_id cfg job_id p para)
  unfolding flush
  flush-IsCounted p para c =
      if_both (OnFlow (Counted 0) (Counted 0)) _
        (if_both (OnFlow (Counted 0) (Counted 0)) _ (stopped (emit-IsCounted 0 p c))
          (goes (with_current 0 _ _ (emit-IsCounted 0 p c))))
        (goes c)

  paragraph_loop-IsCounted :
      (p : Progress) (paras : List Bytes)
      → Counted 0 p
      → Counted 0 (paragraph_loop table new_id cfg job_id p paras)
  unfolding paragraph_loop
  paragraph_loop-IsCounted p [] c = c
  paragraph_loop-IsCounted p (para ∷ paras) c =
      OnFlow-resume (Counted 0) (Counted 0) (Counted 0) _ (flush-IsCounted p para c) (λ q h. h)
        (λ q h.
          paragraph_loop-IsCounted (add_paragraph table new_id cfg job_id q para) paras
            (add_paragraph-IsCounted q para h))

  emit-IsNumbered :
      (p : Progress)
      → Counted 0 p
      → IsNumbered new_id job_id 0
          (p.chunks ++ finalize_chunk table new_id cfg job_id p.seq p.current ∷ [])
  unfolding emit
  emit-IsNumbered p c = (emit-IsCounted 0 p c).numbered

  last_chunk-IsNumbered :
      (p : Progress)
      → Counted 0 p
      → IsNumbered new_id job_id 0 (last_chunk table new_id cfg job_id p)
  unfolding last_chunk
  last_chunk-IsNumbered p c =
      if_both (IsNumbered new_id job_id 0) _ (emit-IsNumbered p c) c.numbered

  whole_chunk-IsNumbered :
      (text : Bytes) → IsNumbered new_id job_id 0 (whole_chunk table new_id cfg job_id text ∷ [])
  unfolding whole_chunk
  whole_chunk-IsNumbered text =
      (record { number = refl; drawn = refl; job = refl; waits = refl }, tt)

  from_start : List Bytes → Progress
  from_start =
      paragraph_loop table new_id cfg job_id (record { chunks = []; current = []; seq = 0 })

  from_start-IsCounted : (paras : List Bytes) → Counted 0 (from_start paras)
  unfolding from_start
  from_start-IsCounted paras =
      paragraph_loop-IsCounted (record { chunks = []; current = []; seq = 0 }) paras
        (record { numbered = tt; next = refl })

  -- Whatever the text and the configuration, the chunks are numbered 0, 1, 2, … in the order in
  -- which they are returned, their ids are those drawn in that order, and each is a pending chunk
  -- of the job.
  pub chunk-IsNumbered :
      (text : Bytes) → IsNumbered new_id job_id 0 (chunk table new_id cfg job_id text)
  unfolding chunk from_start
  chunk-IsNumbered text = elim (Bool-cases (leb (length text) cfg.max_chunk_size)) [
    | inl short ↦ rw short (whole_chunk-IsNumbered text)
    | inr long ↦ rw long (last_chunk-IsNumbered _ (from_start-IsCounted (split_paragraphs text)))
  ]
