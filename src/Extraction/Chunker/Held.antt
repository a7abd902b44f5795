-- ===== src/Extraction/Chunker/Held.antt =====
-- A trimmed piece of the text is not lost by the steps of internal/extraction/chunker.go: it stands
-- in a chunk, or in the current text.
use docpulse.Base.{
  ℕ, ◌<◌, ◌≡◌, ◌≢◌, refl, sym, ◌∙◌, ap, subst, ◌⊎◌, inl, inr, Bool, List, [], ◌∷◌, ◌++◌, arith,
  append-nil, append_assoc, ltb, length, length-append, if_both, if_cases, tests,
}
use docpulse.Text.{trim_space}
use docpulse.Text.Utf8.{Bytes, str, utf8}
use docpulse.Text.Runes.{StartsWell, EndsWell}
use docpulse.Text.Trim.{IsTrimmed, length_ne_zero, trim_space-keeps}
use docpulse.Domain.{Uuid, Chunk}
use docpulse.Extraction.Chunker.{
  ChunkConfig, Progress, finalize_chunk, emit, append_text, sentence_step, long_loop, emit_rest,
}

StartsWell-append : (s t : Bytes) → StartsWell s → StartsWell t → StartsWell (s ++ t)
StartsWell-append [] t h k = k
StartsWell-append (b ∷ s) t h k = h

StartsWell-front : (s t : Bytes) → s ≢ [] → StartsWell s → StartsWell (s ++ t)
StartsWell-front [] t n h = absurd (n refl)
StartsWell-front (b ∷ s) t n h = h

EndsWell-append : (s t : Bytes) → t ≢ [] → EndsWell t → EndsWell (s ++ t)
EndsWell-append [] t n h = h
EndsWell-append (a ∷ []) [] n h = absurd (n refl)
EndsWell-append (a ∷ []) (b ∷ t) n h = h
EndsWell-append (a ∷ b ∷ s) t n h = EndsWell-append (b ∷ s) t n h

-- A separator between two texts.
pub record IsSeparator (sep : Bytes) : Type 0 where
  present : sep ≢ []
  starts : StartsWell sep
  ends : EndsWell sep

pub newlines-IsSeparator : IsSeparator (str "\n\n")
unfolding utf8
newlines-IsSeparator = record { present = λ e. cc; starts = refl; ends = omega arith }

blank-IsSeparator : IsSeparator (str " ")
unfolding utf8
blank-IsSeparator = record { present = λ e. cc; starts = refl; ends = omega arith }

abbrev pub IsItem : Bytes → List Bytes → Type 0
IsItem piece [] = ⊥
IsItem piece (s ∷ ss) = (piece ≡ s) ⊎ IsItem piece ss

-- The piece stands in the text, and in one of the chunks.
abbrev pub IsIn : Bytes → Bytes → Type 0
IsIn piece text = (s : Bytes) × (t : Bytes) × (text ≡ s ++ (piece ++ t))

abbrev pub InSome : Bytes → List Chunk → Type 0
InSome piece [] = ⊥
InSome piece (c ∷ cs) = IsIn piece c.content ⊎ InSome piece cs

pub InSome-left : (piece : Bytes) (xs ys : List Chunk) → InSome piece xs → InSome piece (xs ++ ys)
InSome-left piece [] ys h = absurd h
InSome-left piece (x ∷ xs) ys (inl h) = inl h
InSome-left piece (x ∷ xs) ys (inr h) = inr (InSome-left piece xs ys h)

pub InSome-right : (piece : Bytes) (xs ys : List Chunk) → InSome piece ys → InSome piece (xs ++ ys)
InSome-right piece [] ys h = h
InSome-right piece (x ∷ xs) ys h = inr (InSome-right piece xs ys h)

-- The piece stands in the current text, between texts that no rune crosses.
pub record InCurrent (piece current : Bytes) : Type 0 where
  before : Bytes
  after : Bytes
  ends : EndsWell before
  starts : StartsWell after
  parts : current ≡ before ++ (piece ++ after)

module _ (piece : Bytes) (m : IsTrimmed piece) where
  pub InCurrent-length : (current : Bytes) → InCurrent piece current → 0 < length current
  InCurrent-length current h = omega (
    arith,
    ap length h.parts,
    length-append h.before (piece ++ h.after),
    length-append piece h.after,
    length_ne_zero piece m.present,
  )

  InCurrent-append :
      (current sep next : Bytes)
      → IsSeparator sep
      → InCurrent piece current
      → InCurrent piece (current ++ sep ++ next)
  InCurrent-append current sep next i h = record {
    before = h.before;
    after = h.after ++ (sep ++ next);
    ends = h.ends;
    starts =
        StartsWell-append h.after (sep ++ next) h.starts
          (StartsWell-front sep next i.present i.starts);
    parts = rw h.parts (simp append_assoc);
  }

  InCurrent-last :
      (current sep : Bytes) → IsSeparator sep → InCurrent piece (current ++ sep ++ piece)
  InCurrent-last current sep i = record {
    before = current ++ sep;
    after = [];
    ends = EndsWell-append current sep i.present i.ends;
    starts = tt;
    parts = ap (λ k. (current ++ sep) ++ k) (sym (append-nil piece));
  }

  InCurrent-alone : (current : Bytes) → length current ≡ 0 → InCurrent piece (current ++ piece)
  InCurrent-alone [] e = record {
    before = [];
    after = [];
    ends = tt;
    starts = tt;
    parts = sym (append-nil piece);
  }
  InCurrent-alone (b ∷ s) e = absurd (omega (arith, e))

module _ (table : ℕ → Bool) (new_id : ℕ → Uuid) (cfg : ChunkConfig) (job_id : Uuid) (piece : Bytes)
    (m : IsTrimmed piece) where
  abbrev Stands : Progress → Type 0
  Stands p = InSome piece p.chunks

  abbrev pub Held : Progress → Type 0
  Held p = InCurrent piece p.current ⊎ InSome piece p.chunks

  -- The current text becomes a chunk.
  pub emit-InSome :
      (p : Progress)
      → Held p
      → InSome piece (p.chunks ++ finalize_chunk table new_id cfg job_id p.seq p.current ∷ [])
  unfolding finalize_chunk
  emit-InSome p (inr h) = InSome-left piece p.chunks _ h
  emit-InSome p (inl h) =
      let (s, t, e) = trim_space-keeps h.before piece h.after h.ends m h.starts in
      InSome-right piece p.chunks _ (inl (s, t, ap trim_space h.parts ∙ e))

  pub emit-Stands : (p : Progress) → Held p → Stands (emit table new_id cfg job_id p)
  unfolding emit
  emit-Stands p h = emit-InSome p h

  pub emit_rest-Stands : (p : Progress) → Held p → Stands (emit_rest table new_id cfg job_id p)
  unfolding emit_rest
  emit_rest-Stands p h =
      if_cases Stands (ltb 0 (length p.current)) (λ e. emit-Stands p h)
        (λ e. elim h [
          | inr s ↦ s
          | inl c ↦ absurd (omega (tests, InCurrent-length piece m p.current c))
        ])

  -- Text that is appended leaves the piece where it is.
  pub append_text-Held :
      (sep : Bytes) (p : Progress) (next : Bytes)
      → IsSeparator sep
      → Held p
      → Held (append_text table new_id cfg job_id sep p next)
  unfolding append_text
  append_text-Held sep p next i (inr h) = inr h
  append_text-Held sep p next i (inl h) =
      if_cases (λ (t : Bytes). InCurrent piece t ⊎ InSome piece p.chunks) (ltb 0 (length p.current))
        (λ e. inl (InCurrent-append piece m p.current sep next i h))
        (λ e. absurd (omega (tests, InCurrent-length piece m p.current h)))

  -- A piece that is appended is held.
  pub append_text-Held_piece :
      (sep : Bytes) (p : Progress)
      → IsSeparator sep
      → Held (append_text table new_id cfg job_id sep p piece)
  unfolding append_text
  append_text-Held_piece sep p i =
      if_cases (λ (t : Bytes). InCurrent piece t ⊎ InSome piece p.chunks) (ltb 0 (length p.current))
        (λ e. inl (InCurrent-last piece m p.current sep i))
        (λ e. inl (InCurrent-alone piece m p.current (omega tests)))

  sentence_step-Held :
      (p : Progress) (sent : Bytes) → Held p → Held (sentence_step table new_id cfg job_id p sent)
  unfolding sentence_step
  sentence_step-Held p sent h =
      append_text-Held (str " ") _ sent blank-IsSeparator (if_both Held _ (inr (emit-Stands p h)) h)

  sentence_step-Held_piece : (p : Progress) → Held (sentence_step table new_id cfg job_id p piece)
  unfolding sentence_step
  sentence_step-Held_piece p = append_text-Held_piece (str " ") _ blank-IsSeparator

  long_loop-Held :
      (p : Progress) (sents : List Bytes)
      → Held p
      → Held (long_loop table new_id cfg job_id p sents)
  unfolding long_loop
  long_loop-Held p [] h = h
  long_loop-Held p (s ∷ sents) h =
      long_loop-Held (sentence_step table new_id cfg job_id p s) sents (sentence_step-Held p s h)

  pub long_loop-Held_piece :
      (p : Progress) (sents : List Bytes)
      → IsItem piece sents
      → Held (long_loop table new_id cfg job_id p sents)
  unfolding long_loop
  long_loop-Held_piece p [] i = absurd i
  long_loop-Held_piece p (s ∷ sents) (inl e) =
      long_loop-Held _ sents (
        subst (λ k. Held (sentence_step table new_id cfg job_id p k)) e
          (sentence_step-Held_piece p))
  long_loop-Held_piece p (s ∷ sents) (inr i) =
      long_loop-Held_piece (sentence_step table new_id cfg job_id p s) sents i
