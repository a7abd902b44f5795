-- ===== src/Extraction/Chunker.antt =====
-- internal/extraction/chunker.go. A loop is a recursion over its list, with its variables in a record.
-- `new_id n` is what the call of `uuid.New` for the chunk of sequence number `n` returns. The sizes
-- of a configuration are not negative.
pub mod Cap
pub mod Order
pub mod Held
pub mod Coverage
pub mod Complete
pub mod Overlap
pub mod Pieces
pub mod Size
mod Tests
use docpulse.Base.{
  ℕ, zero, suc, ◌+◌, ◌-◌, Bool, true, false, ◌&&◌, ◌||◌, Option, none, some, List, [], ◌∷◌, ◌++◌,
  leb, ltb, ◌==◌, if◌then◌else◌, length, drop,
}
use docpulse.Text.{text_operations, index, trim_space, split}
use docpulse.Text.Utf8.{Bytes, str, decode_rune, encode_rune, is_space, is_upper, runes}
use docpulse.Domain.{Uuid, Chunk, pending}

pub record ChunkConfig : Type 0 where
  pub max_chunk_size : ℕ
  pub overlap_size : ℕ
  pub max_chunks : ℕ

abbrev pub default_chunk_config : ChunkConfig
default_chunk_config = record { max_chunk_size = 4000; overlap_size = 200; max_chunks = 200 }

-- `splitParagraphs`
pub keep_trimmed : List Bytes → List Bytes
keep_trimmed [] = []
keep_trimmed (p ∷ ps) = elim (trim_space p) [
  | [] ↦ keep_trimmed ps
  | b ∷ t ↦ (b ∷ t) ∷ keep_trimmed ps
]

pub split_paragraphs : Bytes → List Bytes
split_paragraphs text = keep_trimmed (split (str "\n\n") 0 text)

-- `splitSentences`. `starts_sentence` reads the rune behind a full stop.
abbrev pub is_stop : ℕ → Bool
is_stop r = r == b'.' || (r == b'!' || r == b'?')

pub starts_sentence : (ℕ → Bool) → List ℕ → Bool
starts_sentence table [] = true
starts_sentence table (r ∷ rs) = is_space r || is_upper table r

abbrev pub add_trimmed : Bytes → List Bytes → List Bytes
add_trimmed [] rest = rest
add_trimmed (b ∷ t) rest = (b ∷ t) ∷ rest

pub sentence_loop : (ℕ → Bool) → Bytes → List ℕ → List Bytes
sentence_loop table current [] = add_trimmed (trim_space current) []
sentence_loop table current (r ∷ rs) = elim (is_stop r && starts_sentence table rs) [
  | true ↦ add_trimmed (trim_space (current ++ encode_rune r)) (sentence_loop table [] rs)
  | false ↦ sentence_loop table (current ++ encode_rune r) rs
]

pub split_sentences : (ℕ → Bool) → Bytes → List Bytes
split_sentences table text = sentence_loop table [] (runes 0 text)

-- `getOverlap`. `best` is `bestIdx`, with 0 for -1: a candidate is at least 2.
abbrev candidate : Bytes → Option ℕ → ℕ → ℕ
candidate sep none best = best
candidate sep (some i) best = if ltb best (i + length sep) then i + length sep else best

best_index : Bytes → List Bytes → ℕ → ℕ
best_index overlap [] best = best
best_index overlap (sep ∷ seps) best =
    best_index overlap seps (candidate sep (index sep overlap 0) best)

sentence_starts : List Bytes
sentence_starts = str ". " ∷ str "! " ∷ str "? " ∷ str ".\n" ∷ str "!\n" ∷ str "?\n" ∷ []

-- `for i, r := range overlap`: the bytes behind the first byte of a white space rune.
after_space : ℕ → Bytes → Option Bytes
after_space k [] = none
after_space (suc k) (b ∷ s) = after_space k s
after_space zero (b ∷ s) =
    let (r, w) = decode_rune (b ∷ s) in
    elim (is_space r) [ true ↦ some s | false ↦ after_space (w - 1) s ]

word_start : Bytes → Bytes
word_start overlap = elim (after_space 0 overlap) [ none ↦ overlap | some s ↦ s ]

overlap_start : Bytes → Bytes
overlap_start overlap =
    let best = best_index overlap sentence_starts 0 in
    if ltb 0 best && ltb best (length overlap) then drop best overlap else word_start overlap

pub get_overlap : ChunkConfig → Bytes → Bytes
get_overlap cfg text =
    if leb (length text) cfg.overlap_size
    then text
    else overlap_start (drop (length text - cfg.overlap_size) text)

pub record Progress : Type 0 where
  pub chunks : List Chunk
  pub current : Bytes
  pub seq : ℕ

-- Whether a loop breaks, or goes on.
pub data Flow : Type 0 where
  stop go : Progress → Flow

abbrev pub resume : (Progress → Progress) → Flow → Progress
resume k (stop p) = p
resume k (go p) = k p

-- `P` holds where the loop breaks, and `Q` where it goes on.
pub data OnFlow (P Q : Progress → Type 0) : Flow → Type 0 where
  stopped : {p : Progress} → P p → OnFlow P Q (stop p)
  goes : {p : Progress} → Q p → OnFlow P Q (go p)

pub OnFlow-resume :
    (P Q R : Progress → Type 0) (k : Progress → Progress) {f : Flow}
    → OnFlow P Q f
    → ((q : Progress) → P q → R q)
    → ((q : Progress) → Q q → R (k q))
    → R (resume k f)
OnFlow-resume P Q R k (stopped {p} h) here later = here p h
OnFlow-resume P Q R k (goes {p} h) here later = later p h

module _ (table : ℕ → Bool) (new_id : ℕ → Uuid) (cfg : ChunkConfig) (job_id : Uuid) where
  pub finalize_chunk : ℕ → Bytes → Chunk
  finalize_chunk seq content = record {
    id = new_id seq;
    job_id = job_id;
    sequence = seq;
    content = trim_space content;
    status = pending;
  }

  -- Appends the current text as a chunk, and does not reset it.
  pub emit : Progress → Progress
  emit p = record p { chunks = p.chunks ++ finalize_chunk p.seq p.current ∷ []; seq = p.seq + 1 }

  -- The current text leaves no room for `next`.
  abbrev is_full : Progress → Bytes → Bool
  is_full p next =
      ltb 0 (length p.current) && ltb cfg.max_chunk_size (length p.current + length next + 1)

  abbrev with_overlap : Progress → Bytes → Progress
  with_overlap p text = record p { current = get_overlap cfg text }

  pub append_text : Bytes → Progress → Bytes → Progress
  append_text sep p next = record p {
    current = if ltb 0 (length p.current) then p.current ++ sep ++ next else p.current ++ next;
  }

  -- The loop of `splitLongParagraph`.
  sentence_step : Progress → Bytes → Progress
  sentence_step p sent =
      append_text (str " ") (if is_full p sent then with_overlap (emit p) p.current else p) sent

  pub long_loop : Progress → List Bytes → Progress
  long_loop p [] = p
  long_loop p (sent ∷ sents) = long_loop (sentence_step p sent) sents

  pub emit_rest : Progress → Progress
  emit_rest p = if ltb 0 (length p.current) then emit p else p

  pub split_long_paragraph : ℕ → Bytes → Progress
  split_long_paragraph seq para =
      emit_rest
        (long_loop (record { chunks = []; current = []; seq = seq }) (split_sentences table para))

  -- A paragraph that is longer than a chunk; the loop goes on with an empty current text.
  add_long : Progress → Bytes → Progress
  add_long p para =
      let flushed = emit_rest p in
      let long = split_long_paragraph flushed.seq para in
      record { chunks = flushed.chunks ++ long.chunks; current = []; seq = long.seq }

  add_paragraph : Progress → Bytes → Progress
  add_paragraph p para =
      if ltb cfg.max_chunk_size (length para)
      then add_long p para
      else append_text (str "\n\n") p para

  -- The first test of the loop of `Chunk`: a full chunk is finalised, and once `max_chunks` are
  -- there the loop breaks.
  flush : Progress → Bytes → Flow
  flush p para =
      if is_full p para
      then if leb cfg.max_chunks (length (emit p).chunks)
        then stop (emit p)
        else go (with_overlap (emit p) p.current)
      else go p

  paragraph_loop : Progress → List Bytes → Progress
  paragraph_loop p [] = p
  paragraph_loop p (para ∷ paras) =
      resume (λ q. paragraph_loop (add_paragraph q para) paras) (flush p para)

  last_chunk : Progress → List Chunk
  last_chunk p =
      if ltb 0 (length p.current) && ltb (length p.chunks) cfg.max_chunks
      then p.chunks ++ finalize_chunk p.seq p.current ∷ []
      else p.chunks

  whole_chunk : Bytes → Chunk
  whole_chunk text = record {
    id = new_id 0;
    job_id = job_id;
    sequence = 0;
    content = text;
    status = pending;
  }

  pub chunk : Bytes → List Chunk
  chunk text =
      if leb (length text) cfg.max_chunk_size
      then whole_chunk text ∷ []
      else last_chunk
          (paragraph_loop (record { chunks = []; current = []; seq = 0 }) (split_paragraphs text))

-- Opens the whole chunker, for tests.
unfoldable pub chunker : Unit {0}
unfolding text_operations chunk whole_chunk last_chunk flush paragraph_loop add_paragraph add_long
    split_long_paragraph emit_rest long_loop sentence_step append_text emit finalize_chunk
    get_overlap overlap_start word_start after_space sentence_starts best_index split_sentences
    sentence_loop starts_sentence split_paragraphs keep_trimmed
chunker = tt
