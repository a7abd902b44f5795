-- ===== src/Extraction/Chunker/Tests.antt =====
-- Runs of the chunker.
use docpulse.Base.{ℕ, ◌≡◌, ◌≤◌, refl, Bool, false, List, [], ◌∷◌, String, arith, inl, length, All}
use docpulse.Text.Utf8.{Bytes, str}
use docpulse.Domain.{Chunk}
use docpulse.Extraction.Chunker.{ChunkConfig, chunk, chunker}
use docpulse.Extraction.Chunker.Cap.{length-chunk-le}
use docpulse.Extraction.Chunker.Complete.{visible_all, pieces, chunk-InSome_all}
use docpulse.Text.Visible.{visible}
use docpulse.Extraction.Chunker.Held.{InSome}
use docpulse.Extraction.Chunker.Order.{IsNumbered, chunk-IsNumbered}
use docpulse.Extraction.Chunker.Size.{HasSize, chunk-HasSize}
use mathlib.Core.List.{map}

abbrev ascii : ℕ → Bool
ascii r = false

abbrev small : ChunkConfig
small = record { max_chunk_size = 10; overlap_size = 4; max_chunks = 3 }

abbrev contents : ChunkConfig → String → List Bytes
contents cfg text = map (λ (c : Chunk). c.content) (chunk ascii (λ n. n) cfg 7 (str text))

contents-small :
    contents small "abcde fgh\n\nij kl\n\nmn"
    ≡ str "abcde fgh" ∷ str "fgh\n\nij kl" ∷ str "kl\n\nmn" ∷ []
unfolding chunker
contents-small = refl

contents_long :
    contents small "One two. Three. Four."
    ≡ str "One two." ∷ str "two. Three." ∷ str "ree. Four." ∷ []
unfolding chunker
contents_long = refl

-- Six sentence chunks where at most three are wanted.
abbrev overlong : Bytes
overlong = str "Aaaaaaa. Bbbbbbb. Ccccccc. Ddddddd. Eeeeeee. Fffffff."

chunks_overlong : length (chunk ascii (λ n. n) small 7 overlong) ≡ 6
unfolding chunker
chunks_overlong = refl

abbrev three_paragraphs : Bytes
three_paragraphs = str "abcde fgh\n\nij kl\n\nmn"

chunk-IsNumbered_example : IsNumbered (λ n. n) 7 0 (chunk ascii (λ n. n) small 7 three_paragraphs)
chunk-IsNumbered_example = chunk-IsNumbered ascii (λ n. n) small 7 three_paragraphs

chunk-HasSize_example : All (HasSize 16) (chunk ascii (λ n. n) small 7 three_paragraphs)
unfolding chunker
chunk-HasSize_example =
    chunk-HasSize ascii (λ n. n) small 7 three_paragraphs
      (inl (omega arith), (inl (omega arith), (inl (omega arith), tt)))

length-chunk-le_example : length (chunk ascii (λ n. n) small 7 three_paragraphs) ≤ 3
unfolding chunker
length-chunk-le_example =
    length-chunk-le ascii (λ n. n) small 7 three_paragraphs (omega arith)
      (omega arith, (omega arith, (omega arith, tt)))

abbrev four : ChunkConfig
four = record { max_chunk_size = 10; overlap_size = 4; max_chunks = 4 }

chunk-InSome_all_example :
    (visible_all (pieces ascii four three_paragraphs) ≡ visible three_paragraphs)
    × All
        (λ p. InSome p (chunk ascii (λ n. n) four 7 three_paragraphs))
        (pieces ascii four three_paragraphs)
unfolding chunker
chunk-InSome_all_example = chunk-InSome_all ascii four (λ n. n) 7 three_paragraphs (omega arith)
