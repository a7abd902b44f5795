-- ===== src/Ingestion/Detector.antt =====
-- internal/ingestion/detector.go.
mod Tests
use docpulse.Base.{
  leb, true, ℕ, suc, ◌≤◌, ◌≡◌, refl, Bool, ◌&&◌, ◌||◌, List, [], ◌∷◌, arith, ◌==◌, if◌then◌else◌,
  length,
}
use docpulse.Text.{starts_with}
use docpulse.Text.Utf8.{Bytes}
use docpulse.Domain.{DocumentFormat, pdf_native, docx, image, unknown}

-- The tests on the first four bytes, in the order of the source.
from_magic : ℕ → ℕ → ℕ → ℕ → DocumentFormat
from_magic b0 b1 b2 b3 =
    if b0 == 0x25 && (b1 == 0x50 && (b2 == 0x44 && b3 == 0x46))
    then pdf_native
    else if b0 == 0x50 && b1 == 0x4B
    then docx
    else if b0 == 0xFF && b1 == 0xD8
    then image
    else if b0 == 0x89 && (b1 == 0x50 && (b2 == 0x4E && b3 == 0x47))
    then image
    else if (b0 == 0x49 && b1 == 0x49) || (b0 == 0x4D && b1 == 0x4D)
    then image
    else unknown

pub detect_format : Bytes → DocumentFormat
detect_format (b0 ∷ b1 ∷ b2 ∷ b3 ∷ rest) = from_magic b0 b1 b2 b3
detect_format _ = unknown

-- The magic numbers with their formats.
abbrev pub magic_numbers : List (Bytes × DocumentFormat)
magic_numbers =
    (0x25 ∷ 0x50 ∷ 0x44 ∷ 0x46 ∷ [], pdf_native)
    ∷ (0x50 ∷ 0x4B ∷ [], docx)
    ∷ (0xFF ∷ 0xD8 ∷ [], image)
    ∷ (0x89 ∷ 0x50 ∷ 0x4E ∷ 0x47 ∷ [], image)
    ∷ (0x49 ∷ 0x49 ∷ [], image)
    ∷ (0x4D ∷ 0x4D ∷ [], image)
    ∷ []

abbrev pub first_match : Bytes → List (Bytes × DocumentFormat) → DocumentFormat
first_match data' [] = unknown
first_match data' ((magic, format) ∷ table) =
    if starts_with magic data' then format else first_match data' table

-- A document has the format of the first magic number in the table that it starts with; it is
-- unknown where it starts with none, and where it has less than four bytes.
pub detect_format-first_match :
    (content : Bytes)
    → detect_format content
      ≡ (if leb 4 (length content) then first_match content magic_numbers else unknown)
unfolding detect_format from_magic
detect_format-first_match (b0 ∷ b1 ∷ b2 ∷ b3 ∷ rest) =
    let long : leb 4 (length (b0 ∷ b1 ∷ b2 ∷ b3 ∷ rest)) ≡ true = ground arith in ground arith
detect_format-first_match (b0 ∷ b1 ∷ b2 ∷ []) = refl
detect_format-first_match (b0 ∷ b1 ∷ []) = refl
detect_format-first_match (b0 ∷ []) = refl
detect_format-first_match [] = refl

-- Opens the module, for tests.
unfoldable pub detector : Unit {0}
unfolding from_magic detect_format
detector = tt
