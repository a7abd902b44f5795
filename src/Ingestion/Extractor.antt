-- ===== src/Ingestion/Extractor.antt =====
-- internal/ingestion/extractor.go. What the programs `pdftotext`, `pandoc` and `tesseract` print for
-- a document on their standard input, or the error of running them, is a parameter.
pub mod Fallback
mod Tests
use Prim.Native.String
use docpulse.Base.{ℕ, ◌≡◌, ◌≢◌, refl, ap, Bool, true, false, List, [], ◌∷◌, String, arith, inl, inr}
use docpulse.Base.Result.{Result, ok, err, ◌>>=◌, wrap, Result-cases}
use docpulse.Text.{trim_space, text_operations}
use docpulse.Text.Utf8.{Bytes}
use docpulse.Domain.{DocumentFormat, pdf_native, pdf_scanned, docx, image, unknown}

pub record Tools : Type 0 where
  pub pdftotext : Bytes → Result Bytes
  pub pandoc : Bytes → Result Bytes
  pub tesseract : Bytes → Result Bytes

abbrev is_blank : Bytes → Bool
is_blank [] = true
is_blank (b ∷ s) = false

module _ (tools : Tools) where
  pub extract_docx : Bytes → Result Bytes
  extract_docx content = do out ← wrap "pandoc" (tools.pandoc content); ok (trim_space out)

  pub extract_image : Bytes → Result Bytes
  extract_image content = do out ← wrap "tesseract" (tools.tesseract content); ok (trim_space out)

  -- What is returned for the text of `pdftotext`, trimmed: nothing in a native PDF is a scan.
  or_scan : Bytes → DocumentFormat → Bytes → Result Bytes
  or_scan content pdf_native [] = extract_image content
  or_scan content _ text = ok text

  pub extract_pdf : Bytes → DocumentFormat → Result Bytes
  extract_pdf content format = do
    out ← wrap "pdftotext" (tools.pdftotext content)
    or_scan content format (trim_space out)

  pub extract_text : Bytes → DocumentFormat → Result Bytes
  extract_text content pdf_native = extract_pdf content pdf_native
  extract_text content pdf_scanned = extract_pdf content pdf_scanned
  extract_text content docx = extract_docx content
  extract_text content image = extract_image content
  extract_text content unknown = err "unsupported format: unknown"

-- Opens the module, for tests.
unfoldable pub text_extractor : Unit {0}
unfolding text_operations extract_docx extract_image or_scan extract_pdf extract_text
text_extractor = tt
