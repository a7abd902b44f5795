-- ===== src/Ingestion/Extractor/Tests.antt =====
-- Runs of the extractor on tools that print fixed texts.
use docpulse.Base.{◌≡◌, refl, ◌↔◌, []}
use docpulse.Base.Result.{ok, err}
use docpulse.Text.Utf8.{str}
use docpulse.Domain.{pdf_native, pdf_scanned}
use docpulse.Ingestion.Extractor.{Tools, extract_text, text_extractor}
use docpulse.Ingestion.Extractor.Fallback.{IsTextOf, extract_text_iff}

abbrev scanner : Tools
scanner = record {
  pdftotext = λ b. ok (str " ");
  pandoc = λ b. err "no pandoc";
  tesseract = λ b. ok (str "Ann ");
}

extract_text_iff_example :
    (extract_text scanner [] pdf_native ≡ ok (str "Ann"))
    ↔ IsTextOf scanner [] pdf_native (str "Ann")
extract_text_iff_example = extract_text_iff scanner [] pdf_native (str "Ann")

-- The scan is read where the PDF is taken for a native one, and only there.
extract_text_native : extract_text scanner [] pdf_native ≡ ok (str "Ann")
unfolding text_extractor
extract_text_native = refl

extract_text_scanned : extract_text scanner [] pdf_scanned ≡ ok []
unfolding text_extractor
extract_text_scanned = refl
