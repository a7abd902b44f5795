-- ===== src/Ingestion/Extractor/Fallback.antt =====
-- Which text a document yields.
use docpulse.Base.{◌≡◌, ◌≢◌, refl, ap, ◌⊎◌, inl, inr, ◌↔◌, [], ◌∷◌, String, sym, ◌∙◌}
use docpulse.Base.Result.{Result, ok, err, ◌>>=◌, wrap, wrap->>=_iff, ok-injective}
use docpulse.Text.{trim_space}
use docpulse.Text.Utf8.{Bytes}
use docpulse.Domain.{DocumentFormat, pdf_native, pdf_scanned, docx, image, unknown}
use docpulse.Ingestion.Extractor.{
  Tools, extract_text, extract_pdf, extract_docx, extract_image, or_scan,
}

-- The output of the program for the format, trimmed; the recognition is asked for an image, and for
-- a native PDF whose text is blank.
abbrev pub IsTextOf : Tools → Bytes → DocumentFormat → Bytes → Type 0
IsTextOf tools content pdf_native s =
    (out : Bytes) × (tools.pdftotext content ≡ ok out)
    × (((trim_space out ≢ []) × (s ≡ trim_space out))
        ⊎ ((trim_space out ≡ [])
            × (seen : Bytes) × (tools.tesseract content ≡ ok seen)
            × (s ≡ trim_space seen)))
IsTextOf tools content pdf_scanned s =
    (out : Bytes) × (tools.pdftotext content ≡ ok out) × (s ≡ trim_space out)
IsTextOf tools content docx s =
    (out : Bytes) × (tools.pandoc content ≡ ok out) × (s ≡ trim_space out)
IsTextOf tools content image s =
    (out : Bytes) × (tools.tesseract content ≡ ok out) × (s ≡ trim_space out)
IsTextOf tools content unknown s = ⊥

trimmed_iff :
    (what : String) (m : Result Bytes) (s : Bytes)
    → ((wrap what m >>= λ out. ok (trim_space out)) ≡ ok s)
      ↔ ((out : Bytes) × (m ≡ ok out) × (s ≡ trim_space out))
trimmed_iff what (ok out) s = (
  λ h. (out, refl, sym (ok-injective h)),
  λ (o, e, h). ap ok (sym (h ∙ ap trim_space (sym (ok-injective e)))),
)
trimmed_iff what (err e) s = (λ h. absurd cc, λ (_, h, _). absurd cc)

or_scan_scanned :
    (tools : Tools) (content t s : Bytes) → (or_scan tools content pdf_scanned t ≡ ok s) ↔ (t ≡ s)
unfolding or_scan
or_scan_scanned tools content [] s = (ok-injective, ap ok)
or_scan_scanned tools content (b ∷ t) s = (ok-injective, ap ok)

or_scan_native :
    (tools : Tools) (content t s : Bytes)
    → (or_scan tools content pdf_native t ≡ ok s) ↔ (
        ((t ≢ []) × (s ≡ t))
        ⊎ ((t ≡ []) × (seen : Bytes) × (tools.tesseract content ≡ ok seen) × (s ≡ trim_space seen)))
unfolding or_scan extract_image
or_scan_native tools content [] s =
    let (to, from) = trimmed_iff "tesseract" (tools.tesseract content) s in
    (
      λ h. let (seen, e, k) = to h in inr (refl, seen, e, k),
      λ h. elim h [ inl (k, _) ↦ absurd (k refl) | inr (_, seen, e, k) ↦ from (seen, e, k) ],
    )
or_scan_native tools content (b ∷ t) s = (
  λ h. inl (λ e. absurd cc, sym (ok-injective h)),
  λ h. elim h [ inl (_, k) ↦ ap ok (sym k) | inr (k, _, _, _) ↦ absurd cc ],
)

-- The extraction of the text answers `s` exactly where `s` is the trimmed output of the program for
-- the document's format: pdftotext for a PDF, pandoc for DOCX, tesseract for an image. For a native
-- PDF, and for no other, tesseract takes the place of pdftotext where that one prints blanks only.
pub extract_text_iff :
    (tools : Tools) (content : Bytes) (format : DocumentFormat) (s : Bytes)
    → (extract_text tools content format ≡ ok s) ↔ IsTextOf tools content format s
unfolding extract_text extract_docx extract_image extract_pdf or_scan
extract_text_iff tools content docx s = trimmed_iff "pandoc" (tools.pandoc content) s
extract_text_iff tools content image s = trimmed_iff "tesseract" (tools.tesseract content) s
extract_text_iff tools content unknown s = (λ h. absurd cc, λ h. absurd h)
extract_text_iff tools content pdf_scanned s =
    let (to, from) =
      wrap->>=_iff "pdftotext" (tools.pdftotext content)
        (λ out. or_scan tools content pdf_scanned (trim_space out)) s in
    (
      λ h.
          let (out, e, f) = to h in
          (out, e, sym ((or_scan_scanned tools content (trim_space out) s).0 f)),
      λ (out, e, f). from (out, e, (or_scan_scanned tools content (trim_space out) s).1 (sym f)),
    )
extract_text_iff tools content pdf_native s =
    let (to, from) =
      wrap->>=_iff "pdftotext" (tools.pdftotext content)
        (λ out. or_scan tools content pdf_native (trim_space out)) s in
    (
      λ h.
          let (out, e, f) = to h in (out, e, (or_scan_native tools content (trim_space out) s).0 f),
      λ (out, e, f). from (out, e, (or_scan_native tools content (trim_space out) s).1 f),
    )
