-- ===== src/Ingestion/Detector/Tests.antt =====
-- Runs of the detector.
use docpulse.Base.{◌≡◌, refl, [], ◌∷◌}
use docpulse.Domain.{unknown}
use docpulse.Ingestion.Detector.{
  detect_format, first_match, magic_numbers, detect_format-first_match,
}

detect_format-first_match_example :
    detect_format (0x50 ∷ 0x4B ∷ 3 ∷ 4 ∷ []) ≡ first_match (0x50 ∷ 0x4B ∷ 3 ∷ 4 ∷ []) magic_numbers
detect_format-first_match_example = detect_format-first_match (0x50 ∷ 0x4B ∷ 3 ∷ 4 ∷ [])

-- Three bytes are too few for any format.
detect_format_short : detect_format (0x50 ∷ 0x4B ∷ 3 ∷ []) ≡ unknown
unfolding detect_format
detect_format_short = refl
