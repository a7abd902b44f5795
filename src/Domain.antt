-- ===== src/Domain.antt =====
-- internal/domain/types.go: the entities that the packages share.
-- A `uuid.UUID` is its 128-bit value and a `time.Time` its nanoseconds; a confidence score is in
-- hundredths, and a cost in units of 10^-8 dollars, in which the prices per token are whole.
use docpulse.Base.{ℕ, Bool, Option, List, String}
use docpulse.Text.Utf8.{Bytes}

abbrev pub Uuid : Type 0
Uuid = ℕ

abbrev pub Time : Type 0
Time = ℕ

pub data JobStatus : Type 0 where
  pending ingesting chunking extracting assembling completed failed : JobStatus

pub data DocumentFormat : Type 0 where
  pdf_native pdf_scanned docx image unknown : DocumentFormat

pub data ModelTier : Type 0 where
  fast strong : ModelTier

pub record Tenant : Type 0 where
  pub id : Uuid
  pub name : String
  pub api_key_hash : String
  pub rate_limit : ℕ
  pub byte_limit : ℕ
  pub created_at : Time

-- A Go string or map that is empty where the column is null is an `Option`.
pub record Job : Type 0 where
  pub id : Uuid
  pub tenant_id : Uuid
  pub status : JobStatus
  pub document_url : Bytes
  pub document_format : Option DocumentFormat
  pub document_size_bytes : ℕ
  pub schema : Bytes
  pub result : Option Bytes
  pub confidence_scores : Option (List (String × ℕ))
  pub model_used : Option ModelTier
  pub cost_usd : ℕ
  pub error_message : Option String
  pub created_at : Time
  pub completed_at : Option Time

-- `PageStart` and `PageEnd` are never set.
pub record Chunk : Type 0 where
  pub id : Uuid
  pub job_id : Uuid
  pub sequence : ℕ
  pub content : Bytes
  pub status : JobStatus

pub record Webhook : Type 0 where
  pub id : Uuid
  pub tenant_id : Uuid
  pub url : String
  pub secret : String
  pub active : Bool
