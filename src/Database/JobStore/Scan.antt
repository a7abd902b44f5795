-- ===== src/Database/JobStore/Scan.antt =====
-- `scanJob` of internal/database/job_store.go: the columns of a row, some of which may be null, and
-- the job they give. `json.Unmarshal` of the scores is a parameter. The texts of the JSONB columns
-- in a row are those that PostgreSQL gives back. The digits of a time behind the microseconds, which
-- it drops, are left out.
use docpulse.Base.{ℕ, ◌≡◌, refl, ap, Option, none, some, List, [], String}
use docpulse.Base.Result.{Result, ok, err}
use docpulse.Text.Utf8.{Bytes}
use docpulse.Domain.{Uuid, Time, Job, JobStatus, DocumentFormat, ModelTier}
use docpulse.Database.JobStore.{Fault}

abbrev pub Scores : Type 0
Scores = List (String × ℕ)

pub record Columns : Type 0 where
  pub id : Uuid
  pub tenant_id : Uuid
  pub status : JobStatus
  pub document_url : Option Bytes
  pub document_format : Option DocumentFormat
  pub document_size_bytes : ℕ
  pub schema : Bytes
  pub result : Option Bytes
  pub confidence_scores : Option Bytes
  pub model_used : Option ModelTier
  pub cost_usd : ℕ
  pub error_message : Option String
  pub created_at : Time
  pub completed_at : Option Time

or_empty : Option Bytes → Bytes
or_empty none = []
or_empty (some b) = b

-- The error of `Unmarshal` is dropped: `unmarshal` gives what is then in the map.
decoded : (Bytes → Option Scores) → Option Bytes → Option Scores
decoded unmarshal none = none
decoded unmarshal (some b) = unmarshal b

pub job_of : (Bytes → Option Scores) → Columns → Job
job_of unmarshal c = record {
  id = c.id;
  tenant_id = c.tenant_id;
  status = c.status;
  document_url = or_empty c.document_url;
  document_format = c.document_format;
  document_size_bytes = c.document_size_bytes;
  schema = c.schema;
  result = c.result;
  confidence_scores = decoded unmarshal c.confidence_scores;
  model_used = c.model_used;
  cost_usd = c.cost_usd;
  error_message = c.error_message;
  created_at = c.created_at;
  completed_at = c.completed_at;
}

-- The first argument is the error of `Scan`.
pub scan_job : Fault → (Bytes → Option Scores) → Columns → Result Job
scan_job (some e) unmarshal c = err e
scan_job none unmarshal c = ok (job_of unmarshal c)

encoded : (Scores → Bytes) → Option Scores → Option Bytes
encoded marshal none = none
encoded marshal (some s) = some (marshal s)

-- The columns of a job, as the statements write them: the scores are JSON.
pub columns_of : (Scores → Bytes) → Job → Columns
columns_of marshal j = record {
  id = j.id;
  tenant_id = j.tenant_id;
  status = j.status;
  document_url = some j.document_url;
  document_format = j.document_format;
  document_size_bytes = j.document_size_bytes;
  schema = j.schema;
  result = j.result;
  confidence_scores = encoded marshal j.confidence_scores;
  model_used = j.model_used;
  cost_usd = j.cost_usd;
  error_message = j.error_message;
  created_at = j.created_at;
  completed_at = j.completed_at;
}

decoded-encoded :
    (unmarshal : Bytes → Option Scores) (marshal : Scores → Bytes) (o : Option Scores)
    → ((s : Scores) → unmarshal (marshal s) ≡ some s)
    → decoded unmarshal (encoded marshal o) ≡ o
unfolding decoded encoded
decoded-encoded unmarshal marshal none h = refl
decoded-encoded unmarshal marshal (some s) h = h s

-- A job is read back from the columns that were written for it.
scan_job-columns_of :
    (unmarshal : Bytes → Option Scores) (marshal : Scores → Bytes) (j : Job)
    → ((s : Scores) → unmarshal (marshal s) ≡ some s)
    → scan_job none unmarshal (columns_of marshal j) ≡ ok j
unfolding scan_job job_of columns_of or_empty
scan_job-columns_of unmarshal marshal j h =
    ap (λ o. ok (record j { confidence_scores = o }))
      (decoded-encoded unmarshal marshal j.confidence_scores h)
