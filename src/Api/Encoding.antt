-- ===== src/Api/Encoding.antt =====
-- What `writeJSON` of internal/api/handlers.go sends: the JSON of the types of
-- internal/domain/types.go by their tags, and the status. How package encoding/json writes an id, a
-- time, a float, bytes that are no text and a `json.RawMessage` is a parameter.
pub mod Secrets
mod Tests
use docpulse.Base.{
  ℕ, zero, suc, Bool, true, false, Option, none, some, List, [], ◌∷◌, String, ◌==◌, if◌then◌else◌,
}
use docpulse.Base.Int.{decimal}
use text.Mathlib.Text.{◌==◌ as str_eq}
use docpulse.Text.Utf8.{Bytes}
use docpulse.Domain.{
  Uuid, Time, Job, Webhook, JobStatus, pending, ingesting, chunking, extracting, assembling,
  completed, failed, DocumentFormat, pdf_native, pdf_scanned, docx, image, unknown, ModelTier, fast,
  strong,
}
use docpulse.Json.{Value, obj, arr, string, num, bool, null, Items, nil, cons, Fields, end, field}
use docpulse.Api.Handlers.{
  Reply, accepted, job_view, job_list, created, no_content, api_key, healthy, failure,
}
use docpulse.Database.JobStore.{Jobs}

pub record Texts : Type 0 where
  pub id_text : Uuid → String
  pub time_text : Time → String
  pub cost_text : ℕ → String
  pub score_text : ℕ → String
  pub bytes_text : Bytes → String
  pub raw : Bytes → Value

pub status_text : JobStatus → String
status_text pending = "pending"
status_text ingesting = "ingesting"
status_text chunking = "chunking"
status_text extracting = "extracting"
status_text assembling = "assembling"
status_text completed = "completed"
status_text failed = "failed"

pub format_text : DocumentFormat → String
format_text pdf_native = "pdf_native"
format_text pdf_scanned = "pdf_scanned"
format_text docx = "docx"
format_text image = "image"
format_text unknown = "unknown"

pub tier_text : ModelTier → String
tier_text fast = "fast"
tier_text strong = "strong"

-- The tag `omitempty`.
abbrev optional : String → Option Value → Fields → Fields
optional key none rest = rest
optional key (some v) rest = field key v rest

abbrev text_of {ℓ} : {A : Type ℓ} → (A → String) → Option A → Option Value
text_of f none = none
text_of f (some a) = some (string (f a))

abbrev nonempty : Option String → Option Value
nonempty none = none
nonempty (some s) = if str_eq s "" then none else some (string s)

module _ (x : Texts) where
  scores : List (String × ℕ) → Fields
  scores [] = end
  scores ((key, n) ∷ rest) = field key (num (x.score_text n)) (scores rest)

  score_map : Option (List (String × ℕ)) → Option Value
  score_map none = none
  score_map (some []) = none
  score_map (some (s ∷ rest)) = some (obj (scores (s ∷ rest)))

  raw_field : Option Bytes → Option Value
  raw_field none = none
  raw_field (some []) = none
  raw_field (some (c ∷ rest)) = some (x.raw (c ∷ rest))

  cost_field : ℕ → Option Value
  cost_field zero = none
  cost_field (suc n) = some (num (x.cost_text (suc n)))

  -- `Job`, in front of further fields
  pub job_fields : Job → Fields → Fields
  job_fields j rest = field "id" (string (x.id_text j.id)) (
      field "tenant_id" (string (x.id_text j.tenant_id)) (
        field "status" (string (status_text j.status)) (
          optional "document_format" (text_of format_text j.document_format) (
            field "document_size_bytes" (num (decimal j.document_size_bytes)) (
              field "schema" (obj (field "raw" (x.raw j.schema) end)) (
                optional "result" (raw_field j.result) (
                  optional "confidence_scores" (score_map j.confidence_scores) (
                    optional "model_used" (text_of tier_text j.model_used) (
                      optional "cost_usd" (cost_field j.cost_usd) (
                        optional "error_message" (nonempty j.error_message) (
                          field "created_at" (string (x.time_text j.created_at)) (
                            optional "completed_at" (text_of x.time_text j.completed_at)
                              rest))))))))))))

  job_items : Jobs → Items
  job_items [] = nil
  job_items (j ∷ jobs) = cons (obj (job_fields j end)) (job_items jobs)

  -- An empty list of jobs is a nil slice, which is written as null.
  jobs_value : Jobs → Value
  jobs_value [] = null
  jobs_value (j ∷ jobs) = arr (job_items (j ∷ jobs))

  pub webhook_fields : Webhook → Fields
  webhook_fields w = field "id" (string (x.id_text w.id)) (
      field "tenant_id" (string (x.id_text w.tenant_id))
        (field "url" (string w.url) (field "active" (bool w.active) end)))

  pub body : Reply → Option Value
  body (accepted id poll) = some (
      obj (
        field "job_id" (string (x.id_text id)) (
          field "status" (string (status_text pending))
            (field "poll_url" (string (x.bytes_text poll)) end))))
  body (job_view job poll) =
      some (obj (job_fields job (optional "poll_url" (text_of x.bytes_text poll) end)))
  body (job_list jobs total limit offset) = some (
      obj (
        field "jobs" (jobs_value jobs) (
          field "limit" (num (decimal limit))
            (field "offset" (num (decimal offset)) (field "total" (num (decimal total)) end)))))
  body (created hook) = some (obj (webhook_fields hook))
  body no_content = none
  body (api_key key) = some (obj (field "api_key" (string key) end))
  body healthy = some (obj (field "status" (string "ok") end))
  body (failure code msg kind) =
      some (obj (field "error" (string msg) (field "code" (string kind) end)))

pub status_of : Reply → ℕ
status_of (accepted id poll) = 202
status_of (job_view job poll) = 200
status_of (job_list jobs total limit offset) = 200
status_of (created hook) = 201
status_of no_content = 204
status_of (api_key key) = 200
status_of healthy = 200
status_of (failure code msg kind) = code

-- Opens the module, for tests.
unfoldable pub encoding : Unit {0}
unfolding status_text format_text tier_text scores score_map raw_field cost_field job_fields
    job_items jobs_value webhook_fields body status_of
encoding = tt
