-- ===== src/Api/Handlers.antt =====
-- The handlers of internal/api/handlers.go behind the middleware: `auth` gives them the tenant.
-- What `uuid.Parse` makes of a path is an argument, and so are the new id and the time.
pub mod Extracts
pub mod Hooks
pub mod Isolation
mod Tests
use text.Mathlib.Text.{◌==◌ as str_eq}
use docpulse.Base.{
  ℕ, ◌+◌, Bool, true, false, ◌&&◌, Option, none, some, List, [], ◌∷◌, ◌++◌, String, ltb, leb,
  if◌then◌else◌, length,
}
use docpulse.Base.Dict.{lookup}
use docpulse.Base.Int.{ℤ, pos, negsuc}
use docpulse.Base.Result.{Result, ok, err, wrap}
use docpulse.Text.Number.{atoi}
use docpulse.Text.Hex.{hex_text}
use docpulse.Text.Utf8.{Bytes, str}
use docpulse.Domain.{
  Uuid, Time, Tenant, Job, Webhook, JobStatus, pending, completed, failed, DocumentFormat, unknown,
}
use docpulse.Json.{Codec}
use docpulse.Api.Schema.{validate_schema, schema_check}
use docpulse.Database.JobStore.{Fault, Jobs, job_store}
use docpulse.Database.JobStore
use docpulse.Database.WebhookStore.{Webhooks}
use docpulse.Database.WebhookStore
use docpulse.Ingestion.Detector.{detect_format}

-- An answer: the status is 202, 200, 200, 201, 204, 200, 200, or the one given.
pub data Reply : Type 0 where
  accepted : Uuid → Bytes → Reply
  job_view : Job → Option Bytes → Reply
  job_list : Jobs → (total limit offset : ℕ) → Reply
  created : Webhook → Reply
  no_content : Reply
  api_key : String → Reply
  healthy : Reply
  failure : ℕ → (msg code : String) → Reply

pub record Document : Type 0 where
  pub content : Bytes
  pub filename : Bytes

-- The multipart form: the errors of reading it and the file, the file, and the schema, empty where
-- the field is missing.
pub record Form : Type 0 where
  pub malformed : Fault
  pub document : Option Document
  pub unreadable : Fault
  pub schema : Bytes

-- The object store, the ids as texts, the address of the service, what PostgreSQL gives back for a
-- text that it keeps as JSONB, and `devAPIKey`.
pub record Handlers : Type 0 where
  pub json : Codec
  pub upload : Bytes → Bytes → Result Bytes
  pub uuid_text : Uuid → Bytes
  pub base_url : Bytes
  pub jsonb : Bytes → Bytes
  pub dev_api_key : String

abbrev bad_request : String → Reply
bad_request msg = failure 400 msg "bad_request"

abbrev internal_error : String → Reply
internal_error msg = failure 500 msg "internal_error"

abbrev is_empty : Bytes → Bool
is_empty [] = true
is_empty (b ∷ s) = false

pub new_job : Uuid → Time → Tenant → Bytes → DocumentFormat → Document → Bytes → Job
new_job id now tenant url format doc schema = record {
  id = id;
  tenant_id = tenant.id;
  status = pending;
  document_url = url;
  document_format = some format;
  document_size_bytes = length doc.content;
  schema = schema;
  result = none;
  confidence_scores = none;
  model_used = none;
  cost_usd = 0;
  error_message = none;
  created_at = now;
  completed_at = none;
}

module _ (h : Handlers) where
  pub handle_dev_setup : Reply
  handle_dev_setup =
      if str_eq h.dev_api_key ""
      then failure 404 "dev mode not enabled" "not_found"
      else api_key h.dev_api_key

  pub poll_url : Uuid → Bytes
  poll_url id = h.base_url ++ str "/v1/jobs/" ++ h.uuid_text id

  pub storage_key : Tenant → Uuid → Document → Bytes
  storage_key tenant id doc =
      h.uuid_text tenant.id ++ str "/" ++ h.uuid_text id ++ str "/" ++ doc.filename

  answer_created : Uuid → Result (Unit {0}) × Jobs → Reply × Jobs
  answer_created id (err e, jobs) = (internal_error "failed to create job", jobs)
  answer_created id (ok _, jobs) = (accepted id (poll_url id), jobs)

  store_job :
      Fault
      → Uuid
      → Time
      → Tenant
      → Document
      → Bytes
      → DocumentFormat
      → Result Bytes
      → Jobs
      → Reply × Jobs
  store_job fault id now tenant doc schema format (err e) jobs =
      (internal_error "failed to store document", jobs)
  store_job fault id now tenant doc schema format (ok url) jobs = answer_created id (
      JobStore.create fault
        (JobStore.as_jsonb h.jsonb (new_job id now tenant url format doc schema)) jobs)

  upload_document :
      Fault → Uuid → Time → Tenant → Document → Bytes → DocumentFormat → Jobs → Reply × Jobs
  upload_document fault id now tenant doc schema unknown jobs =
      (bad_request "unsupported document format", jobs)
  upload_document fault id now tenant doc schema format jobs =
      store_job fault id now tenant doc schema format
        (h.upload (storage_key tenant id doc) doc.content) jobs

  check_schema :
      Fault → Uuid → Time → Tenant → Document → Bytes → Result (Unit {0}) → Jobs → Reply × Jobs
  check_schema fault id now tenant doc schema (err e) jobs = (bad_request e, jobs)
  check_schema fault id now tenant doc schema (ok _) jobs =
      upload_document fault id now tenant doc schema (detect_format doc.content) jobs

  read_document : Fault → Uuid → Time → Tenant → Fault → Document → Bytes → Jobs → Reply × Jobs
  read_document fault id now tenant (some e) doc schema jobs =
      (bad_request "failed to read document", jobs)
  read_document fault id now tenant none doc schema jobs =
      if is_empty schema
      then (bad_request "missing schema field", jobs)
      else check_schema fault id now tenant doc schema (validate_schema h.json schema) jobs

  read_form : Fault → Uuid → Time → Tenant → Form → Fault → Option Document → Jobs → Reply × Jobs
  read_form fault id now tenant form (some e) doc jobs =
      (bad_request "request body too large or malformed", jobs)
  read_form fault id now tenant form none none jobs = (bad_request "missing document field", jobs)
  read_form fault id now tenant form none (some doc) jobs =
      read_document fault id now tenant form.unreadable doc form.schema jobs

  pub handle_extract : Fault → Uuid → Time → Option Tenant → Form → Jobs → Reply × Jobs
  handle_extract fault id now none form jobs = (failure 401 "unauthorized" "unauthorized", jobs)
  handle_extract fault id now (some tenant) form jobs =
      read_form fault id now tenant form form.malformed form.document jobs

  abbrev pub is_over : JobStatus → Bool
  is_over completed = true
  is_over failed = true
  is_over _ = false

  pub view_job : Uuid → Result Job → Reply
  view_job id (err e) = failure 404 "job not found" "not_found"
  view_job id (ok job) = job_view job (if is_over job.status then none else some (poll_url id))

  pub handle_get_job : Fault → Tenant → Option Uuid → Jobs → Reply
  handle_get_job fault tenant none jobs = bad_request "invalid job ID"
  handle_get_job fault tenant (some id) jobs = view_job id (JobStore.get fault tenant.id id jobs)

-- `HandleHealth`
pub handle_health : Reply
handle_health = healthy

-- The query parameters; a missing one is empty.
pub limit_of : Option ℤ → ℕ
limit_of (some (pos n)) = if ltb 0 n && leb n 100 then n else 20
limit_of _ = 20

pub offset_of : Option ℤ → ℕ
offset_of (some (pos n)) = n
offset_of _ = 0

list_reply : (limit offset : ℕ) → Result ℕ → Result Jobs → Reply
list_reply limit offset (err e) jobs = internal_error "failed to list jobs"
list_reply limit offset (ok total) (err e) = internal_error "failed to list jobs"
list_reply limit offset (ok total) (ok jobs) = job_list jobs total limit offset

pub handle_list_jobs : Fault → Fault → Tenant → (limit offset : Bytes) → Jobs → Reply
handle_list_jobs count_fault list_fault tenant limit offset jobs =
    let n = limit_of (atoi limit) in
    let o = offset_of (atoi offset) in
    list_reply n o (JobStore.count count_fault tenant.id jobs)
      (JobStore.list list_fault tenant.id n o jobs)

pub webhook_reply : Webhook → Result (Unit {0}) × Webhooks → Reply × Webhooks
webhook_reply hook (err e, hooks) = (internal_error "failed to create webhook", hooks)
webhook_reply hook (ok _, hooks) = (created hook, hooks)

-- `generateSecret`, from 32 random bytes
generate_secret : Result Bytes → Result String
generate_secret (err e) = err e
generate_secret (ok b) = ok (hex_text b)

-- The decoded body, the new id and the random bytes are arguments; an empty URL is refused.
pub create_hook : Fault → Uuid → Tenant → String → Result String → Webhooks → Reply × Webhooks
create_hook fault id tenant url (err e) hooks = (internal_error "failed to create webhook", hooks)
create_hook fault id tenant url (ok secret) hooks =
    let hook : Webhook = record {
      id = id;
      tenant_id = tenant.id;
      url = url;
      secret = secret;
      active = true;
    } in
    webhook_reply hook (WebhookStore.create fault hook hooks)

pub handle_create_webhook :
    Fault → Uuid → Tenant → Result String → Result Bytes → Webhooks → Reply × Webhooks
handle_create_webhook fault id tenant (err e) random hooks =
    (bad_request "missing or invalid url", hooks)
handle_create_webhook fault id tenant (ok url) random hooks =
    if str_eq url ""
    then (bad_request "missing or invalid url", hooks)
    else create_hook fault id tenant url (generate_secret random) hooks

delete_reply : Result (Unit {0}) × Webhooks → Reply × Webhooks
delete_reply (err e, hooks) = (failure 404 "webhook not found" "not_found", hooks)
delete_reply (ok _, hooks) = (no_content, hooks)

pub handle_delete_webhook : Fault → Tenant → Option Uuid → Webhooks → Reply × Webhooks
handle_delete_webhook fault tenant none hooks = (bad_request "invalid webhook ID", hooks)
handle_delete_webhook fault tenant (some id) hooks =
    delete_reply (WebhookStore.delete fault tenant.id id hooks)

-- Opens the module, for tests.
unfoldable pub handlers : Unit {0}
unfolding schema_check job_store lookup handle_dev_setup handle_health new_job poll_url storage_key
    answer_created store_job upload_document check_schema read_document read_form handle_extract
    view_job handle_get_job limit_of offset_of list_reply handle_list_jobs webhook_reply create_hook
    generate_secret handle_create_webhook delete_reply handle_delete_webhook
handlers = tt
