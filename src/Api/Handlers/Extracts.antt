-- ===== src/Api/Handlers/Extracts.antt =====
-- What an upload does.
use docpulse.Database.JobStore.Owners.{owned_by-append}
use docpulse.Base.{
  eq_of_some, subst, ℕ, ◌≡◌, ◌≢◌, refl, sym, ap, ◌∙◌, ◌⊎◌, inl, inr, Option, none, some, [], ◌∷◌,
  ◌++◌, String, if_both, length,
}
use docpulse.Base.Result.{Result, ok, err}
use docpulse.Text.Utf8.{Bytes, str}
use docpulse.Domain.{
  Uuid, Time, Tenant, Job, pending, DocumentFormat, unknown, pdf_native, pdf_scanned, docx, image,
}
use docpulse.Api.Schema.{validate_schema}
use docpulse.Database.JobStore.{owned_by, Fault, Jobs, find, inserted, as_jsonb}
use docpulse.Database.JobStore.Updates.{create_cases}
use docpulse.Ingestion.Detector.{detect_format}
use docpulse.Api.Handlers.{
  Handlers, Reply, accepted, failure, Document, Form, new_job, poll_url, storage_key,
  answer_created, store_job, upload_document, check_schema, read_document, read_form,
  handle_extract, is_empty,
}

-- The row of an upload.
abbrev pub job_of_upload : Handlers → Uuid → Time → Tenant → Bytes → Document → Bytes → Job
job_of_upload h id now tenant url doc schema = record {
  id = id;
  tenant_id = tenant.id;
  status = pending;
  document_url = url;
  document_format = some (detect_format doc.content);
  document_size_bytes = length doc.content;
  schema = h.jsonb schema;
  result = none;
  confidence_scores = none;
  model_used = none;
  cost_usd = 0;
  error_message = none;
  created_at = now;
  completed_at = none;
}

-- The job is added to the table, and the answer has its id and its address. This happens for a
-- tenant and a form with a document of a known format and a valid schema, when the document was
-- stored and no job has the id.
pub record IsTaken (h : Handlers) (id : Uuid) (now : Time) (t : Option Tenant) (form : Form)
    (jobs : Jobs) (answer : Reply × Jobs) : Type 0 where
  pub tenant : Tenant
  pub doc : Document
  pub url : Bytes
  pub authenticated : t ≡ some tenant
  pub attached : form.document ≡ some doc
  pub valid : validate_schema h.json form.schema ≡ ok tt
  pub known : detect_format doc.content ≢ unknown
  pub stored :
      h.upload
        (h.uuid_text tenant.id ++ str "/" ++ h.uuid_text id ++ str "/" ++ doc.filename)
        doc.content
      ≡ ok url
  pub fresh : find id jobs ≡ none
  pub reply : answer.0 ≡ accepted id (h.base_url ++ str "/v1/jobs/" ++ h.uuid_text id)
  pub added : answer.1 ≡ jobs ++ job_of_upload h id now tenant url doc form.schema ∷ []

-- The answer is an error, and the table is as it was.
abbrev pub IsRefused : Jobs → Reply × Jobs → Type 0
IsRefused jobs answer =
    (status : ℕ) × (msg : String) × (code : String) × (answer ≡ (failure status msg code, jobs))

abbrev IsAnswered : Handlers → Uuid → Time → Option Tenant → Form → Jobs → Reply × Jobs → Type 0
IsAnswered h id now t form jobs answer = IsTaken h id now t form jobs answer ⊎ IsRefused jobs answer

module _ (h : Handlers) (fault : Fault) (id : Uuid) (now : Time) (tenant : Tenant) (form : Form)
    (jobs : Jobs) (doc : Document) (attached : form.document ≡ some doc) where
  abbrev Goal : Reply × Jobs → Type 0
  Goal answer = IsAnswered h id now (some tenant) form jobs answer

  store_job_lem :
      (format : DocumentFormat) (url : Result Bytes)
      → validate_schema h.json form.schema ≡ ok tt
      → detect_format doc.content ≡ format
      → format ≢ unknown
      → h.upload (storage_key h tenant id doc) doc.content ≡ url
      → Goal (store_job h fault id now tenant doc form.schema format url jobs)
  unfolding store_job answer_created new_job poll_url storage_key
  store_job_lem format (err e) valid f known stored = inr (500, _, _, refl)
  store_job_lem format (ok url) valid f known stored =
      let job = as_jsonb h.jsonb (new_job id now tenant url format doc form.schema) in
      elim (create_cases fault job jobs) [
        | inl (fresh, e) ↦
            let made = ap (answer_created h id) e in
            inl (record {
              tenant = tenant;
              doc = doc;
              url = url;
              authenticated = refl;
              attached = attached;
              valid = valid;
              known = λ k. known (sym f ∙ k);
              stored = stored;
              fresh = fresh;
              reply = ap (λ (a : Reply × Jobs). a.0) made;
              added =
                  ap (λ (a : Reply × Jobs). a.1) made
                  ∙ ap
                      (λ g.
                        jobs
                        ++ inserted (as_jsonb h.jsonb (new_job id now tenant url g doc form.schema))
                          ∷ [])
                      (sym f);
            })
        | inr (why, e) ↦ inr (500, _, _, ap (answer_created h id) e)
      ]

  upload_document_lem :
      (format : DocumentFormat)
      → validate_schema h.json form.schema ≡ ok tt
      → detect_format doc.content ≡ format
      → Goal (upload_document h fault id now tenant doc form.schema format jobs)
  unfolding upload_document
  upload_document_lem unknown valid f = inr (400, _, _, refl)
  upload_document_lem pdf_native valid f = store_job_lem pdf_native _ valid f (λ k. cc) refl
  upload_document_lem pdf_scanned valid f = store_job_lem pdf_scanned _ valid f (λ k. cc) refl
  upload_document_lem docx valid f = store_job_lem docx _ valid f (λ k. cc) refl
  upload_document_lem image valid f = store_job_lem image _ valid f (λ k. cc) refl

  check_schema_lem :
      (checked : Result (Unit {0}))
      → validate_schema h.json form.schema ≡ checked
      → Goal (check_schema h fault id now tenant doc form.schema checked jobs)
  unfolding check_schema
  check_schema_lem (err e) valid = inr (400, _, _, refl)
  check_schema_lem (ok tt) valid = upload_document_lem _ valid refl

  read_document_lem :
      (unreadable : Fault)
      → Goal (read_document h fault id now tenant unreadable doc form.schema jobs)
  unfolding read_document
  read_document_lem (some e) = inr (400, _, _, refl)
  read_document_lem none =
      if_both Goal (is_empty form.schema) (inr (400, _, _, refl)) (check_schema_lem _ refl)

read_form_lem :
    (h : Handlers) (fault : Fault) (id : Uuid) (now : Time) (tenant : Tenant) (form : Form)
    (jobs : Jobs) (malformed : Fault) (doc : Option Document)
    → form.document ≡ doc
    → IsAnswered h id now
        (some tenant)
        form
        jobs
        (read_form h fault id now tenant form malformed doc jobs)
unfolding read_form
read_form_lem h fault id now tenant form jobs (some e) doc a = inr (400, _, _, refl)
read_form_lem h fault id now tenant form jobs none none a = inr (400, _, _, refl)
read_form_lem h fault id now tenant form jobs none (some doc) a =
    read_document_lem h fault id now tenant form jobs doc a form.unreadable

-- An upload either adds exactly one job to the table, pending, with the tenant, the schema as the
-- database gives it back, the detected format, the size and the URL of the document, and the time,
-- and is answered with its id and with the service's address of the job, or is answered with an
-- error and leaves the table as it was. The first happens only to an authenticated tenant, for an
-- attached document of a known format that the store has taken under the tenant's id, the job's id
-- and the filename, and for a schema that the check accepts.
pub handle_extract-IsAnswered :
    (h : Handlers) (fault : Fault) (id : Uuid) (now : Time) (t : Option Tenant) (form : Form)
    (jobs : Jobs)
    → IsTaken h id now t form jobs (handle_extract h fault id now t form jobs)
      ⊎ IsRefused jobs (handle_extract h fault id now t form jobs)
unfolding handle_extract
handle_extract-IsAnswered h fault id now none form jobs = inr (401, _, _, refl)
handle_extract-IsAnswered h fault id now (some tenant) form jobs =
    read_form_lem h fault id now tenant form jobs form.malformed form.document refl

-- An upload adds no job to another tenant.
pub handle_extract_others :
    (h : Handlers) (fault : Fault) (id : Uuid) (now : Time) (t : Tenant) (form : Form) (jobs : Jobs)
    (u : Uuid)
    → u ≢ t.id
    → owned_by u (handle_extract h fault id now (some t) form jobs).1 ≡ owned_by u jobs
unfolding new_job
handle_extract_others h fault id now t form jobs u n =
    elim (handle_extract-IsAnswered h fault id now (some t) form jobs) [
      | inl taken ↦
          let same : t ≡ taken.tenant = eq_of_some taken.authenticated in
          ap (owned_by u) taken.added
          ∙ owned_by-append u jobs _ (subst (λ (x : Tenant). u ≢ x.id) same n)
      | inr (status, msg, code, e) ↦ ap (λ (a : Reply × Jobs). owned_by u a.1) e
    ]
