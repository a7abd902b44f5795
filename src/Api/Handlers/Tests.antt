-- ===== src/Api/Handlers/Tests.antt =====
-- Runs of the handlers.
use docpulse.Base.{◌+◌, ◌≡◌, refl, ◌≤◌, ◌⊎◌, none, some, [], ◌∷◌}
use docpulse.Base.Result.{ok}
use docpulse.Text.Utf8.{str, utf8}
use docpulse.Domain.{Tenant, Job, pending}
use docpulse.Json.{string, obj, field, end, Object}
use docpulse.Database.JobStore.{Jobs, owned_by}
use docpulse.Database.JobStore.Pages.{IsPage}
use docpulse.Ingestion.Detector.{detector}
use docpulse.Api.Handlers.{
  Handlers, accepted, failure, Document, Form, handle_extract, handle_get_job, handle_list_jobs,
  handlers,
}
use docpulse.Api.Handlers.Extracts.{IsTaken, IsRefused, handle_extract-IsAnswered}
use docpulse.Api.Handlers.Isolation.{handle_get_job-owned_by, handle_list_jobs-IsPage}

abbrev person : Object
person =
    ("type", string "object")
    ∷ ("properties", obj (field "name" (obj (field "type" (string "string") end)) end))
    ∷ []

abbrev service : Handlers
service = record {
  json = record { unmarshal_object = λ b. ok person; marshal_object = λ o. ok [] };
  upload = λ key content. ok key;
  uuid_text = λ id. (48 + id) ∷ [];
  base_url = str "http://d";
  jsonb = λ b. 32 ∷ b;
  dev_api_key = "";
}

abbrev ann : Tenant
ann = record {
  id = 7;
  name = "Ann";
  api_key_hash = "h";
  rate_limit = 60;
  byte_limit = 1000;
  created_at = 0;
}

abbrev pdf : Document
pdf = record { content = 0x25 ∷ 0x50 ∷ 0x44 ∷ 0x46 ∷ []; filename = str "a" }

abbrev form : Form
form = record { malformed = none; document = some pdf; unreadable = none; schema = 1 ∷ [] }

abbrev job : Job
job = record {
  id = 1;
  tenant_id = 7;
  status = pending;
  document_url = [];
  document_format = none;
  document_size_bytes = 5;
  schema = [];
  result = none;
  confidence_scores = none;
  model_used = none;
  cost_usd = 0;
  error_message = none;
  created_at = 20;
  completed_at = none;
}

abbrev table : Jobs
table = job ∷ record job { id = 2; tenant_id = 8 } ∷ []

handle_extract-IsAnswered_example :
    IsTaken service 3 9
      (some ann)
      form
      table
      (handle_extract service none 3 9 (some ann) form table)
    ⊎ IsRefused table (handle_extract service none 3 9 (some ann) form table)
handle_extract-IsAnswered_example = handle_extract-IsAnswered service none 3 9 (some ann) form table

handle_extract_accepted :
    (handle_extract service none 3 9 (some ann) form table).0
    ≡ accepted 3 (str "http://d/v1/jobs/3")
unfolding handlers utf8 detector
handle_extract_accepted = refl

handle_get_job-owned_by_example :
    (handle_get_job service none ann (some 2) (owned_by 7 table)
      ≡ handle_get_job service none ann (some 2) table)
    × (handle_list_jobs none none ann (str "5") [] (owned_by 7 table)
        ≡ handle_list_jobs none none ann (str "5") [] table)
handle_get_job-owned_by_example =
    handle_get_job-owned_by service none none none ann (some 2) (str "5") [] table

handle_get_job_foreign :
    handle_get_job service none ann (some 2) table ≡ failure 404 "job not found" "not_found"
unfolding handlers
handle_get_job_foreign = refl

abbrev old_job : Job
old_job = record job { id = 4; created_at = 10 }

-- The second of two jobs, of which the newer one was inserted last.
handle_list_jobs-IsPage_example :
    (1 ≤ 5) × (5 ≤ 100) × IsPage 7 (old_job ∷ table) 2 5 1 (old_job ∷ [])
unfolding handlers utf8
handle_list_jobs-IsPage_example =
    handle_list_jobs-IsPage none none ann (str "5") (str "1") (old_job ∷ table) (old_job ∷ []) 2 5 1
      refl
