-- ===== src/Journey/Tests.antt =====
-- The journey of one document, with tools and a model that answer.
use docpulse.Base.{◌+◌, ◌≡◌, refl, none, some, [], ◌∷◌, false, subst, sym}
use docpulse.Base.Int.{pos}
use docpulse.Base.Result.{ok, err}
use docpulse.Text.Utf8.{str, utf8}
use docpulse.Domain.{Tenant, Job, ingesting, pending, pdf_native}
use docpulse.Json.{string, obj, field, end, Object}
use docpulse.Database.JobStore.{Jobs, job_store}
use docpulse.Extraction.Chunker.{default_chunk_config}
use docpulse.Ingestion.Detector.{detector}
use docpulse.Jobs.Worker.{Clock, Services, Worker, Faults, process_job}
use docpulse.Jobs.Worker.Script.{replay}
use docpulse.Jobs.Worker.Threads.{Thread, Threads, started, claims, idle, Later, stays, goes}
use docpulse.Jobs.Worker.Threads.Alone.{alone_in}
use docpulse.Jobs.Worker.Threads.Drain.{Later-drain}
use docpulse.Jobs.Worker.Settles.{IsSettled}
use docpulse.Api.Handlers.{
  Handlers, Document, Form, handle_extract, handle_get_job, accepted, job_view, handlers,
}
use docpulse.Journey.{journey}

abbrev person : Object
person =
    ("type", string "object")
    ∷ ("properties", obj (field "name" (obj (field "type" (string "string") end)) end))
    ∷ []

abbrev service : Handlers
service = record {
  json = record { unmarshal_object = λ b. ok person; marshal_object = λ o. ok [] };
  upload = λ key content. ok key;
  uuid_text = λ id. (48 + id) ∷ [];
  base_url = [];
  jsonb = λ b. 2 ∷ b;
  dev_api_key = "";
}

abbrev ann : Tenant
ann = record {
  id = 7;
  name = "Ann";
  api_key_hash = "h";
  rate_limit = 60;
  byte_limit = 1000;
  created_at = 0;
}

abbrev pdf : Document
pdf = record { content = 0x25 ∷ 0x50 ∷ 0x44 ∷ 0x46 ∷ []; filename = 97 ∷ [] }

abbrev form : Form
form = record { malformed = none; document = some pdf; unreadable = none; schema = 1 ∷ [] }

abbrev services : Services
services = record {
  download = λ path. ok path;
  tools = record {
    pdftotext = λ b. ok (str " Ann ");
    pandoc = λ b. err "no DOCX";
    tesseract = λ b. err "no image";
  };
  sum = λ b. "0";
  json = record { unmarshal_object = λ b. ok person; marshal_object = λ o. ok (1 ∷ []) };
  quote = λ s. s;
  chat =
      λ n req. ok (record { choices = (1 ∷ []) ∷ []; prompt_tokens = 100; completion_tokens = 10 });
  upper = λ r. false;
  new_id = λ n. n;
  jsonb = λ b. 32 ∷ b;
}

abbrev worker : Worker
worker = record {
  router = record {
    fast_model = "small";
    strong_model = "large";
    max_retries = pos 2;
    complexity_threshold = pos 10;
  };
  chunker = default_chunk_config;
  cache_ttl = 60;
}

abbrev no_faults : Faults
no_faults = record {
  get_cache = none;
  set_ingesting = none;
  set_chunking = none;
  set_extracting = none;
  set_assembling = none;
  set_cache = none;
  complete_job = none;
  get_job = none;
  list_hooks = none;
  fail_job = none;
}

-- The job of the upload, once it is claimed.
abbrev claimed : Job
claimed = record {
  id = 1;
  tenant_id = 7;
  status = ingesting;
  document_url = str "7/1/a";
  document_format = some pdf_native;
  document_size_bytes = 4;
  schema = 2 ∷ 1 ∷ [];
  result = none;
  confidence_scores = none;
  model_used = none;
  cost_usd = 0;
  error_message = none;
  created_at = 3;
  completed_at = none;
}

was_accepted :
    (handle_extract service none 1 3 (some ann) form []).0 ≡ accepted 1 (str "/v1/jobs/1")
unfolding handlers detector utf8
was_accepted = refl

-- The table behind the upload and behind the claim.
abbrev uploaded : Jobs
uploaded = record claimed { status = pending } ∷ []

abbrev times : Clock
times = record { of_get = 9; of_set = 10; of_end = 11 }

abbrev one_run : Thread
one_run = started services worker claimed no_faults times [] (claimed ∷ [])

abbrev finished : Threads
finished = record {
  jobs = replay 1 one_run.left (claimed ∷ []);
  running = record one_run { left = [] } ∷ [];
}

was_stored : (handle_extract service none 1 3 (some ann) form []).1 ≡ uploaded
unfolding handlers detector utf8
was_stored = refl

-- The job is claimed, and its run sends all its statements.
was_run : Later services worker (record { jobs = uploaded; running = [] }) finished
unfolding job_store
was_run =
    Later-drain services worker one_run one_run.left (claimed ∷ []) []
      (goes stays (claims (λ id. false) claimed (claimed ∷ []) no_faults times [] refl))

journey_example :
    (j : Job) × (handle_get_job service none ann (some 1) finished.jobs ≡ job_view j none)
    × (j.schema ≡ 2 ∷ form.schema)
    × IsSettled j (process_job services worker no_faults times claimed (alone_in one_run []))
journey_example =
    journey service none 1 3 ann form (str "/v1/jobs/1") services worker []
      (record { jobs = []; running = [] }) finished [] [] (record one_run { left = [] }) [] tt idle
      was_accepted
      (subst (λ jobs. Later services worker (record { jobs = jobs; running = [] }) finished)
        (sym was_stored) was_run)
      refl refl refl refl
