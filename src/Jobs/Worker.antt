-- ===== src/Jobs/Worker.antt =====
-- `processJob` of internal/jobs/worker.go, with the helpers that it calls, and what `Run` does with
-- its error. The loop of `Run` that polls is in Worker/Run.antt, and the interleavings of its
-- goroutines are in Worker/Threads.antt.
-- Log lines and `time.Since` are left out.
pub mod Ends
pub mod Settles
pub mod Fires
pub mod Reuse
pub mod Run
pub mod Script
pub mod Threads
mod Tests
use Prim.Native.String
use mathlib.Core.List.{map}
use docpulse.Base.{
  ℕ, zero, suc, ◌+◌, ◌*◌, Bool, true, false, ◌&&◌, Option, none, some, List, [], ◌∷◌, ◌++◌, String,
  ltb, if◌then◌else◌, length, drop,
}
use docpulse.Base.Dict.{Dict}
use docpulse.Base.Result.{Result, ok, err, wrap}
use docpulse.Text.{starts_with}
use docpulse.Text.Utf8.{Bytes, str}
use docpulse.Domain.{
  Uuid, Time, Job, Chunk, Webhook, DocumentFormat, ModelTier, fast, strong, JobStatus, ingesting,
  chunking, extracting, assembling,
}
use docpulse.Json.{Object, Codec}
use docpulse.Cache.{Entries, cache_operations}
use docpulse.Cache
use docpulse.Database.JobStore.{Fault, Jobs, update_status, fail, complete, get_by_id, job_store}
use docpulse.Database.WebhookStore.{Webhooks, list_active, webhook_store}
use docpulse.Extraction.Chunker.{ChunkConfig, chunk, chunker}
use docpulse.Ingestion.Extractor.{Tools, extract_text, text_extractor}
use docpulse.Llm.Router.{
  Router, Client, ExtractionRequest, ExtractionResponse, extract, model_router,
}
use docpulse.Jobs.Merge.{merge_results, merger}

-- What is outside the source: the object store, the programs that extract a text, the hexadecimal
-- SHA-256, JSON, `%q`, the language models, the upper case letters, the new ids, and what
-- PostgreSQL gives back for a text that it keeps as JSONB.
pub record Services : Type 0 where
  pub download : Bytes → Result Bytes
  pub tools : Tools
  pub sum : Bytes → String
  pub json : Codec
  pub quote : String → String
  pub chat : Client
  pub upper : ℕ → Bool
  pub new_id : ℕ → Uuid
  pub jsonb : Bytes → Bytes

pub record Worker : Type 0 where
  pub router : Router
  pub chunker : ChunkConfig
  pub cache_ttl : Time

-- The errors of the database and of the cache in one run of `processJob`.
pub record Faults : Type 0 where
  pub get_cache : Fault
  pub set_ingesting : Fault
  pub set_chunking : Fault
  pub set_extracting : Fault
  pub set_assembling : Fault
  pub set_cache : Fault
  pub complete_job : Fault
  pub get_job : Fault
  pub list_hooks : Fault
  pub fail_job : Fault

pub record World : Type 0 where
  pub jobs : Jobs
  pub webhooks : Webhooks
  pub cache : Entries

-- The result of `processJob`, the world behind it, and the deliveries it has started.
pub record Outcome : Type 0 where
  pub result : Result (Unit {0})
  pub world : World
  pub fired : List (Webhook × Job)

pub extract_storage_key : Bytes → Bytes
extract_storage_key url =
    if ltb 7 (length url) && starts_with (str "file://") url then drop 7 url else url

pub content_hash : (Bytes → String) → Bytes → Bytes → String
content_hash sum content schema = String.◌++◌ "extraction:" (sum (content ++ str "||" ++ schema))

extract_as : Tools → Bytes → Option DocumentFormat → Result Bytes
extract_as tools content none = err "unsupported format: "
extract_as tools content (some f) = extract_text tools content f

-- The variables of the loop over the chunks. `model_used` is read only after a response has set it.
pub record Totals : Type 0 where
  pub results : List Object
  pub tokens_in : ℕ
  pub tokens_out : ℕ
  pub cost : ℕ
  pub model_used : ModelTier

abbrev pub no_totals : Totals
no_totals = record { results = []; tokens_in = 0; tokens_out = 0; cost = 0; model_used = fast }

-- In units of 10^-8 dollars.
pub cost_of : ModelTier → ℕ → ℕ → ℕ
cost_of strong tokens_in tokens_out = tokens_in * 250 + tokens_out * 1000
cost_of fast tokens_in tokens_out = tokens_in * 15 + tokens_out * 60

pub add_response : Totals → Result ExtractionResponse → Totals
add_response t (err e) = t
add_response t (ok r) = record {
  results = t.results ++ r.fields ∷ [];
  tokens_in = t.tokens_in + r.tokens_in;
  tokens_out = t.tokens_out + r.tokens_out;
  cost = t.cost + cost_of r.model_used r.tokens_in r.tokens_out;
  model_used = r.model_used;
}

-- The times at which a run asks the cache, writes to it and completes the job.
pub record Clock : Type 0 where
  pub of_get : Time
  pub of_set : Time
  pub of_end : Time

module _ (sv : Services) (w : Worker) where
  abbrev found : Result Bytes → Option Bytes
  found (ok value) = some value
  found (err e) = none

  pub check_cache : Fault → Time → String → Entries → Option Bytes
  check_cache fault now key entries = found (Cache.get fault now key entries)

  pub put_cache : Fault → Time → String → Bytes → Entries → Entries
  put_cache fault now key value entries = (Cache.set fault now w.cache_ttl key value entries).1

  -- The loop over the chunks: `i` is the index of the next one, and `n` counts the calls of the
  -- models.
  extract_chunks : Bytes → ℕ → ℕ → ℕ → List Chunk → Totals → Totals
  extract_chunks schema total i n [] t = t
  extract_chunks schema total i n (c ∷ cs) t =
      let (response, models) = extract sv.json sv.quote sv.chat w.router n (record {
        chunk_text = c.content;
        schema = schema;
        chunk_index = i;
        total_chunks = total;
      }) in
      extract_chunks schema total (i + 1) (n + length models) cs (add_response t response)

  fire_each : Job → Result Webhooks → List (Webhook × Job)
  fire_each job (err e) = []
  fire_each job (ok hooks) = map (λ (h : Webhook). (h, job)) hooks

  pub fire_webhooks : Fault → Job → Webhooks → List (Webhook × Job)
  fire_webhooks fault job hooks = fire_each job (list_active fault job.tenant_id hooks)

  -- The webhooks of the job that `GetByID` returns, none where it fails.
  fire_for : Fault → Result Job → Webhooks → List (Webhook × Job)
  fire_for fault (err e) hooks = []
  fire_for fault (ok job) hooks = fire_webhooks fault job hooks

  abbrev pub stopped : String → World → Outcome
  stopped e world = record { result = err e; world = world; fired = [] }

  completed_as : Faults → Uuid → World → Result (Unit {0}) × Jobs → Outcome
  completed_as f id world (err e, jobs) = stopped e (record world { jobs = jobs })
  completed_as f id world (ok _, jobs) = record {
    result = ok tt;
    world = record world { jobs = jobs };
    fired = fire_for f.list_hooks (get_by_id f.get_job id jobs) world.webhooks;
  }

  abbrev step : Fault → Uuid → JobStatus → World → World
  step fault id status world = record world { jobs = update_status fault id status world.jobs }

  -- `Complete`, and the webhooks where it succeeds. The column `result` is JSONB.
  pub finish : Faults → Time → Uuid → Bytes → Dict ℕ → ModelTier → ℕ → World → Outcome
  finish f now id result confidence model cost world =
      completed_as f id world
        (complete f.complete_job id (sv.jsonb result) confidence model cost now world.jobs)

  -- From the marshalled result on.
  store_result : Faults → Clock → Job → String → Dict ℕ → Totals → Result Bytes → World → Outcome
  store_result f now job key confidence t (err e) world =
      stopped (String.◌++◌ "marshaling result: " e) world
  store_result f now job key confidence t (ok result) world =
      finish f now.of_end job.id result confidence t.model_used t.cost
        (record world { cache = put_cache f.set_cache now.of_set key result world.cache })

  abbrev is_empty {ℓ} : {A : Type ℓ} → List A → Bool
  is_empty [] = true
  is_empty (x ∷ xs) = false

  -- Step 6, `Assemble results`.
  assemble : Faults → Clock → Job → String → Totals → World → Outcome
  assemble f now job key t world =
      if is_empty t.results
      then stopped "no chunks produced results" world
      else let (merged, confidence) = merge_results sv.json t.results job.schema in
        store_result f now job key confidence t (sv.json.marshal_object merged)
          (step f.set_assembling job.id assembling world)

  -- Steps 4 and 5, `Chunk` and `Extract from each chunk`.
  process_chunks : Faults → Clock → Job → String → Bytes → World → Outcome
  process_chunks f now job key text world =
      let chunks = chunk sv.upper sv.new_id w.chunker job.id text in
      assemble f now job key (extract_chunks job.schema (length chunks) 0 0 chunks no_totals)
        (step f.set_extracting job.id extracting (step f.set_chunking job.id chunking world))

  process_text : Faults → Clock → Job → String → Result Bytes → World → Outcome
  process_text f now job key (err e) world = stopped (String.◌++◌ "text extraction: " e) world
  process_text f now job key (ok text) world =
      if is_empty text
      then stopped "no text extracted from document" world
      else process_chunks f now job key text world

  -- Steps 2 and 3, `Check content hash cache` and `Extract text`. A confidence is in hundredths.
  process_cached : Faults → Clock → Job → Bytes → String → Option Bytes → World → Outcome
  process_cached f now job content key (some cached) world =
      finish f now.of_end job.id cached (("_cache_hit", 100) ∷ []) fast 0 world
  process_cached f now job content key none world =
      process_text f now job key (extract_as sv.tools content job.document_format)
        (step f.set_ingesting job.id ingesting world)

  process_content : Faults → Clock → Job → Result Bytes → World → Outcome
  process_content f now job (err e) world = stopped (String.◌++◌ "downloading document: " e) world
  process_content f now job (ok content) world =
      let key = content_hash sv.sum content job.schema in
      process_cached f now job content key (check_cache f.get_cache now.of_get key world.cache)
        world

  pub process_job : Faults → Clock → Job → World → Outcome
  process_job f now job world =
      process_content f now job (sv.download (extract_storage_key job.document_url)) world

  settle : Faults → Uuid → World → Result (Unit {0}) → World
  settle f id world (ok _) = world
  settle f id world (err e) = record world { jobs = fail f.fail_job id e world.jobs }

  -- What the goroutine of `Run` does with a claimed job.
  pub run_job : Faults → Clock → Job → World → World
  run_job f now job world =
      let out = process_job f now job world in settle f job.id out.world out.result

-- Opens the module, for tests.
unfoldable pub job_worker : Unit {0}
unfolding cache_operations job_store webhook_store text_extractor chunker merger model_router
    extract_storage_key content_hash extract_as cost_of add_response check_cache put_cache
    extract_chunks fire_each fire_webhooks fire_for completed_as finish store_result assemble
    process_chunks process_text process_cached process_content process_job settle run_job
job_worker = tt
