-- ===== src/Jobs/Worker/Tests.antt =====
-- Runs of the worker on a service that answers one field.
use mathlib.Core.List.{map}
use docpulse.Base.{◌+◌, ◌-◌, ◌≤◌, ◌≢◌, ◌⊎◌, ◌≡◌, refl, true, false, none, some, [], ◌∷◌, arith, All}
use docpulse.Base.Int.{pos}
use docpulse.Base.Result.{ok, err}
use docpulse.Text.Utf8.{Bytes, str}
use docpulse.Domain.{Time, Job, Webhook, ingesting, pending, image, fast}
use docpulse.Json.{string, Codec}
use docpulse.Database.JobStore.{find, as_completed, job_store}
use docpulse.Extraction.Chunker.{default_chunk_config}
use docpulse.Ingestion.Extractor.{Tools}
use docpulse.Jobs.Worker.{
  Clock, Services, Worker, Faults, World, process_job, run_job, job_worker, extract_storage_key,
}
use docpulse.Jobs.Worker.Run.{
  Pool, PoolStep, PoolReach, here, next, polls, starts, ends, cancels, polling, stopping, returned,
  idle, PoolReach-bounded,
}
use docpulse.Jobs.Worker.Run.Stops.{
  PoolSteps, no_steps, step, Goes, PoolSteps-bounded, PoolStep-stuck,
}
use docpulse.Jobs.Worker.Fires.{process_job-fires, IsOwnFiring}
use docpulse.Jobs.Worker.Reuse.{process_job-reuse}

abbrev tools : Tools
tools = record {
  pdftotext = λ b. err "no PDF";
  pandoc = λ b. err "no DOCX";
  tesseract = λ b. ok (str " Ann ");
}

abbrev json : Codec
json = record {
  unmarshal_object = λ b. ok (("name", string "Ann") ∷ []);
  marshal_object = λ o. ok (str "{\"name\":\"Ann\"}");
}

abbrev pub services : Services
services = record {
  download = λ path. ok path;
  tools = tools;
  sum = λ b. "0";
  json = json;
  quote = λ s. s;
  chat = λ n req. ok (record {
    choices = str "{\"name\":\"Ann\"}" ∷ [];
    prompt_tokens = 100;
    completion_tokens = 10;
  });
  upper = λ r. false;
  new_id = λ n. n;
  jsonb = λ b. 32 ∷ b;
}

-- Nothing works.
abbrev broken : Services
broken = record services { download = λ path. err "no such file" }

abbrev pub worker : Worker
worker = record {
  router = record {
    fast_model = "small";
    strong_model = "large";
    max_retries = pos 2;
    complexity_threshold = pos 10;
  };
  chunker = default_chunk_config;
  cache_ttl = 60;
}

abbrev pub no_faults : Faults
no_faults = record {
  get_cache = none;
  set_ingesting = none;
  set_chunking = none;
  set_extracting = none;
  set_assembling = none;
  set_cache = none;
  complete_job = none;
  get_job = none;
  list_hooks = none;
  fail_job = none;
}

abbrev pub scan : Job
scan = record {
  id = 1;
  tenant_id = 7;
  status = ingesting;
  document_url = str "file:///data/scan";
  document_format = some image;
  document_size_bytes = 5;
  schema = str "{}";
  result = none;
  confidence_scores = none;
  model_used = none;
  cost_usd = 0;
  error_message = none;
  created_at = 0;
  completed_at = none;
}

-- The same document, sent by another tenant.
abbrev copy : Job
copy = record scan { id = 2; tenant_id = 8 }

abbrev hook : Webhook
hook = record { id = 3; tenant_id = 7; url = "http://a"; secret = "s"; active = true }

abbrev start : World
start = record {
  jobs = scan ∷ copy ∷ [];
  webhooks = hook ∷ record hook { id = 4; tenant_id = 8 } ∷ [];
  cache = [];
}

extract_storage_key_file : extract_storage_key (str "file:///data/scan") ≡ str "/data/scan"
unfolding job_worker
extract_storage_key_file = refl

-- A run takes four units of time.
abbrev pub clock_at : Time → Clock
clock_at t = record { of_get = t; of_set = t + 3; of_end = t + 4 }

process_job_ok : (process_job services worker no_faults (clock_at 5) scan start).result ≡ ok tt
unfolding job_worker
process_job_ok = refl

process_job-broken :
    (process_job broken worker no_faults (clock_at 5) scan start).result
    ≡ err "downloading document: no such file"
unfolding job_worker
process_job-broken = refl

process_job-fires_example :
    All
      (IsOwnFiring 1 (process_job services worker no_faults (clock_at 5) scan start).world.jobs)
      (process_job services worker no_faults (clock_at 5) scan start).fired
process_job-fires_example = process_job-fires services worker no_faults (clock_at 5) scan start

-- The run fires the hook of its tenant alone.
fired_hooks :
    map
      (λ (d : Webhook × Job). d.0.id)
      (process_job services worker no_faults (clock_at 5) scan start).fired
    ≡ 3 ∷ []
unfolding job_worker
fired_hooks = refl

process_job-reuse_example :
    (first : Job) × (result : Bytes) × (find 1
        (process_job services worker no_faults (clock_at 5) scan start).world.jobs
      ≡ some first)
    × (first.result ≡ some result)
    × (find 2
          (process_job services worker no_faults
            (clock_at 50)
            copy
            (process_job services worker no_faults (clock_at 5) scan start).world).world.jobs
        ≡ some (as_completed result (("_cache_hit", 100) ∷ []) fast 0 54 copy))
unfolding job_worker
process_job-reuse_example =
    process_job-reuse services worker no_faults no_faults (clock_at 5) (clock_at 50) scan copy copy
      start refl (λ content e. refl) (λ n. omega arith) refl (λ e. cc) refl refl refl refl refl

abbrev pub queued : Job
queued = record scan { status = pending }

abbrev queue : World
queue = record start { jobs = queued ∷ [] }

-- One job is claimed and started.
abbrev busy : Pool
busy = record {
  world = record start { jobs = scan ∷ [] };
  in_flight = scan ∷ [];
  waiting = none;
  taken = 0;
  phase = polling;
}

one_job : PoolReach services worker 1 (idle queue) busy
unfolding job_store
one_job =
    next (next here (polls none none none none (λ id. false) refl refl))
      (starts scan refl (omega arith))

PoolReach-bounded_example : (1 ≤ 1) × ((busy.phase ≢ returned) ⊎ (busy.in_flight ≡ []))
PoolReach-bounded_example = PoolReach-bounded services worker 1 queue busy one_job

-- The shutdown begins while the job runs, and the job ends.
abbrev closing : Pool
closing = record busy { phase = stopping }

abbrev ended : Pool
ended = record closing {
  world = run_job services worker no_faults (clock_at 5) scan closing.world;
  in_flight = [];
}

one_end : PoolSteps services worker 1 closing 1 ended
one_end = step no_steps (ends no_faults (clock_at 5) [] scan [] refl)

PoolSteps-bounded_example : (1 ≤ 1 + (1 - 0) + 1) × Goes services worker 1 ended
PoolSteps-bounded_example =
    PoolSteps-bounded services worker 1 queue closing ended 1 (next one_job (cancels refl refl))
      (λ e. cc) one_end

-- A job is claimed by a worker without places.
abbrev hung : Pool
hung = record {
  world = record start { jobs = scan ∷ [] };
  in_flight = [];
  waiting = some scan;
  taken = 0;
  phase = polling;
}

one_claim : PoolReach services worker 0 (idle queue) hung
unfolding job_store
one_claim = next here (polls none none none none (λ id. false) refl refl)

PoolStep-stuck_example : ¬ ((q : Pool) × PoolStep services worker 0 hung q)
PoolStep-stuck_example = PoolStep-stuck services worker queue hung scan one_claim refl
