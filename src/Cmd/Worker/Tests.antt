-- ===== src/Cmd/Worker/Tests.antt =====
-- The worker in an empty environment, and without a database.
use docpulse.Base.{◌≡◌, refl, none, some}
use docpulse.Base.Int.{pos}
use docpulse.Base.Result.{ok, err}
use docpulse.Text.Utf8.{str}
use docpulse.Config.{configuration}
use docpulse.Database.Connection.{connection}
use docpulse.Extraction.Chunker.{default_chunk_config}
use docpulse.Storage.{local_store}
use docpulse.Webhook.Deliverer.{new_deliverer}
use docpulse.Cache.{cache_operations}
use docpulse.Cmd.Worker.{WorkerParts, start_worker, worker_program}

abbrev defaults : WorkerParts
defaults = record {
  base_dir = str "/tmp/docpulse";
  deliverer = new_deliverer;
  chunker = default_chunk_config;
  router = record {
    fast_model = "gpt-4o-mini";
    strong_model = "gpt-4o";
    max_retries = pos 2;
    complexity_threshold = pos 10;
  };
  cfg = record {
    concurrency = pos 4;
    poll_interval = pos 2000000000;
    max_job_duration = pos 600000000000;
    cache_ttl = pos 86400000000000;
  };
}

by_default : start_worker (λ d. none) none none none none (λ key. "") ≡ ok defaults
unfolding worker_program configuration connection local_store cache_operations
by_default = refl

no_answer :
    start_worker (λ d. none) none (some "refused") none none (λ key. "")
    ≡ err "failed to connect to database: pinging database: refused"
unfolding worker_program configuration connection
no_answer = refl
