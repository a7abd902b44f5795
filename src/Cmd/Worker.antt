-- ===== src/Cmd/Worker.antt =====
-- `main` of cmd/worker/main.go around `Run`, which Jobs/Worker/Run.antt models. An exit by
-- `log.Fatal` is an error with its message.
mod Tests
use docpulse.Base.{Option, String}
use docpulse.Base.Int.{ℤ}
use docpulse.Base.Result.{Result, ok, ◌>>=◌, ◌>>◌, wrap}
use docpulse.Text.Utf8.{Bytes, str}
use docpulse.Cache.{new_redis_cache}
use docpulse.Config.{Config, LlmConfig, WorkerConfig, Environment, load}
use docpulse.Database.Connection.{connect, outcome}
use docpulse.Database.JobStore.{Fault}
use docpulse.Storage.{new_local_store}
use docpulse.Extraction.Chunker.{ChunkConfig, default_chunk_config}
use docpulse.Llm.Router.{Router}
use docpulse.Webhook.Deliverer.{Deliverer, new_deliverer}

-- `NewRouter` of internal/llm/router.go
pub new_router : LlmConfig → Router
new_router cfg = record {
  fast_model = cfg.fast_model;
  strong_model = cfg.strong_model;
  max_retries = cfg.max_retries;
  complexity_threshold = cfg.complexity_threshold;
}

-- What `NewWorker` of internal/jobs/worker.go is given, but for the stores of the database.
pub record WorkerParts : Type 0 where
  pub base_dir : Bytes
  pub deliverer : Deliverer
  pub chunker : ChunkConfig
  pub router : Router
  pub cfg : WorkerConfig

pub start_worker :
    (String → Option ℤ) → (pool ping redis mkdir : Fault) → Environment → Result WorkerParts
start_worker parse_duration pool ping redis mkdir env =
    let cfg = load parse_duration env in
    wrap "failed to connect to database" (connect pool ping)
    >> (wrap "failed to connect to Redis" (new_redis_cache redis)
        >> (wrap "failed to initialize storage" (new_local_store mkdir (str cfg.storage.local_dir))
            >>= λ base. ok (record {
              base_dir = base;
              deliverer = new_deliverer;
              chunker = default_chunk_config;
              router = new_router cfg.llm;
              cfg = cfg.worker;
            })))

-- `main` from the start to the exit. `run` is what `Run` returns for these parts once a signal has
-- cancelled its context.
pub run_worker : Result WorkerParts → (WorkerParts → Result (Unit {0})) → Result (Unit {0})
run_worker parts run = parts >>= λ p. wrap "worker error" (run p)

-- Opens the module, for tests.
unfoldable pub worker_program : Unit {0}
unfolding new_router start_worker run_worker
worker_program = tt
