-- ===== src/Cmd/Api.antt =====
-- `main` of cmd/api/main.go. An exit by `log.Fatal` is an error with
-- its message.
pub mod DevKey
mod Tests
use text.Mathlib.Text.{◌==◌ as str_eq}
use Prim.Native.String
use docpulse.Base.{Bool, ◌&&◌, not, Option, none, some, List, [], ◌∷◌, String, if◌then◌else◌}
use docpulse.Base.Int.{ℤ}
use docpulse.Base.Result.{Result, ok, err, ◌>>=◌, ◌>>◌, wrap}
use docpulse.Text.Utf8.{Bytes, str}
use docpulse.Domain.{Uuid, Time}
use docpulse.Json.{Codec}
use docpulse.Cache.{new_redis_cache}
use docpulse.Config.{Config, Environment, load}
use docpulse.Database.Connection.{connect, outcome}
use docpulse.Database.JobStore.{Fault}
use docpulse.Database.TenantStore.{Tenants}
use docpulse.Storage.{new_local_store}
use docpulse.Api.Handlers.{Handlers}
use docpulse.Cmd.Migrations.{Entry, run_migrations}
use docpulse.Cmd.Seed.{seed_dev_tenant}

-- The parts outside the source: JSON, the ids as texts, JSONB, SHA-256, durations, and `Upload` under a
-- base directory.
pub record Parts : Type 0 where
  pub json : Codec
  pub uuid_text : Uuid → Bytes
  pub sum : Bytes → String
  pub parse_duration : String → Option ℤ
  pub upload : Bytes → Bytes → Bytes → Result Bytes
  pub jsonb : Bytes → Bytes

-- The errors of one start, the embedded files, the new id and the time.
pub record Startup : Type 0 where
  pub pool : Fault
  pub ping : Fault
  pub entries : Result (List Entry)
  pub exec : String → Fault
  pub seed : Fault
  pub redis : Fault
  pub mkdir : Fault
  pub new_id : Uuid
  pub now : Time

pub record Server : Type 0 where
  pub addr : String
  pub handlers : Handlers
  pub rate_limit : ℤ

-- `NewHandlers`
pub new_handlers : Parts → Bytes → String → String → Handlers
new_handlers parts base url key = record {
  json = parts.json;
  upload = parts.upload base;
  uuid_text = parts.uuid_text;
  base_url = str url;
  jsonb = parts.jsonb;
  dev_api_key = key;
}

module _ (parts : Parts) (o : Startup) where
  new_server : Config → Bytes → Server
  new_server cfg base = record {
    addr = String.◌++◌ ":" cfg.api.port;
    handlers =
        new_handlers parts base (String.◌++◌ "http://localhost:" cfg.api.port) cfg.api.dev_api_key;
    rate_limit = cfg.api.rate_limit_per_minute;
  }

  -- `NewRedisCache` only parses the URL.
  open_stores : Config → Result Server
  open_stores cfg =
      wrap "failed to connect to Redis" (new_redis_cache o.redis)
      >> (wrap "failed to initialize storage" (new_local_store o.mkdir (str cfg.storage.local_dir))
          >>= λ base. ok (new_server cfg base))

  seeded : Config → Tenants → Tenants
  seeded cfg tenants =
      if cfg.api.dev_mode && not (str_eq cfg.api.dev_api_key "")
      then seed_dev_tenant parts.sum o.seed o.new_id o.now (str cfg.api.dev_api_key) tenants
      else tenants

  after_migrations : Config → Result (Unit {0}) → Tenants → Result Server × Tenants
  after_migrations cfg (err e) tenants = (wrap "migrations failed" (err e), tenants)
  after_migrations cfg (ok _) tenants = (open_stores cfg, seeded cfg tenants)

  after_connect : Config → Result (Unit {0}) → Tenants → Result Server × Tenants
  after_connect cfg (err e) tenants = (wrap "failed to connect to database" (err e), tenants)
  after_connect cfg (ok _) tenants =
      after_migrations cfg (run_migrations o.exec o.entries).0 tenants

  pub start_api : Environment → Tenants → Result Server × Tenants
  start_api env tenants =
      after_connect (load parts.parse_duration env) (connect o.pool o.ping) tenants

-- How serving ends: `ListenAndServe` fails, or a signal comes first, and `Shutdown` may fail.
pub data Ending : Type 0 where
  listen_failed : String → Ending
  signalled : Fault → Ending

-- Only the first is fatal; the error of `Shutdown` is logged.
serve : Ending → Server → Result (Unit {0})
serve (listen_failed e) server = wrap "server error" (err e)
serve (signalled shutdown) server = ok tt

-- `main` from the start to the exit, with the tenants it leaves.
pub run_api : Parts → Startup → Environment → Ending → Tenants → Result (Unit {0}) × Tenants
run_api parts o env ending tenants =
    let (server, after) = start_api parts o env tenants in (server >>= serve ending, after)

-- Opens the module, for tests.
unfoldable pub api_program : Unit {0}
unfolding new_handlers new_server open_stores seeded after_migrations after_connect start_api serve
    run_api
api_program = tt
