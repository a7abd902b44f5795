-- ===== src/Cmd/Api/Tests.antt =====
-- Two starts of the server, with a development key.
use text.Mathlib.Text.{◌==◌ as str_eq}
use docpulse.Base.{◌≡◌, ◌≢◌, ◌⊎◌, refl, none, [], ◌∷◌, String, if◌then◌else◌}
use docpulse.Base.Int.{pos}
use docpulse.Base.Result.{ok, err}
use docpulse.Text.Utf8.{str}
use docpulse.Cache.{cache_operations}
use docpulse.Config.{Environment, configuration}
use docpulse.Database.Connection.{connection}
use docpulse.Database.TenantStore.{create_if_not_exists, tenant_store}
use docpulse.Middleware.Auth.{hash_api_key}
use docpulse.Storage.{local_store}
use docpulse.Api.Handlers.{handle_dev_setup, api_key}
use docpulse.Cmd.Migrations.{migrations}
use docpulse.Cmd.Seed.{dev_tenant}
use docpulse.Cmd.Api.{
  Parts, Startup, Server, new_handlers, start_api, listen_failed, run_api, api_program,
}
use docpulse.Cmd.Api.DevKey.{start_api-shows_key}

abbrev env_of : String → Environment
env_of mode key =
    if str_eq key "DEV_API_KEY" then "k1" else if str_eq key "DEV_MODE" then mode else ""

abbrev parts : Parts
parts = record {
  json = record { unmarshal_object = λ b. err "no JSON"; marshal_object = λ o. ok [] };
  uuid_text = λ id. id ∷ [];
  jsonb = λ b. b;
  sum = λ s. "hash";
  parse_duration = λ d. none;
  upload = λ base key content. ok key;
}

abbrev startup : Startup
startup = record {
  pool = none;
  ping = none;
  entries = ok [];
  exec = λ name. none;
  seed = none;
  redis = none;
  mkdir = none;
  new_id = 5;
  now = 9;
}

abbrev server : Server
server = record {
  addr = ":8080";
  handlers = new_handlers parts (str "/tmp/docpulse") "http://localhost:8080" "k1";
  rate_limit = pos 60;
}

started : (mode : String) → (start_api parts startup (env_of mode) []).0 ≡ ok server
unfolding api_program configuration connection migrations local_store cache_operations
started mode = refl

key_text : ◌≢◌ {A = String} "k1" ""
key_text e = cc

start_api-shows_key_example :
    (handle_dev_setup server.handlers ≡ api_key "k1")
    × ((env_of "false" "DEV_MODE" ≡ "true")
        ⊎ ((start_api parts startup (env_of "false") []).1 ≡ []))
start_api-shows_key_example =
    start_api-shows_key parts startup (env_of "false") [] server key_text (started "false")

seeded :
    (create_if_not_exists none (dev_tenant 5 9 (hash_api_key parts.sum (str "k1"))) []).0 ≡ ok tt
unfolding tenant_store
seeded = refl

-- The port is taken.
no_port :
    run_api parts startup (env_of "false") (listen_failed "address already in use") []
    ≡ (err "server error: address already in use", [])
unfolding api_program configuration connection migrations local_store cache_operations
no_port = refl
