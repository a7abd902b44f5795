-- ===== src/Cmd/Api/DevKey.antt =====
-- The development key of cmd/api/main.go: who is told it, and when it logs in.
use text.Mathlib.Text.{◌==◌ as str_eq}
use text.Mathlib.TextEquality.{eq_iff}
use docpulse.Base.{
  ◌≡◌, ◌≢◌, ◌⊎◌, inl, inr, refl, sym, ap, ◌∙◌, false, none, ◌++◌, String, Bool-cases,
}
use docpulse.Base.Result.{Result, ok, err, wrap, ◌>>=◌, ok-injective, >>_iff, wrap->>=_iff}
use docpulse.Text.Utf8.{Bytes, str}
use docpulse.Cache.{new_redis_cache}
use docpulse.Config.{Config, Environment, load, configuration}
use docpulse.Database.TenantStore.{Tenants, create_if_not_exists, with_hash}
use docpulse.Database.TenantStore.Lookup.{create_if_not_exists_found}
use docpulse.Database.Connection.{connect}
use docpulse.Domain.{Tenant}
use docpulse.Storage.{new_local_store}
use docpulse.Middleware.Auth.{hash_api_key, auth, granted}
use docpulse.Middleware.Auth.Grants.{bearer}
use docpulse.Api.Handlers.{handle_dev_setup, api_key, handlers}
use docpulse.Cmd.Migrations.{run_migrations}
use docpulse.Cmd.Seed.{dev_tenant, seeding}
use docpulse.Cmd.Seed.Logins.{auth_of_with_hash}
use docpulse.Cmd.Api.{
  Parts, Startup, Server, new_server, open_stores, seeded, after_migrations, after_connect,
  start_api, new_handlers,
}

differs : (a b : String) → a ≢ b → str_eq a b ≡ false
differs a b n = elim (Bool-cases (str_eq a b)) [ inl e ↦ absurd (n ((eq_iff a b).0 e)) | inr e ↦ e ]

module _ (parts : Parts) (o : Startup) where
  -- The server has the configured key, and the tenants are those behind the seeding.
  record IsStarted (cfg : Config) (tenants : Tenants) (server : Server)
      (outcome : Result Server × Tenants) : Type 0 where
    key : server.handlers.dev_api_key ≡ cfg.api.dev_api_key
    table : outcome.1 ≡ seeded parts o cfg tenants

  open_stores_key :
      (cfg : Config) (server : Server)
      → open_stores parts o cfg ≡ ok server
      → server.handlers.dev_api_key ≡ cfg.api.dev_api_key
  unfolding open_stores new_server new_handlers
  open_stores_key cfg server h =
      let dir = new_local_store o.mkdir (str cfg.storage.local_dir) in
      let redis = wrap "failed to connect to Redis" (new_redis_cache o.redis) in
      let server_of : Bytes → Result Server = λ base. ok (new_server parts o cfg base) in
      let after_redis =
        (>>_iff redis (wrap "failed to initialize storage" dir >>= server_of) server).0 h in
      let (base, made, e) =
        (wrap->>=_iff "failed to initialize storage" dir server_of server).0 after_redis.1 in
      ap (λ (v : Server). v.handlers.dev_api_key) (sym (ok-injective e))

  after_migrations-IsStarted :
      (cfg : Config) (m : Result (Unit {0})) (tenants : Tenants) (server : Server)
      → (after_migrations parts o cfg m tenants).0 ≡ ok server
      → IsStarted cfg tenants server (after_migrations parts o cfg m tenants)
  unfolding after_migrations
  after_migrations-IsStarted cfg (err e) tenants server h = absurd cc
  after_migrations-IsStarted cfg (ok _) tenants server h = record {
    key = open_stores_key cfg server h;
    table = refl;
  }

  after_connect-IsStarted :
      (cfg : Config) (c : Result (Unit {0})) (tenants : Tenants) (server : Server)
      → (after_connect parts o cfg c tenants).0 ≡ ok server
      → IsStarted cfg tenants server (after_connect parts o cfg c tenants)
  unfolding after_connect
  after_connect-IsStarted cfg (err e) tenants server h = absurd cc
  after_connect-IsStarted cfg (ok _) tenants server h =
      after_migrations-IsStarted cfg (run_migrations o.exec o.entries).0 tenants server h

  start_api-IsStarted :
      (env : Environment) (tenants : Tenants) (server : Server)
      → (start_api parts o env tenants).0 ≡ ok server
      → IsStarted (load parts.parse_duration env) tenants server (start_api parts o env tenants)
  unfolding start_api
  start_api-IsStarted env tenants server h =
      after_connect-IsStarted (load parts.parse_duration env) (connect o.pool o.ping) tenants server
        h

-- A server that has started with a development key shows it at /dev/setup, whether or not DEV_MODE
-- is "true"; where it is not, no tenant has been created.
pub start_api-shows_key :
    (parts : Parts) (o : Startup) (env : Environment) (tenants : Tenants) (server : Server)
    → env "DEV_API_KEY" ≢ ""
    → (start_api parts o env tenants).0 ≡ ok server
    → (handle_dev_setup server.handlers ≡ api_key (env "DEV_API_KEY"))
      × ((env "DEV_MODE" ≡ "true") ⊎ ((start_api parts o env tenants).1 ≡ tenants))
unfolding handlers configuration seeded
start_api-shows_key parts o env tenants server n h =
    let s = start_api-IsStarted parts o env tenants server h in
    (
      rw (s.key, differs (env "DEV_API_KEY") "" n),
      elim (Bool-cases (str_eq (env "DEV_MODE") "true")) [
        | inl e ↦ inl ((eq_iff (env "DEV_MODE") "true").0 e)
        | inr e ↦ inr (s.table ∙ rw e)
      ],
    )

-- If the server has started with DEV_MODE "true" and a development key, and the tenant "dev" could
-- be created or was there, then the middleware lets a request with the key in.
pub start_api-IsGranted :
    (parts : Parts) (o : Startup) (env : Environment) (tenants : Tenants) (server : Server)
    → env "DEV_MODE" ≡ "true"
    → env "DEV_API_KEY" ≢ ""
    → o.seed ≡ none
    → (create_if_not_exists none
        (dev_tenant o.new_id o.now (hash_api_key parts.sum (str (env "DEV_API_KEY"))))
        tenants).0
      ≡ ok tt
    → (start_api parts o env tenants).0 ≡ ok server
    → (t : Tenant) × (auth parts.sum none
          (bearer ++ str (env "DEV_API_KEY"))
          (start_api parts o env tenants).1
        ≡ granted t)
unfolding configuration seeded seeding
start_api-IsGranted parts o env tenants server mode n fine made h =
    let s = start_api-IsStarted parts o env tenants server h in
    let key = str (env "DEV_API_KEY") in
    let t = dev_tenant o.new_id o.now (hash_api_key parts.sum key) in
    let created : seeded parts o (load parts.parse_duration env) tenants
        ≡ (create_if_not_exists none t tenants).1 =
      rw ((eq_iff (env "DEV_MODE") "true").1 mode, differs (env "DEV_API_KEY") "" n, fine) in
    let (u, e) = create_if_not_exists_found t tenants made in
    (
      u,
      auth_of_with_hash parts.sum key _ u
          (ap (with_hash (hash_api_key parts.sum key)) (s.table ∙ created) ∙ e),
    )
