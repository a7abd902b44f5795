-- ===== src/Cmd/Seed.antt =====
-- The tenant "dev": `seedDevTenant` of cmd/api/main.go, and `main` of scripts/seed.go.
pub mod Logins
mod Tests
use docpulse.Base.{ℕ, ◌^◌, ◌++◌, none, some, [], ◌∷◌, String}
use docpulse.Base.Result.{Result, ok, err, ◌>>=◌, ◌>>◌, wrap}
use docpulse.Text.Utf8.{Bytes, str}
use docpulse.Domain.{Uuid, Time, Tenant}
use docpulse.Database.Connection.{connect}
use docpulse.Database.JobStore.{Fault}
use docpulse.Database.TenantStore.{Tenants, create_if_not_exists}
use docpulse.Database.TenantStore
use docpulse.Middleware.Auth.{hash_api_key, generate_api_key}

pub dev_tenant : Uuid → Time → String → Tenant
dev_tenant id now hash = record {
  id = id;
  name = "dev";
  api_key_hash = hash;
  rate_limit = 1000;
  byte_limit = 2 ^ 30;
  created_at = now;
}

-- An error is logged and otherwise ignored.
pub seed_dev_tenant : (Bytes → String) → Fault → Uuid → Time → Bytes → Tenants → Tenants
seed_dev_tenant sum fault id now raw_key tenants =
    (create_if_not_exists fault (dev_tenant id now (hash_api_key sum raw_key)) tenants).1

-- The script prints the key, or exits with an error.
printed : Bytes → Result (Unit {0}) × Tenants → Result Bytes × Tenants
printed raw_key (err e, tenants) = (wrap "error creating tenant" (err e), tenants)
printed raw_key (ok _, tenants) = (ok raw_key, tenants)

create_tenant : Fault → Uuid → Time → Result (Bytes × String) → Tenants → Result Bytes × Tenants
create_tenant fault id now (err e) tenants = (wrap "failed to generate API key" (err e), tenants)
create_tenant fault id now (ok (raw_key, hash)) tenants =
    printed raw_key (TenantStore.create fault (dev_tenant id now hash) tenants)

connected :
    Result (Unit {0})
    → Fault
    → Uuid
    → Time
    → Result (Bytes × String)
    → Tenants
    → Result Bytes × Tenants
connected (err e) fault id now key tenants = (wrap "failed to connect to database" (err e), tenants)
connected (ok _) fault id now key tenants = create_tenant fault id now key tenants

pub seed :
    (Bytes → String)
    → Result Bytes
    → Fault
    → Fault
    → Fault
    → Uuid
    → Time
    → Tenants
    → Result Bytes × Tenants
seed sum random pool ping fault id now tenants =
    connected (connect pool ping) fault id now (generate_api_key sum random) tenants

-- Opens the module, for tests.
unfoldable pub seeding : Unit {0}
unfolding dev_tenant seed_dev_tenant printed create_tenant connected seed
seeding = tt
