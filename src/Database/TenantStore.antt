-- ===== src/Database/TenantStore.antt =====
-- internal/database/tenant_store.go over the table `tenants`, whose id and API key hash are unique.
pub mod Creations
pub mod Lookup
mod Tests
use Prim.Native.String
use text.Mathlib.Text.{◌==◌ as str_eq}
use docpulse.Base.{
  Bool, ◌||◌, true, false, Option, none, some, List, [], ◌∷◌, ◌++◌, String, ◌==◌, if◌then◌else◌,
}
use docpulse.Base.Result.{Result, ok, err, wrap}
use docpulse.Domain.{Tenant}
use docpulse.Database.JobStore.{Fault}

abbrev pub Tenants : Type 0
Tenants = List Tenant

pub with_hash : String → Tenants → Option Tenant
with_hash hash [] = none
with_hash hash (t ∷ ts) = if str_eq t.api_key_hash hash then some t else with_hash hash ts

abbrev or_no_rows : Option Tenant → Result Tenant
or_no_rows none = err "no rows in result set"
or_no_rows (some t) = ok t

pub get_by_api_key_hash : Fault → String → Tenants → Result Tenant
get_by_api_key_hash (some e) hash ts = wrap "looking up tenant" (err e)
get_by_api_key_hash none hash ts = wrap "looking up tenant" (or_no_rows (with_hash hash ts))

-- The constraints of the table: `id UUID PRIMARY KEY` and `api_key_hash TEXT NOT NULL UNIQUE` of
-- migrations/001_initial_schema.sql. An insertion that breaks one is an error of the driver.
has_id : Tenant → Tenants → Bool
has_id t [] = false
has_id t (u ∷ us) = u.id == t.id || has_id t us

has_hash : Tenant → Tenants → Bool
has_hash t [] = false
has_hash t (u ∷ us) = str_eq u.api_key_hash t.api_key_hash || has_hash t us

abbrev duplicate {ℓ} : {A : Type ℓ} → Result A
duplicate = err "duplicate key value violates unique constraint"

pub create : Fault → Tenant → Tenants → Result (Unit {0}) × Tenants
create (some e) t ts = (wrap "creating tenant" (err e), ts)
create none t ts =
    if has_id t ts || has_hash t ts
    then (wrap "creating tenant" duplicate, ts)
    else (ok tt, ts ++ t ∷ [])

-- `ON CONFLICT (api_key_hash) DO NOTHING`; a conflict of the ids is still an error.
pub create_if_not_exists : Fault → Tenant → Tenants → Result (Unit {0}) × Tenants
create_if_not_exists (some e) t ts = (wrap "upserting tenant" (err e), ts)
create_if_not_exists none t ts =
    if has_hash t ts
    then (ok tt, ts)
    else if has_id t ts
    then (wrap "upserting tenant" duplicate, ts)
    else (ok tt, ts ++ t ∷ [])

-- Opens the module, for tests.
unfoldable pub tenant_store : Unit {0}
unfolding with_hash get_by_api_key_hash has_id has_hash create create_if_not_exists
tenant_store = tt
