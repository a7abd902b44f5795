-- ===== src/Database/TenantStore/Tests.antt =====
-- Runs of the creation of tenants.
use text.Mathlib.TextEquality.{eq_iff}
use docpulse.Base.{◌≡◌, ◌≢◌, ◌↔◌, refl, none, some, List, [], ◌∷◌, arith}
use docpulse.Base.Result.{ok}
use docpulse.Domain.{Tenant}
use docpulse.Database.TenantStore.{
  with_hash, get_by_api_key_hash, create, create_if_not_exists, tenant_store,
}
use docpulse.Database.TenantStore.Creations.{
  Creation, creates, creates_if_not_exists, IsFirst, IsFresh, answers_of, table_of,
}
use docpulse.Database.TenantStore.Creations.Fresh.{table_of-IsFirst}

abbrev ann : Tenant
ann = record {
  id = 7;
  name = "Ann";
  api_key_hash = "h";
  rate_limit = 60;
  byte_limit = 1000;
  created_at = 0;
}

abbrev bob : Tenant
bob = record ann { id = 8; name = "Bob" }

abbrev cid : Tenant
cid = record ann { id = 9; api_key_hash = "g" }

-- A creation that fails, one that succeeds, and two that find its hash taken.
abbrev calls : List Creation
calls =
    creates (some "timeout") bob
    ∷ creates none ann
    ∷ creates_if_not_exists none bob
    ∷ creates none bob
    ∷ []

differ : ann.api_key_hash ≢ cid.api_key_hash
differ = λ e. absurd (let h = (eq_iff "h" "g").1 e in cc)

cid-IsFresh : IsFresh cid (answers_of calls [])
unfolding tenant_store
cid-IsFresh = (differ, λ e. omega arith, (differ, λ e. omega arith, tt))

table_of-IsFirst_example :
    ((get_by_api_key_hash none "h" (table_of calls []) ≡ ok ann)
      ↔ IsFirst "h" ann (answers_of calls []))
    × ((create none cid (table_of calls [])).0 ≡ ok tt)
    × ((create_if_not_exists none cid (table_of calls [])).0 ≡ ok tt)
table_of-IsFirst_example = table_of-IsFirst calls "h" ann cid cid-IsFresh

create_if_not_exists_keeps : with_hash "h" (create_if_not_exists none bob (ann ∷ [])).1 ≡ some ann
unfolding tenant_store
create_if_not_exists_keeps = refl

lookup_calls : get_by_api_key_hash none "h" (table_of calls []) ≡ ok ann
unfolding tenant_store
lookup_calls = refl
