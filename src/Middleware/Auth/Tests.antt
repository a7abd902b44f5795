-- ===== src/Middleware/Auth/Tests.antt =====
-- Runs of the authentication, with a key as its own hash.
use docpulse.Base.{◌≡◌, refl, ◌↔◌, none, some, List, [], ◌∷◌, ◌++◌, String}
use docpulse.Text.Utf8.{Bytes, str, utf8}
use docpulse.Domain.{Tenant}
use docpulse.Database.JobStore.{Fault}
use docpulse.Database.TenantStore.{tenant_store}
use docpulse.Database.TenantStore.Creations.{
  Creation, creates, creates_if_not_exists, IsFirst, answers_of, table_of,
}
use docpulse.Middleware.Auth.{granted, unauthorized, auth, authentication}
use docpulse.Middleware.Auth.Grants.{auth_iff}

-- The length, in words.
abbrev sum : Bytes → String
sum [] = "none"
sum (b ∷ s) = "some"

abbrev ann : Tenant
ann = record {
  id = 7;
  name = "Ann";
  api_key_hash = "some";
  rate_limit = 60;
  byte_limit = 1000;
  created_at = 0;
}

abbrev no_fault : Fault
no_fault = none

abbrev header : Bytes
header = str "Bearer di_1"

-- The first creation fails, and the third finds its hash taken.
abbrev calls : List Creation
calls =
    creates (some "timeout") (record ann { id = 8 })
    ∷ creates none ann
    ∷ creates_if_not_exists none (record ann { id = 9 })
    ∷ []

auth_iff_example : (auth sum none header (table_of calls []) ≡ granted ann) ↔ (
    (key : Bytes) × (header ≡ str "Bearer " ++ key)
    × (no_fault ≡ none)
    × IsFirst (sum key) ann (answers_of calls []))
auth_iff_example = auth_iff sum none header calls ann

auth_granted : auth sum none header (ann ∷ []) ≡ granted ann
unfolding authentication tenant_store utf8
auth_granted = refl

auth_malformed :
    auth sum none (str "Basic di_1") (ann ∷ [])
    ≡ unauthorized "missing or malformed Authorization header"
unfolding authentication utf8
auth_malformed = refl
