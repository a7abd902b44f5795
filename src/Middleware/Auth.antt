-- ===== src/Middleware/Auth.antt =====
-- `Auth` of internal/api/middleware/auth.go, over the tenant store, and `HashAPIKey` and
-- `GenerateAPIKey` of internal/auth/apikey.go. SHA-256 in hexadecimal and the random bytes are
-- parameters.
pub mod Grants
mod Tests
use Prim.Native.String
use docpulse.Base.{
  Bool, Option, none, some, List, [], ◌∷◌, ◌++◌, String, if◌then◌else◌, drop, length,
}
use docpulse.Base.Result.{Result, ok, err, wrap}
use docpulse.Text.{starts_with}
use docpulse.Text.Base64.{encode_base64}
use docpulse.Text.Utf8.{Bytes, str}
use docpulse.Domain.{Tenant}
use docpulse.Database.JobStore.{Fault}
use docpulse.Database.TenantStore.{Tenants, get_by_api_key_hash}

pub hash_api_key : (Bytes → String) → Bytes → String
hash_api_key sum key = sum key

-- The key that is shown once, and the hash that is kept.
pub generate_api_key : (Bytes → String) → Result Bytes → Result (Bytes × String)
generate_api_key sum (err e) = err (String.◌++◌ "generating random bytes: " e)
generate_api_key sum (ok b) =
    ok (str "di_" ++ encode_base64 b, hash_api_key sum (str "di_" ++ encode_base64 b))

-- The next handler runs with the tenant, or the answer is 401 with the text.
pub data Access : Type 0 where
  granted : Tenant → Access
  unauthorized : String → Access

resolved : Result Tenant → Access
resolved (err e) = unauthorized "invalid API key"
resolved (ok t) = granted t

pub auth : (Bytes → String) → Fault → Bytes → Tenants → Access
auth sum fault header tenants =
    if starts_with (str "Bearer ") header
    then resolved (
        get_by_api_key_hash fault (hash_api_key sum (drop (length (str "Bearer ")) header)) tenants)
    else unauthorized "missing or malformed Authorization header"

-- Opens the module, for tests.
unfoldable pub authentication : Unit {0}
unfolding hash_api_key generate_api_key resolved auth
authentication = tt
