-- ===== src/Cmd/Seed/Tests.antt =====
-- A run of the script on an empty table.
use docpulse.Base.{◌≡◌, refl, none, [], ◌∷◌, ◌++◌, String, drop, arith}
use docpulse.Base.Result.{ok}
use docpulse.Text.Base64.{decode_base64, base64}
use docpulse.Text.Utf8.{Bytes, utf8}
use docpulse.Database.Connection.{connection}
use docpulse.Database.TenantStore.{tenant_store}
use docpulse.Middleware.Auth.{granted, auth, hash_api_key, authentication}
use docpulse.Middleware.Auth.Grants.{bearer}
use docpulse.Cmd.Seed.{dev_tenant, seed, seeding}
use docpulse.Cmd.Seed.Logins.{seed-IsGranted}

abbrev sum : Bytes → String
sum s = "hash"

-- "di_AQ"
abbrev printed_key : Bytes
printed_key = 0x64 ∷ 0x69 ∷ 0x5F ∷ 0x41 ∷ 0x51 ∷ []

key_printed : (seed sum (ok (1 ∷ [])) none none none 1 9 []).0 ≡ ok printed_key
unfolding seeding tenant_store authentication connection utf8 base64
key_printed = refl

seed-IsGranted_example :
    (auth sum none (bearer ++ printed_key) (seed sum (ok (1 ∷ [])) none none none 1 9 []).1
      ≡ granted (dev_tenant 1 9 (hash_api_key sum printed_key)))
    × (decode_base64 (drop 3 printed_key) ≡ 1 ∷ [])
seed-IsGranted_example =
    seed-IsGranted sum (1 ∷ []) none none none 1 9 [] printed_key (omega arith, tt) key_printed
