-- ===== src/Cmd/Seed/Logins.antt =====
-- The key that scripts/seed.go prints is one that the middleware accepts.
use docpulse.Base.{
  All, inl, inr, sym, ◌<◌, ◌≡◌, refl, ap, ◌∙◌, subst, none, some, ◌++◌, String, drop,
}
use docpulse.Base.Result.{Result, ok, err, ok-injective, Result-cases}
use docpulse.Text.Base64.{encode_base64, decode_base64, decode_base64-encode_base64}
use docpulse.Text.Utf8.{Bytes, str, utf8}
use docpulse.Domain.{Uuid, Time}
use docpulse.Database.Connection.{connect}
use docpulse.Database.JobStore.{Fault}
use docpulse.Database.TenantStore.{Tenants, with_hash}
use docpulse.Database.TenantStore
use docpulse.Database.TenantStore.Lookup.{create_lookup}
use docpulse.Domain.{Tenant}
use docpulse.Middleware.Auth.{hash_api_key, generate_api_key, granted, auth, authentication}
use docpulse.Middleware.Auth.Grants.{auth-with_hash_iff, bearer, starts_with-bearer, drop-bearer}
use docpulse.Cmd.Seed.{dev_tenant, printed, create_tenant, connected, seed}

-- A key whose hash is stored with a tenant logs in as that tenant.
pub auth_of_with_hash :
    (sum : Bytes → String) (key : Bytes) (tenants : Tenants) (t : Tenant)
    → with_hash (hash_api_key sum key) tenants ≡ some t
    → auth sum none (bearer ++ key) tenants ≡ granted t
auth_of_with_hash sum key tenants t e =
    (auth-with_hash_iff sum none (bearer ++ key) tenants t).1
      (starts_with-bearer key, refl, rw (drop-bearer key) e)

printed_ok :
    (raw key : Bytes) (r : Result (Unit {0}) × Tenants)
    → (printed raw r).0 ≡ ok key
    → (raw ≡ key) × (r.0 ≡ ok tt) × ((printed raw r).1 ≡ r.1)
unfolding printed
printed_ok raw key (err e, tenants) h = absurd cc
printed_ok raw key (ok tt, tenants) h = (ok-injective h, refl, refl)

create_tenant-IsGranted :
    (sum : Bytes → String) (random : Result Bytes) (fault : Fault) (id : Uuid) (now : Time)
    (tenants : Tenants) (key : Bytes)
    → (create_tenant fault id now (generate_api_key sum random) tenants).0 ≡ ok key
    → auth sum none
        (bearer ++ key)
        (create_tenant fault id now (generate_api_key sum random) tenants).1
      ≡ granted (dev_tenant id now (hash_api_key sum key))
unfolding create_tenant authentication dev_tenant
create_tenant-IsGranted sum (err e) fault id now tenants key h = absurd cc
create_tenant-IsGranted sum (ok b) fault id now tenants key h =
    let raw = str "di_" ++ encode_base64 b in
    let t = dev_tenant id now (hash_api_key sum raw) in
    let (same, made, kept) = printed_ok raw key (TenantStore.create fault t tenants) h in
    subst
      (λ k.
        auth sum none (bearer ++ k) (printed raw (TenantStore.create fault t tenants)).1
        ≡ granted (dev_tenant id now (hash_api_key sum k)))
      same
      (auth_of_with_hash sum raw _ t
        (ap (with_hash (hash_api_key sum raw)) kept ∙ create_lookup fault t tenants made))

connected-IsGranted :
    (sum : Bytes → String) (random : Result Bytes) (db : Result (Unit {0})) (fault : Fault)
    (id : Uuid) (now : Time) (tenants : Tenants) (key : Bytes)
    → (connected db fault id now (generate_api_key sum random) tenants).0 ≡ ok key
    → auth sum none
        (bearer ++ key)
        (connected db fault id now (generate_api_key sum random) tenants).1
      ≡ granted (dev_tenant id now (hash_api_key sum key))
unfolding connected
connected-IsGranted sum random (err e) fault id now tenants key h = absurd cc
connected-IsGranted sum random (ok _) fault id now tenants key h =
    create_tenant-IsGranted sum random fault id now tenants key h

-- The printed key is made of the random bytes.
seed_key :
    (sum : Bytes → String) (b : Bytes) (pool ping fault : Fault) (id : Uuid) (now : Time)
    (tenants : Tenants) (key : Bytes)
    → (seed sum (ok b) pool ping fault id now tenants).0 ≡ ok key
    → str "di_" ++ encode_base64 b ≡ key
unfolding seed connected create_tenant authentication
seed_key sum b pool ping fault id now tenants key h = elim (Result-cases (connect pool ping)) [
  | inl (u, e) ↦ (printed_ok (str "di_" ++ encode_base64 b) key _ (rw e at h)).0
  | inr (why, e) ↦ absurd (let f : _ ≡ ok key = rw e at h in cc)
]

-- If the seeding script prints a key, then the middleware lets a request with that key in as the
-- tenant that the script has created, and the random bytes can be read back from what follows "di_"
-- in the key, so that the key is as hard to guess as they are.
pub seed-IsGranted :
    (sum : Bytes → String) (b : Bytes) (pool ping fault : Fault) (id : Uuid) (now : Time)
    (tenants : Tenants) (key : Bytes)
    → All (λ x. x < 256) b
    → (seed sum (ok b) pool ping fault id now tenants).0 ≡ ok key
    → (auth sum none (bearer ++ key) (seed sum (ok b) pool ping fault id now tenants).1
        ≡ granted (dev_tenant id now (hash_api_key sum key)))
      × (decode_base64 (drop 3 key) ≡ b)
unfolding seed utf8
seed-IsGranted sum b pool ping fault id now tenants key small h = (
  connected-IsGranted sum (ok b) (connect pool ping) fault id now tenants key h,
  ap (λ k. decode_base64 (drop 3 k)) (sym (seed_key sum b pool ping fault id now tenants key h))
      ∙ decode_base64-encode_base64 b small,
)
