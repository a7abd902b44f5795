-- ===== src/Middleware/Auth/Grants.antt =====
-- Who is let in.
use docpulse.Base.{
  ◌≡◌, refl, ap, ◌∙◌, ◌↔◌, inl, inr, true, none, some, List, [], ◌∷◌, ◌++◌, String, arith, drop,
  length, Bool-cases,
}
use docpulse.Base.Result.{Result, ok, err, ok-injective}
use docpulse.Text.{starts_with}
use docpulse.Text.Utf8.{Bytes, str, utf8}
use docpulse.Domain.{Tenant}
use docpulse.Database.JobStore.{Fault}
use docpulse.Database.TenantStore.{Tenants, with_hash, get_by_api_key_hash}
use docpulse.Database.TenantStore.Lookup.{get_by_api_key_hash_iff}
use docpulse.Database.TenantStore.Creations.{
  Creation, IsFirst, answers_of, table_of, with_hash-IsFirst,
}
use docpulse.Middleware.Auth.{granted, auth, resolved, hash_api_key}

pub granted-injective : {t u : Tenant} → granted t ≡ granted u → t ≡ u
granted-injective e = cc

resolved_iff : (r : Result Tenant) (t : Tenant) → (resolved r ≡ granted t) ↔ (r ≡ ok t)
unfolding resolved
resolved_iff (err e) t = (λ h. absurd cc, λ h. absurd cc)
resolved_iff (ok u) t = (λ h. ap ok (granted-injective h), λ h. ap granted (ok-injective h))

-- The text behind the prefix of a bearer header.
abbrev pub bearer : Bytes
bearer = str "Bearer "

-- A request is let in as a tenant exactly where its header starts with "Bearer ", the database
-- answers, and the tenant is the one that is stored with the hash of what follows.
pub auth-with_hash_iff :
    (sum : Bytes → String) (fault : Fault) (header : Bytes) (tenants : Tenants) (t : Tenant)
    → (auth sum fault header tenants ≡ granted t) ↔ (
        (starts_with bearer header ≡ true)
        × (fault ≡ none)
        × (with_hash (hash_api_key sum (drop (length bearer) header)) tenants ≡ some t))
unfolding auth
auth-with_hash_iff sum fault header tenants t =
    let key = hash_api_key sum (drop (length bearer) header) in
    let (to, from) = resolved_iff (get_by_api_key_hash fault key tenants) t in
    let (sto, sfrom) = get_by_api_key_hash_iff fault key tenants t in
    elim (Bool-cases (starts_with bearer header)) [
      | inl e ↦ (
        λ h. let (f, k) = sto (to (rw e at h)) in (e, f, k),
        λ (_, f, k). rw e (from (sfrom (f, k))),
      )
      | inr e ↦ (λ h. absurd (let h' = rw e at h in cc), λ (e', _, _). absurd cc)
    ]

pub starts_with-bearer : (key : Bytes) → starts_with bearer (bearer ++ key) ≡ true
unfolding utf8
starts_with-bearer key = refl

pub drop-bearer : (key : Bytes) → drop (length bearer) (bearer ++ key) ≡ key
unfolding utf8
drop-bearer key = refl

-- A text with a prefix is the prefix with something behind it.
starts_with-append : (p s : Bytes) → starts_with p s ≡ true → s ≡ p ++ drop (length p) s
starts_with-append [] s h = refl
starts_with-append (a ∷ p) [] h = absurd cc
starts_with-append (a ∷ p) (b ∷ s) h = ground (arith, starts_with-append p s)

-- The tenants come from any sequence of calls of `Create` and `CreateIfNotExists`, some of which may
-- have failed, from the empty table. A request is let in as a tenant exactly where its header is
-- "Bearer " with a key behind it, the database answers, and the tenant is the one of the first call
-- with the hash of the key that was answered without an error.
pub auth_iff :
    (sum : Bytes → String) (fault : Fault) (header : Bytes) (cs : List Creation) (t : Tenant)
    → (auth sum fault header (table_of cs []) ≡ granted t) ↔ (
        (key : Bytes) × (header ≡ str "Bearer " ++ key)
        × (fault ≡ none)
        × IsFirst (sum key) t (answers_of cs []))
unfolding hash_api_key
auth_iff sum fault header cs t =
    let (to, from) = auth-with_hash_iff sum fault header (table_of cs []) t in
    (
      λ h.
          let (e, f, k) = to h in
          let key = drop (length bearer) header in
          (key, starts_with-append bearer header e, f, (with_hash-IsFirst (sum key) cs t).0 k),
      λ (key, e, f, k). from (
        ap (starts_with bearer) e ∙ starts_with-bearer key,
        f,
        ap (λ b. with_hash (sum b) (table_of cs [])) (ap (drop (length bearer)) e ∙ drop-bearer key)
            ∙ (with_hash-IsFirst (sum key) cs t).1 k,
      ),
    )
