-- ===== src/Database/TenantStore/Lookup.antt =====
-- Keys and tenants: one tenant at most has a hash, and a lookup finds it.
use text.Mathlib.Text.{◌==◌ as str_eq}
use text.Mathlib.TextEquality.{eq_iff}
use text.Mathlib.TextPositions.{eq_refl}
use docpulse.Base.{
  ◌≡◌, ◌↔◌, refl, inl, inr, true, false, Option, none, some, [], ◌∷◌, ◌++◌, String, arith,
  if◌then◌else◌, Bool-cases, Option-cases, ap, ◌∙◌,
}
use docpulse.Base.Result.{ok}
use docpulse.Domain.{Tenant}
use docpulse.Database.JobStore.{Fault}
use docpulse.Database.TenantStore.{
  Tenants, with_hash, get_by_api_key_hash, has_id, has_hash, create, create_if_not_exists,
}

abbrev pub or_else : Option Tenant → Option Tenant → Option Tenant
or_else (some t) o = some t
or_else none o = o

abbrev pub if_hash : String → Tenant → Option Tenant
if_hash hash t = if str_eq t.api_key_hash hash then some t else none

pub with_hash-append :
    (hash : String) (ts : Tenants) (t : Tenant)
    → with_hash hash (ts ++ t ∷ []) ≡ or_else (with_hash hash ts) (if_hash hash t)
unfolding with_hash
with_hash-append hash [] t = refl
with_hash-append hash (u ∷ ts) t = ground (arith, with_hash-append hash ts t)

with_hash_fresh :
    (t : Tenant) (ts : Tenants) → has_hash t ts ≡ false → with_hash t.api_key_hash ts ≡ none
unfolding with_hash has_hash
with_hash_fresh t [] h = refl
with_hash_fresh t (u ∷ ts) h = ground (arith, with_hash_fresh t ts)

if_hash_self : (t : Tenant) → if_hash t.api_key_hash t ≡ some t
if_hash_self t = rw (eq_refl t.api_key_hash)

-- A tenant that was created is found by its hash.
pub create_lookup :
    (fault : Fault) (t : Tenant) (ts : Tenants)
    → (create fault t ts).0 ≡ ok tt
    → with_hash t.api_key_hash (create fault t ts).1 ≡ some t
unfolding create
create_lookup (some e) t ts h = absurd cc
create_lookup none t ts h = elim (Bool-cases (has_id t ts)) [
  | inl i ↦ absurd (let k = rw i at h in cc)
  | inr i ↦ elim (Bool-cases (has_hash t ts)) [
    | inl e ↦ absurd (let k = rw (i, e) at h in cc)
    | inr e ↦
        rw (i, e)
          (with_hash-append t.api_key_hash ts t ∙ rw (with_hash_fresh t ts e) (if_hash_self t))
  ]
]

with_hash_known :
    (hash : String) (t : Tenant) (ts : Tenants)
    → has_hash t ts ≡ true
    → with_hash hash ts ≡ or_else (with_hash hash ts) (if_hash hash t)
unfolding with_hash has_hash
with_hash_known hash t [] h = absurd cc
with_hash_known hash t (u ∷ ts) h = ground (
  arith,
  with_hash_known hash t ts,
  eq_iff u.api_key_hash t.api_key_hash,
  eq_iff u.api_key_hash hash,
  eq_iff t.api_key_hash hash,
)

pub or_else_same : (o : Option Tenant) → or_else o none ≡ o
or_else_same none = refl
or_else_same (some t) = refl

-- A `CreateIfNotExists` without error leaves the tenant of the API key's hash as it was where there
-- was one and gives the hash to the new tenant where there was none; the lookup of every other hash
-- answers as before.
pub create_if_not_exists_lookup :
    (hash : String) (t : Tenant) (ts : Tenants)
    → (create_if_not_exists none t ts).0 ≡ ok tt
    → with_hash hash (create_if_not_exists none t ts).1
      ≡ or_else (with_hash hash ts) (if_hash hash t)
unfolding create_if_not_exists
create_if_not_exists_lookup hash t ts h = elim (Bool-cases (has_hash t ts)) [
  | inl e ↦ rw e (with_hash_known hash t ts e)
  | inr e ↦ elim (Bool-cases (has_id t ts)) [
    | inl i ↦ absurd (let h' = rw (e, i) at h in cc)
    | inr i ↦ rw (e, i) (with_hash-append hash ts t)
  ]
]

-- Whoever has the hash already, or the tenant itself, is found after `CreateIfNotExists`.
pub create_if_not_exists_found :
    (t : Tenant) (ts : Tenants)
    → (create_if_not_exists none t ts).0 ≡ ok tt
    → (u : Tenant) × (with_hash t.api_key_hash (create_if_not_exists none t ts).1 ≡ some u)
create_if_not_exists_found t ts h = elim (Option-cases (with_hash t.api_key_hash ts)) [
  | inl n ↦ (t, create_if_not_exists_lookup _ t ts h ∙ rw n (if_hash_self t))
  | inr (u, e) ↦
      (u, create_if_not_exists_lookup _ t ts h ∙ ap (λ o. or_else o (if_hash t.api_key_hash t)) e)
]

pub get_by_api_key_hash_iff :
    (fault : Fault) (hash : String) (ts : Tenants) (t : Tenant)
    → (get_by_api_key_hash fault hash ts ≡ ok t) ↔ ((fault ≡ none) × (with_hash hash ts ≡ some t))
unfolding get_by_api_key_hash
get_by_api_key_hash_iff (some e) hash ts t = (λ h. absurd cc, λ h. absurd cc)
get_by_api_key_hash_iff none hash ts t = ground arith
