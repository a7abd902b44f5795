-- ===== src/Database/TenantStore/Creations.antt =====
-- Sequences of calls of `Create` and `CreateIfNotExists` of internal/database/tenant_store.go, and
-- what `GetByAPIKeyHash` finds behind them.
pub mod Fresh
use text.Mathlib.Text.{◌==◌ as str_eq}
use text.Mathlib.TextEquality.{eq_iff}
use docpulse.Base.{
  ◌≡◌, ◌≢◌, ◌⊎◌, ◌↔◌, inl, inr, refl, sym, ap, ◌∙◌, Bool, true, false, ◌||◌, Option, none, some,
  List, [], ◌∷◌, ◌++◌, String, arith, if◌then◌else◌, Bool-cases, All, ◌==◌,
}
use docpulse.Base.Result.{Result, ok, err}
use docpulse.Domain.{Tenant}
use docpulse.Database.JobStore.{Fault}
use docpulse.Database.TenantStore.{
  Tenants, with_hash, get_by_api_key_hash, has_id, has_hash, create, create_if_not_exists,
  tenant_store,
}
use docpulse.Database.TenantStore.Lookup.{
  or_else, or_else_same, if_hash, with_hash-append, create_if_not_exists_lookup,
  get_by_api_key_hash_iff,
}

pub data Creation : Type 0 where
  creates : Fault → Tenant → Creation
  creates_if_not_exists : Fault → Tenant → Creation

abbrev pub tenant_of : Creation → Tenant
tenant_of (creates fault t) = t
tenant_of (creates_if_not_exists fault t) = t

abbrev pub apply : Creation → Tenants → Result (Unit {0}) × Tenants
apply (creates fault t) ts = create fault t ts
apply (creates_if_not_exists fault t) ts = create_if_not_exists fault t ts

-- The tenants that the calls were given, each with the answer of its call.
abbrev pub Answers : Type 0
Answers = List (Tenant × Result (Unit {0}))

abbrev pub answers_of : List Creation → Tenants → Answers
answers_of [] ts = []
answers_of (c ∷ cs) ts = (tenant_of c, (apply c ts).0) ∷ answers_of cs (apply c ts).1

abbrev pub table_of : List Creation → Tenants → Tenants
table_of [] ts = ts
table_of (c ∷ cs) ts = table_of cs (apply c ts).1

-- The tenant of the first call with the hash that was answered without an error.
pub data IsFirst (hash : String) (t : Tenant) : Answers → Type 0 where
  here : {l : Answers} → t.api_key_hash ≡ hash → IsFirst hash t ((t, ok tt) ∷ l)
  behind_other :
      {u : Tenant} {l : Answers}
      → u.api_key_hash ≢ hash
      → IsFirst hash t l
      → IsFirst hash t ((u, ok tt) ∷ l)
  behind_error :
      {u : Tenant} {e : String} {l : Answers} → IsFirst hash t l → IsFirst hash t ((u, err e) ∷ l)

-- No call with the tenant's hash or id was answered without an error.
abbrev pub IsFresh : Tenant → Answers → Type 0
IsFresh t [] = Unit
IsFresh t ((u, err e) ∷ l) = IsFresh t l
IsFresh t ((u, ok _) ∷ l) = (u.api_key_hash ≢ t.api_key_hash) × (u.id ≢ t.id) × IsFresh t l

if_ok : Result (Unit {0}) → Option Tenant → Option Tenant
if_ok (ok _) o = o
if_ok (err e) o = none

first : String → Answers → Option Tenant
first hash [] = none
first hash ((t, a) ∷ l) = or_else (if_ok a (if_hash hash t)) (first hash l)

or_else_assoc : (a b c : Option Tenant) → or_else (or_else a b) c ≡ or_else a (or_else b c)
or_else_assoc (some t) b c = refl
or_else_assoc none b c = refl

-- A call without an error is answered `ok` and the tenant is behind the others, or it changes
-- nothing.
pub create_cases :
    (fault : Fault) (t : Tenant) (ts : Tenants)
    → (create fault t ts ≡ (ok tt, ts ++ t ∷ []))
      ⊎ ((e : String) × (create fault t ts ≡ (err e, ts)))
unfolding create
create_cases (some e) t ts = inr (_, refl)
create_cases none t ts = elim (Bool-cases (has_id t ts || has_hash t ts)) [
  | inl e ↦ inr ("creating tenant: duplicate key value violates unique constraint", rw e refl)
  | inr e ↦ inl (rw e refl)
]

pub create_if_not_exists_cases :
    (fault : Fault) (t : Tenant) (ts : Tenants)
    → ((fault ≡ none) × ((create_if_not_exists none t ts).0 ≡ ok tt))
      ⊎ ((e : String) × (create_if_not_exists fault t ts ≡ (err e, ts)))
unfolding create_if_not_exists
create_if_not_exists_cases (some e) t ts = inr (_, refl)
create_if_not_exists_cases none t ts = elim (Bool-cases (has_hash t ts)) [
  | inl e ↦ inl (refl, rw e refl)
  | inr e ↦ elim (Bool-cases (has_id t ts)) [
    | inl i ↦
        inr ("upserting tenant: duplicate key value violates unique constraint", rw (e, i) refl)
    | inr i ↦ inl (refl, rw (e, i) refl)
  ]
]

apply_lookup :
    (hash : String) (c : Creation) (ts : Tenants)
    → with_hash hash (apply c ts).1
      ≡ or_else (with_hash hash ts) (if_ok (apply c ts).0 (if_hash hash (tenant_of c)))
unfolding if_ok
apply_lookup hash (creates fault t) ts = elim (create_cases fault t ts) [
  | inl e ↦ rw e (with_hash-append hash ts t)
  | inr (why, e) ↦ rw e (sym (or_else_same (with_hash hash ts)))
]
apply_lookup hash (creates_if_not_exists fault t) ts =
    elim (create_if_not_exists_cases fault t ts) [
      | inl (f, e) ↦ rw (f, e) (create_if_not_exists_lookup hash t ts e)
      | inr (why, e) ↦ rw e (sym (or_else_same (with_hash hash ts)))
    ]

with_hash-table_of :
    (hash : String) (cs : List Creation) (ts : Tenants)
    → with_hash hash (table_of cs ts) ≡ or_else (with_hash hash ts) (first hash (answers_of cs ts))
unfolding first
with_hash-table_of hash [] ts = sym (or_else_same (with_hash hash ts))
with_hash-table_of hash (c ∷ cs) ts =
    with_hash-table_of hash cs (apply c ts).1
    ∙ ap (λ o. or_else o (first hash (answers_of cs (apply c ts).1))) (apply_lookup hash c ts)
    ∙ or_else_assoc (with_hash hash ts) (if_ok (apply c ts).0 (if_hash hash (tenant_of c)))
        (first hash (answers_of cs (apply c ts).1))

first-IsFirst :
    (hash : String) (t : Tenant) (l : Answers) → first hash l ≡ some t → IsFirst hash t l
unfolding first if_ok
first-IsFirst hash t [] h = absurd cc
first-IsFirst hash t ((u, err e) ∷ l) h = behind_error (first-IsFirst hash t l h)
first-IsFirst hash t ((u, ok _) ∷ l) h = elim (Bool-cases (str_eq u.api_key_hash hash)) [
  | inl e ↦ let same : u ≡ t = ground arith in rw (← same) (here ((eq_iff u.api_key_hash hash).0 e))
  | inr e ↦
      behind_other (ground (arith, eq_iff u.api_key_hash hash)) (first-IsFirst hash t l (rw e at h))
]

IsFirst-first :
    (hash : String) (t : Tenant) (l : Answers) → IsFirst hash t l → first hash l ≡ some t
unfolding first if_ok
IsFirst-first hash t _ (here e) = ground (arith, eq_iff t.api_key_hash hash)
IsFirst-first hash t _ (behind_other {u} {l} n f) =
    ground (arith, eq_iff u.api_key_hash hash, IsFirst-first hash t l f)
IsFirst-first hash t _ (behind_error {u} {e} {l} f) = IsFirst-first hash t l f

-- The lookup after the calls, from an empty table.
pub with_hash-IsFirst :
    (hash : String) (cs : List Creation) (t : Tenant)
    → (with_hash hash (table_of cs []) ≡ some t) ↔ IsFirst hash t (answers_of cs [])
unfolding with_hash
with_hash-IsFirst hash cs t =
    let e = with_hash-table_of hash cs [] in
    (λ h. first-IsFirst hash t _ (sym e ∙ h), λ f. e ∙ IsFirst-first hash t _ f)
