-- ===== src/Database/TenantStore/Creations/Fresh.antt =====
-- Which calls of `Create` and `CreateIfNotExists` are answered without an error, and who is found
-- behind them.
use text.Mathlib.TextEquality.{eq_iff}
use docpulse.Base.{
  ◌≡◌, ◌≢◌, ◌⊎◌, ◌↔◌, inl, inr, refl, subst, false, ◌||◌, none, some, List, [], ◌∷◌, ◌++◌, String,
  arith, Bool-cases,
}
use docpulse.Base.Result.{Result, ok, err}
use docpulse.Domain.{Tenant}
use docpulse.Database.TenantStore.{
  Tenants, get_by_api_key_hash, has_id, has_hash, create, create_if_not_exists,
}
use docpulse.Database.TenantStore.Lookup.{get_by_api_key_hash_iff}
use docpulse.Database.TenantStore.Creations.{
  Creation, creates, creates_if_not_exists, tenant_of, apply, Answers, answers_of, table_of,
  IsFirst, IsFresh, with_hash-IsFirst,
}

-- No row has the id or the hash of the tenant.
abbrev IsUnused : Tenant → Tenants → Type 0
IsUnused t ts = (has_id t ts ≡ false) × (has_hash t ts ≡ false)

IsUnused-append :
    (t u : Tenant) (ts : Tenants)
    → (u.api_key_hash ≢ t.api_key_hash) × (u.id ≢ t.id)
    → IsUnused t ts
    → IsUnused t (ts ++ u ∷ [])
unfolding has_id has_hash
IsUnused-append t u [] (n, m) (i, h) =
    (ground arith, ground (arith, eq_iff u.api_key_hash t.api_key_hash))
IsUnused-append t u (v ∷ ts) (n, m) (i, h) =
    let (a, b) = IsUnused-append t u ts (n, m) (ground arith, ground arith) in
    (ground arith, ground arith)

-- A call adds its tenant and is answered without an error, or the table stays as it was.
apply_cases :
    (c : Creation) (ts : Tenants)
    → (apply c ts ≡ (ok tt, ts ++ tenant_of c ∷ [])) ⊎ ((apply c ts).1 ≡ ts)
unfolding create create_if_not_exists
apply_cases (creates (some e) t) ts = inr refl
apply_cases (creates none t) ts = elim (Bool-cases (has_id t ts || has_hash t ts)) [
  | inl e ↦ inr (rw e refl)
  | inr e ↦ inl (rw e refl)
]
apply_cases (creates_if_not_exists (some e) t) ts = inr refl
apply_cases (creates_if_not_exists none t) ts = elim (Bool-cases (has_hash t ts)) [
  | inl e ↦ inr (rw e refl)
  | inr e ↦ elim (Bool-cases (has_id t ts)) [
    | inl i ↦ inr (rw (e, i) refl)
    | inr i ↦ inl (rw (e, i) refl)
  ]
]

IsFresh-tail :
    (t u : Tenant) (a : Result (Unit {0})) (l : Answers) → IsFresh t ((u, a) ∷ l) → IsFresh t l
IsFresh-tail t u (err e) l h = h
IsFresh-tail t u (ok _) l (_, _, h) = h

table_of-IsUnused :
    (t : Tenant) (cs : List Creation) (ts : Tenants)
    → IsFresh t (answers_of cs ts)
    → IsUnused t ts
    → IsUnused t (table_of cs ts)
table_of-IsUnused t [] ts h free = free
table_of-IsUnused t (c ∷ cs) ts h free = elim (apply_cases c ts) [
  | inl e ↦
      let (n, m, rest) =
        subst
          (λ (a : Result (Unit {0}) × Tenants). IsFresh t ((tenant_of c, a.0) ∷ answers_of cs a.1))
          e h in
      rw e (
        table_of-IsUnused t cs (ts ++ tenant_of c ∷ []) rest
          (IsUnused-append t (tenant_of c) ts (n, m) free))
  | inr e ↦
      table_of-IsUnused t cs (apply c ts).1 (IsFresh-tail t (tenant_of c) (apply c ts).0 _ h)
        (rw e free)
]

-- The table of tenants behind any sequence of calls of `Create` and `CreateIfNotExists`, some of
-- which may have failed, from the empty table: the lookup of a hash gives exactly the tenant of the
-- first call with that hash that was answered without an error, and a further call is answered
-- without an error if the database does not fail and no call with the tenant's hash or id was.
pub table_of-IsFirst :
    (cs : List Creation) (hash : String) (t u : Tenant)
    → IsFresh u (answers_of cs [])
    → ((get_by_api_key_hash none hash (table_of cs []) ≡ ok t) ↔ IsFirst hash t (answers_of cs []))
      × ((create none u (table_of cs [])).0 ≡ ok tt)
      × ((create_if_not_exists none u (table_of cs [])).0 ≡ ok tt)
unfolding has_id has_hash create create_if_not_exists
table_of-IsFirst cs hash t u fresh =
    let (to, from) = get_by_api_key_hash_iff none hash (table_of cs []) t in
    let (found, is_found) = with_hash-IsFirst hash cs t in
    let (i, h) = table_of-IsUnused u cs [] fresh (refl, refl) in
    ((λ e. found (to e).1, λ f. from (refl, is_found f)), rw (i, h) refl, rw (i, h) refl)
