-- ===== src/Middleware/RateLimit/Window.antt =====
-- What the fixed windows of the limiter promise.
use Prim.Native.Nat.{min}
use docpulse.Base.{
  ◌-◌, not, ◌&&◌, ℕ, ◌+◌, ◌/◌, ◌<◌, ◌≡◌, ◌≢◌, refl, ap, ◌∙◌, ◌⊎◌, inl, inr, Bool, true, false,
  Option, none, some, List, [], ◌∷◌, String, arith, ◌==◌, if◌then◌else◌, Bool-cases, Option-cases,
}
use docpulse.Base.Int.{pos}
use docpulse.Domain.{Uuid, Tenant}
use docpulse.Middleware.RateLimit.{
  Counters, Verdict, passed, rate_limited, value_at, bump, judge, rate_incr, rate_limit,
}

-- The counter of another tenant or of another window is left as it is.
bump-other :
    (now later : ℕ) (tenant other : Uuid) (window window' : ℕ) (cs : Counters)
    → ((tenant ≢ other) ⊎ (window ≢ window'))
    → value_at later other window' (bump now tenant window cs) ≡ value_at later other window' cs
unfolding bump value_at
bump-other now later tenant other window window' [] h = ground arith
bump-other now later tenant other window window' (c ∷ cs) h =
    ground (arith, bump-other now later tenant other window window' cs h)

bump-value_at :
    (now later : ℕ) (tenant : Uuid) (window : ℕ) (cs : Counters)
    → later < now + 60
    → value_at later tenant window (bump now tenant window cs) ≡ value_at now tenant window cs + 1
unfolding bump value_at
bump-value_at now later tenant window [] h = ground arith
bump-value_at now later tenant window (c ∷ cs) h =
    ground (arith, bump-value_at now later tenant window cs h)

-- A request of a tenant that has authenticated.
pub record Request : Type 0 where
  pub fault : Option String
  pub tenant : Tenant
  pub now : ℕ

abbrev is_of : Uuid → ℕ → Request → Bool
is_of tenant window r = (r.tenant.id == tenant) && (r.now / 60 == window)

abbrev is_passed : Verdict → Bool
is_passed passed = true
is_passed rate_limited = false

abbrev is_healthy : Option String → Bool
is_healthy none = true
is_healthy (some e) = false

abbrev one_if : Bool → ℕ
one_if b = if b then 1 else 0

-- How many requests of the tenant in the window pass.
abbrev pub passed_of : ℕ → Uuid → ℕ → Counters → List Request → ℕ
passed_of limit tenant window cs [] = 0
passed_of limit tenant window cs (r ∷ rs) =
    let (verdict, cs') = rate_limit r.fault (pos limit) r.now (some r.tenant) cs in
    one_if (is_of tenant window r && is_passed verdict) + passed_of limit tenant window cs' rs

-- How many of them Redis counts, and how many meet a fault of it.
abbrev pub counted_of : Uuid → ℕ → List Request → ℕ
counted_of tenant window [] = 0
counted_of tenant window (r ∷ rs) =
    one_if (is_of tenant window r && is_healthy r.fault) + counted_of tenant window rs

abbrev pub faulty_of : Uuid → ℕ → List Request → ℕ
faulty_of tenant window [] = 0
faulty_of tenant window (r ∷ rs) =
    one_if (is_of tenant window r && not (is_healthy r.fault)) + faulty_of tenant window rs

-- The counter reads `value` all through the window.
abbrev IsStable : Uuid → ℕ → ℕ → Counters → Type 0
IsStable tenant window value cs =
    (later : ℕ) → later / 60 ≡ window → value_at later tenant window cs ≡ value

bump-IsStable :
    (now : ℕ) (tenant : Uuid) (value : ℕ) (cs : Counters)
    → IsStable tenant (now / 60) value cs
    → IsStable tenant (now / 60) (value + 1) (bump now tenant (now / 60) cs)
bump-IsStable now tenant value cs h later e =
    rw (bump-value_at now later tenant (now / 60) cs (omega arith), h now refl) refl

other-IsStable :
    (now : ℕ) (tenant other : Uuid) (window value : ℕ) (cs : Counters)
    → ((other == tenant) && (now / 60 == window)) ≡ false
    → IsStable tenant window value cs
    → IsStable tenant window value (bump now other (now / 60) cs)
other-IsStable now tenant other window value cs o h later e =
    let differs : (other ≢ tenant) ⊎ ((now / 60) ≢ window) = ground arith in
    bump-other now later other tenant (now / 60) window cs differs ∙ h later e

own_key :
    (now : ℕ) (tenant other : Uuid) (window : ℕ)
    → ((other == tenant) && (now / 60 == window)) ≡ true
    → (other ≡ tenant) × (now / 60 ≡ window)
own_key now tenant other window o = ground arith

own_value :
    (now : ℕ) (tenant other : Uuid) (window value : ℕ) (cs : Counters)
    → ((other == tenant) && (now / 60 == window)) ≡ true
    → IsStable tenant window value cs
    → value_at now other (now / 60) cs ≡ value
own_value now tenant other window value cs o h =
    let (e, w) = own_key now tenant other window o in rw (e, w) (h now w)

own-IsStable :
    (now : ℕ) (tenant other : Uuid) (window value : ℕ) (cs : Counters)
    → ((other == tenant) && (now / 60 == window)) ≡ true
    → IsStable tenant window value cs
    → IsStable tenant window (value + 1) (bump now other (now / 60) cs)
own-IsStable now tenant other window value cs o h later l =
    let (e, w) = own_key now tenant other window o in
    let near : later < now + 60 = omega arith in
    rw (e, w) (bump-value_at now later tenant window cs near ∙ ap (λ v. v + 1) (h now w))

passed_of-IsStable :
    (limit : ℕ) (tenant : Uuid) (window value : ℕ) (cs : Counters) (rs : List Request)
    → IsStable tenant window value cs
    → passed_of limit tenant window cs rs
      ≡ faulty_of tenant window rs + min (limit - value) (counted_of tenant window rs)
unfolding rate_limit rate_incr judge
passed_of-IsStable limit tenant window value cs [] h = omega arith
passed_of-IsStable limit tenant window value cs (r ∷ rs) h = elim (Option-cases r.fault) [
  | inr (e, f) ↦ simp f (ground (arith, passed_of-IsStable limit tenant window value cs rs h))
  | inl f ↦ elim (Bool-cases (is_of tenant window r)) [
    | inl o ↦
        let rest =
          passed_of-IsStable limit tenant window (value + 1)
            (bump r.now r.tenant.id (r.now / 60) cs) rs
            (own-IsStable r.now tenant r.tenant.id window value cs o h) in
        simp (f, o, own_value r.now tenant r.tenant.id window value cs o h) (ground arith)
    | inr o ↦
        let rest =
          passed_of-IsStable limit tenant window value (bump r.now r.tenant.id (r.now / 60) cs) rs
            (other-IsStable r.now tenant r.tenant.id window value cs o h) in
        simp (f, o) (omega arith)
  ]
]

-- Of the requests that a tenant makes in one window, in whatever order and among whatever requests
-- of other tenants and other windows, those that Redis counts pass up to the limit and no further,
-- and those that meet a fault of Redis all pass. The counters start empty.
pub passed_of_limit :
    (limit : ℕ) (tenant : Uuid) (window : ℕ) (rs : List Request)
    → passed_of limit tenant window [] rs
      ≡ faulty_of tenant window rs + min limit (counted_of tenant window rs)
unfolding value_at
passed_of_limit limit tenant window rs =
    let h = passed_of-IsStable limit tenant window 0 [] rs (λ later e. refl) in omega arith
