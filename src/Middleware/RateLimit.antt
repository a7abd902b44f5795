-- ===== src/Middleware/RateLimit.antt =====
-- `RateLimit` of internal/api/middleware/ratelimit.go over `RateIncr` of internal/cache/cache.go.
-- Redis is a table of counters, each with the time at which it expires. A time is in seconds since
-- 1970. The client or the server may fail, and then nothing is counted.
pub mod Window
mod Tests
use docpulse.Base.{
  ℕ, zero, suc, ◌+◌, ◌/◌, Bool, true, false, ◌&&◌, Option, none, some, List, [], ◌∷◌, String, ltb,
  leb, ◌==◌, if◌then◌else◌,
}
use docpulse.Base.Int.{ℤ, below}
use docpulse.Base.Result.{Result, ok, err, wrap}
use docpulse.Domain.{Uuid, Tenant}

-- The key `rl:<tenant>:<window>`, read as its two parts.
pub record Counter : Type 0 where
  pub tenant : Uuid
  pub window : ℕ
  pub value : ℕ
  pub expires : ℕ

abbrev pub Counters : Type 0
Counters = List Counter

abbrev is_key : Uuid → ℕ → Counter → Bool
is_key tenant window c = (c.tenant == tenant) && (c.window == window)

-- The value of a key, 0 where it is missing or has expired.
unfoldable pub value_at : ℕ → Uuid → ℕ → Counters → ℕ
value_at now tenant window [] = 0
value_at now tenant window (c ∷ cs) =
    if is_key tenant window c
    then if ltb now c.expires then c.value else 0
    else value_at now tenant window cs

-- `INCR` and `EXPIRE`, sent in one pipeline.
unfoldable pub bump : ℕ → Uuid → ℕ → Counters → Counters
bump now tenant window [] =
    record { tenant = tenant; window = window; value = 1; expires = now + 60 } ∷ []
bump now tenant window (c ∷ cs) =
    if is_key tenant window c
    then record c { value = (if ltb now c.expires then c.value else 0) + 1; expires = now + 60 }
      ∷ cs
    else c ∷ bump now tenant window cs

pub rate_incr : Option String → ℕ → Uuid → ℕ → Counters → Result ℕ × Counters
rate_incr (some e) now tenant window cs = (wrap "redis rate incr" (err e), cs)
rate_incr none now tenant window cs =
    (ok (value_at now tenant window cs + 1), bump now tenant window cs)

-- `rate_limited` is the answer 429; otherwise the next handler runs.
pub data Verdict : Type 0 where
  passed rate_limited : Verdict

judge : ℤ → Result ℕ → Verdict
judge limit (err e) = passed
judge limit (ok n) = if below limit n then rate_limited else passed

pub rate_limit : Option String → ℤ → ℕ → Option Tenant → Counters → Verdict × Counters
rate_limit fault limit now none cs = (passed, cs)
rate_limit fault limit now (some t) cs =
    let (count, cs') = rate_incr fault now t.id (now / 60) cs in (judge limit count, cs')

-- Opens the module, for tests.
unfoldable pub limiter : Unit {0}
unfolding value_at bump rate_incr judge rate_limit
limiter = tt
