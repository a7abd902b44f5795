-- ===== src/Cache.antt =====
-- `Get` and `Set` of internal/cache/cache.go over Redis: a table of values, each with the time from
-- which it is gone. `RateIncr` is in Middleware/RateLimit.antt. A time is in nanoseconds.
mod Tests
use text.Mathlib.Text.{◌==◌ as str_eq}
use text.Mathlib.TextPositions.{eq_refl}
use docpulse.Base.{
  ℕ, ◌+◌, ◌<◌, ◌≡◌, refl, ◌≢◌, Bool, true, Option, none, some, List, [], ◌∷◌, String, arith, ltb,
  lt→ltb, ◌==◌, if◌then◌else◌,
}
use docpulse.Base.Dict.{Dict, lookup, insert, lookup-insert_self, lookup-insert_ne}
use docpulse.Base.Result.{Result, ok, err, wrap}
use docpulse.Text.Utf8.{Bytes}
use docpulse.Domain.{Time}

pub record Entry : Type 0 where
  pub value : Bytes
  pub expires : Option Time

abbrev pub Entries : Type 0
Entries = Dict Entry

abbrev is_live : Time → Entry → Bool
is_live now e = elim e.expires [ none ↦ true | some t ↦ ltb now t ]

read : Time → Option Entry → Result Bytes
read now none = err "cache miss"
read now (some e) = if is_live now e then ok e.value else err "cache miss"

pub get : Option String → Time → String → Entries → Result Bytes
get (some e) now key entries = wrap "redis get" (err e)
get none now key entries = read now (lookup key entries)

-- `NewRedisCache` parses the URL and connects later.
pub new_redis_cache : Option String → Result (Unit {0})
new_redis_cache none = ok tt
new_redis_cache (some e) = wrap "parsing redis URL" (err e)

-- A `ttl` of 0 keeps the value for ever.
abbrev expiry : Time → Time → Option Time
expiry now ttl = if ttl == 0 then none else some (now + ttl)

pub set : Option String → Time → Time → String → Bytes → Entries → Result (Unit {0}) × Entries
set (some e) now ttl key value entries = (wrap "redis set" (err e), entries)
set none now ttl key value entries =
    (ok tt, insert key (record { value = value; expires = expiry now ttl }) entries)

-- What is set can be read until the `ttl` is over, or for ever where it is 0, whatever the key had
-- before.
pub get-set :
    (now later ttl : Time) (key : String) (value : Bytes) (entries : Entries)
    → (ttl ≢ 0 → later < now + ttl)
    → get none later key (set none now ttl key value entries).1 ≡ ok value
unfolding get set read
get-set now later ttl key value entries h = rw lookup-insert_self (ground arith)

-- Opens the module, for tests.
unfoldable pub cache_operations : Unit {0}
unfolding new_redis_cache read get set lookup insert
cache_operations = tt
