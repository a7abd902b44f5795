-- ===== src/Middleware/RateLimit/Tests.antt =====
-- Runs of the limiter.
use Prim.Native.Nat.{min}
use docpulse.Base.{◌+◌, ◌≡◌, refl, none, some, List, [], ◌∷◌}
use docpulse.Domain.{Tenant}
use docpulse.Middleware.RateLimit.{limiter}
use docpulse.Middleware.RateLimit.Window.{
  Request, passed_of, faulty_of, counted_of, passed_of_limit,
}

abbrev ann : Tenant
ann = record {
  id = 7;
  name = "Ann";
  api_key_hash = "h";
  rate_limit = 60;
  byte_limit = 1000;
  created_at = 0;
}

-- Three requests of a tenant in the second minute, one of them while Redis fails, and one of
-- another tenant.
abbrev requests : List Request
requests =
    record { fault = none; tenant = ann; now = 60 }
    ∷ record { fault = none; tenant = record ann { id = 8 }; now = 61 }
    ∷ record { fault = some "timeout"; tenant = ann; now = 62 }
    ∷ record { fault = none; tenant = ann; now = 119 }
    ∷ []

passed_of_limit_example :
    passed_of 1 7 1 [] requests ≡ faulty_of 7 1 requests + min 1 (counted_of 7 1 requests)
passed_of_limit_example = passed_of_limit 1 7 1 requests

passed_of_two : passed_of 1 7 1 [] requests ≡ 2
unfolding limiter
passed_of_two = refl
