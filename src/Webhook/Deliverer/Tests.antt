-- ===== src/Webhook/Deliverer/Tests.antt =====
-- Runs of a delivery.
use text.Mathlib.Text.{◌==◌ as str_eq}
use docpulse.Base.{
  true, ℕ, ◌≡◌, refl, ◌+◌, ◌≤◌, ◌<◌, ◌↔◌, none, some, [], ◌∷◌, length, ltb, if◌then◌else◌,
}
use docpulse.Base.Result.{ok, err}
use docpulse.Domain.{Job, Webhook}
use docpulse.Webhook.Deliverer.{
  Post, deliver_job, Deliverer, Network, deliver, deliverer, start_backoff,
}
use docpulse.Webhook.Deliverer.Backoff.{IsDoubling, IsDeliveredAfter, deliver-IsPaced, deliver_iff}

-- The third answer is the first with a status below 300.
abbrev third : Network
third = record {
  create_request = none;
  answer = λ n. if ltb n 3 then ok 500 else ok 204;
  cancelled = λ n. none;
}

abbrev sender : Deliverer
sender = record { initial_backoff = 10 }

deliver-IsPaced_example :
    ((deliver third sender).posts ≡ length (deliver third sender).waits + 1)
    × ((deliver third sender).posts ≤ 5)
    × IsDoubling (start_backoff sender) (deliver third sender).waits
deliver-IsPaced_example = deliver-IsPaced third sender refl

deliver_iff_example :
    ((deliver third sender).result ≡ ok tt)
    ↔ ((failures : ℕ) × (failures < 5) × IsDeliveredAfter third 1 failures)
deliver_iff_example = deliver_iff third sender refl

deliver-third : deliver third sender ≡ record { result = ok tt; posts = 3; waits = 10 ∷ 20 ∷ [] }
unfolding deliverer
deliver-third = refl

-- A context that ends in the first wait ends the delivery.
deliver_cancelled :
    deliver (record third { cancelled = λ n. some "context canceled" }) sender
    ≡ record { result = err "context canceled"; posts = 1; waits = [] }
unfolding deliverer
deliver_cancelled = refl

abbrev hook : Webhook
hook = record { id = 1; tenant_id = 7; url = "http://a"; secret = "s"; active = true }

-- The network takes a POST whose signature is right, and answers 403 to any other.
abbrev picky : Post → Network
picky post = record third {
  answer = λ n. if str_eq post.signature "sha256=s" then ok 200 else ok 403;
}

deliver_job_signed :
    (job : Job)
    → deliver_job (λ j. ok []) (λ payload secret. secret) picky sender hook job
      ≡ record { result = ok tt; posts = 1; waits = [] }
unfolding deliverer
deliver_job_signed job = refl
