-- ===== src/Webhook/Deliverer.antt =====
-- internal/webhook/deliverer.go. What the attempts meet is the record `Network`: the answers to the
-- POSTs, and where the context ends. A time is in nanoseconds. Log lines are left out.
pub mod Backoff
mod Tests
use Prim.Native.String
use docpulse.Base.{
  ℕ, zero, suc, ◌+◌, ◌*◌, Bool, true, false, ◌&&◌, Option, none, some, List, [], ◌∷◌, ◌++◌, String,
  ltb, leb, ◌==◌, if◌then◌else◌,
}
use docpulse.Base.Result.{Result, ok, err}
use docpulse.Text.Utf8.{Bytes}
use docpulse.Domain.{Time, Job, Webhook}

-- The answer of `client.Do`: an error, or a status.
abbrev pub Answer : Type 0
Answer = Result ℕ

pub record Deliverer : Type 0 where
  pub initial_backoff : Time

abbrev pub second : Time
second = 1000000000

abbrev pub new_deliverer : Deliverer
new_deliverer = record { initial_backoff = second }

abbrev pub max_attempts : ℕ
max_attempts = 5

pub start_backoff : Deliverer → Time
start_backoff d = if d.initial_backoff == 0 then second else d.initial_backoff

pub is_delivered : Answer → Bool
is_delivered (err e) = false
is_delivered (ok status) = leb 200 status && ltb status 300

-- What the delivery of one payload did: its result, the number of POSTs, and the waits between them.
pub record Delivery : Type 0 where
  pub result : Result (Unit {0})
  pub posts : ℕ
  pub waits : List Time

abbrev counted : Delivery → Delivery
counted d = record d { posts = d.posts + 1 }

abbrev waited : Time → Delivery → Delivery
waited t d = record d { waits = t ∷ d.waits }

abbrev ended : String → Delivery
ended why = record { result = err why; posts = 0; waits = [] }

-- The environment of one delivery, with the payload, the URL and the headers fixed: whether the
-- request can be created, what POST number `n` is answered, and whether the context ends in the
-- wait behind it.
pub record Network : Type 0 where
  pub create_request : Option String
  pub answer : ℕ → Answer
  pub cancelled : ℕ → Option String

module _ (net : Network) where
  -- The wait behind attempt `n`, and what comes after it.
  after_wait : Time → Option String → Delivery → Delivery
  after_wait backoff (some why) rest = ended why
  after_wait backoff none rest = waited backoff rest

  -- Attempt `n` with `left` attempts behind it.
  attempts : ℕ → ℕ → Time → Delivery
  attempts zero n backoff = ended "webhook delivery failed after 5 attempts"
  attempts (suc left) n backoff =
      let rest = attempts left (n + 1) (backoff * 2) in
      if is_delivered (net.answer n)
      then counted (record { result = ok tt; posts = 0; waits = [] })
      else if leb 1 left
      then counted (after_wait backoff (net.cancelled n) rest)
      else counted rest

  -- A request that cannot be created fails at the first attempt: it is the same at each.
  on_request : Option String → Deliverer → Delivery
  on_request (some why) d = ended why
  on_request none d = attempts max_attempts 1 (start_backoff d)

  pub deliver : Deliverer → Delivery
  deliver d = on_request net.create_request d

-- What each POST carries: the URL, the body and the header `X-DocPulse-Signature`.
pub record Post : Type 0 where
  pub url : String
  pub payload : Bytes
  pub signature : String

-- `hmac` is HMAC-SHA-256 of a payload under a secret, in hexadecimal.
pub sign : (Bytes → String → String) → Bytes → String → String
sign hmac payload secret = String.◌++◌ "sha256=" (hmac payload secret)

deliver_payload :
    (Bytes → String → String) → (Post → Network) → Deliverer → Webhook → Result Bytes → Delivery
deliver_payload hmac net d hook (err e) = ended (String.◌++◌ "marshaling payload: " e)
deliver_payload hmac net d hook (ok payload) =
    deliver
      (net
        (record { url = hook.url; payload = payload; signature = sign hmac payload hook.secret }))
      d

-- `Deliver` with the marshalling of the job, for a network that sees the POST.
pub deliver_job :
    (Job → Result Bytes)
    → (Bytes → String → String)
    → (Post → Network)
    → Deliverer
    → Webhook
    → Job
    → Delivery
deliver_job marshal hmac net d hook job = deliver_payload hmac net d hook (marshal job)

-- Opens the module, for tests.
unfoldable pub deliverer : Unit {0}
unfolding start_backoff is_delivered after_wait attempts on_request deliver sign deliver_payload
    deliver_job
deliverer = tt
