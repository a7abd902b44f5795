-- ===== src/Api/Router.antt =====
-- `NewRouter` of internal/api/router.go: which routes are open, and the chain of the middleware in
-- front of the others. The route that chi matches, with what it takes from the path, is given.
pub mod Tenants
mod Tests
use docpulse.Base.{ℕ, Bool, Option, none, some, List, String}
use docpulse.Base.Int.{ℤ}
use docpulse.Base.Result.{Result}
use docpulse.Text.Utf8.{Bytes}
use docpulse.Domain.{Uuid, Time, Tenant}
use docpulse.Api.Handlers.{
  Handlers, Reply, Form, handle_extract, handle_get_job, handle_list_jobs, handle_create_webhook,
  handle_delete_webhook, handle_dev_setup, handle_health, handlers,
}
use docpulse.Database.JobStore.{Fault, Jobs}
use docpulse.Database.TenantStore.{tenant_store}
use docpulse.Database.TenantStore
use docpulse.Database.WebhookStore.{Webhooks, webhook_store}
use docpulse.Middleware.Auth.{Access, granted, unauthorized, auth, authentication}
use docpulse.Middleware.RateLimit.{Counters, Verdict, passed, rate_limited, rate_limit, limiter}

-- The body of a new webhook comes decoded, with the random bytes of its secret.
pub data Route : Type 0 where
  health dev_setup frontend : Route
  extract : Form → Route
  get_job : Option Uuid → Route
  list_jobs : (limit offset : Bytes) → Route
  create_webhook : (url : Result String) (random : Result Bytes) → Route
  delete_webhook : Option Uuid → Route

pub record Site : Type 0 where
  pub tenants : TenantStore.Tenants
  pub counters : Counters
  pub jobs : Jobs
  pub webhooks : Webhooks

-- The time, the new id, and the errors of the three stores and of Redis.
pub record Moment : Type 0 where
  pub now : Time
  pub seconds : ℕ
  pub new_id : Uuid
  pub tenant_fault : Fault
  pub redis_fault : Fault
  pub store_fault : Fault
  pub list_fault : Fault

-- The answers 401 and 429 of the middleware, or the handler's; `page` is the frontend's.
pub data Response : Type 0 where
  page too_many_requests : Response
  denied : String → Response
  replied : Reply → Response

module _ (h : Handlers) (m : Moment) where
  with_jobs : Site → Reply × Jobs → Response × Site
  with_jobs s (reply, jobs) = (replied reply, record s { jobs = jobs })

  with_webhooks : Site → Reply × Webhooks → Response × Site
  with_webhooks s (reply, hooks) = (replied reply, record s { webhooks = hooks })

  handle : Tenant → Route → Site → Response × Site
  handle t health s = (replied handle_health, s)
  handle t dev_setup s = (replied (handle_dev_setup h), s)
  handle t frontend s = (page, s)
  handle t (extract form) s =
      with_jobs s (handle_extract h m.store_fault m.new_id m.now (some t) form s.jobs)
  handle t (get_job id) s = (replied (handle_get_job h m.store_fault t id s.jobs), s)
  handle t (list_jobs limit offset) s =
      (replied (handle_list_jobs m.store_fault m.list_fault t limit offset s.jobs), s)
  handle t (create_webhook url random) s =
      with_webhooks s (handle_create_webhook m.store_fault m.new_id t url random s.webhooks)
  handle t (delete_webhook id) s =
      with_webhooks s (handle_delete_webhook m.store_fault t id s.webhooks)

  limited : Tenant → Route → Site → Verdict × Counters → Response × Site
  limited t route s (rate_limited, cs) = (too_many_requests, record s { counters = cs })
  limited t route s (passed, cs) = handle t route (record s { counters = cs })

  behind_auth : ℤ → Route → Site → Access → Response × Site
  behind_auth limit route s (unauthorized msg) = (denied msg, s)
  behind_auth limit route s (granted t) =
      limited t route s (rate_limit m.redis_fault limit m.seconds (some t) s.counters)

  pub access : (Bytes → String) → Bytes → Site → Access
  access sum header s = auth sum m.tenant_fault header s.tenants

  -- A request with the `Authorization` header.
  pub serve : (Bytes → String) → ℤ → Bytes → Route → Site → Response × Site
  serve sum limit header health s = (replied handle_health, s)
  serve sum limit header dev_setup s = (replied (handle_dev_setup h), s)
  serve sum limit header frontend s = (page, s)
  serve sum limit header route s = behind_auth limit route s (access sum header s)

-- Opens the module, for tests.
unfoldable pub routes : Unit {0}
unfolding handlers tenant_store webhook_store authentication limiter with_jobs with_webhooks handle
    limited behind_auth access serve
routes = tt
