-- ===== src/Api/Router/Tenants.antt =====
-- What a request can change.
use docpulse.Base.{◌≡◌, ◌≢◌, refl, String}
use docpulse.Base.Int.{ℤ}
use docpulse.Text.Utf8.{Bytes}
use docpulse.Domain.{Uuid, Tenant}
use docpulse.Api.Handlers.{Handlers}
use docpulse.Api.Handlers.Extracts.{handle_extract_others}
use docpulse.Api.Handlers.Hooks.{handle_create_webhook_others, handle_delete_webhook_others}
use docpulse.Database.JobStore.{owned_by}
use docpulse.Database.WebhookStore.{active_of}
use docpulse.Middleware.Auth.{Access, granted, unauthorized}
use docpulse.Middleware.RateLimit.{Verdict, passed, rate_limited, Counters}
use docpulse.Api.Router.{
  Route, health, dev_setup, frontend, extract, get_job, list_jobs, create_webhook, delete_webhook,
  Site, Moment, handle, limited, behind_auth, access, serve, with_jobs, with_webhooks,
}

-- The tenant has the same jobs and the same active webhooks.
abbrev pub IsSame : Uuid → Site → Site → Type 0
IsSame u s s' =
    (owned_by u s'.jobs ≡ owned_by u s.jobs) × (active_of u s'.webhooks ≡ active_of u s.webhooks)

module _ (h : Handlers) (m : Moment) (u : Uuid) where
  handle-IsSame :
      (t : Tenant) (route : Route) (s : Site) → u ≢ t.id → IsSame u s (handle h m t route s).1
  unfolding handle with_jobs with_webhooks
  handle-IsSame t health s n = (refl, refl)
  handle-IsSame t dev_setup s n = (refl, refl)
  handle-IsSame t frontend s n = (refl, refl)
  handle-IsSame t (extract form) s n =
      (handle_extract_others h m.store_fault m.new_id m.now t form s.jobs u n, refl)
  handle-IsSame t (get_job id) s n = (refl, refl)
  handle-IsSame t (list_jobs limit offset) s n = (refl, refl)
  handle-IsSame t (create_webhook url random) s n =
      (refl, handle_create_webhook_others m.store_fault m.new_id t url random s.webhooks u n)
  handle-IsSame t (delete_webhook id) s n =
      (refl, handle_delete_webhook_others m.store_fault t id s.webhooks u n)

  limited-IsSame :
      (t : Tenant) (route : Route) (s : Site) (v : Verdict × Counters)
      → u ≢ t.id
      → IsSame u s (limited h m t route s v).1
  unfolding limited
  limited-IsSame t route s (rate_limited, cs) n = (refl, refl)
  limited-IsSame t route s (passed, cs) n = handle-IsSame t route (record s { counters = cs }) n

  behind_auth-IsSame :
      (limit : ℤ) (route : Route) (s : Site) (a : Access)
      → ((t : Tenant) → a ≡ granted t → u ≢ t.id)
      → IsSame u s (behind_auth h m limit route s a).1
  unfolding behind_auth
  behind_auth-IsSame limit route s (unauthorized msg) n = (refl, refl)
  behind_auth-IsSame limit route s (granted t) n = limited-IsSame t route s _ (n t refl)

-- A request changes nothing of a tenant that its key does not belong to: whatever the route, the
-- answer and the faults, every tenant other than the one that the header authenticates, if any, has
-- the same jobs and the same active webhooks afterwards.
pub serve-IsSame :
    (h : Handlers) (m : Moment) (sum : Bytes → String) (limit : ℤ) (header : Bytes) (route : Route)
    (s : Site) (u : Uuid)
    → ((t : Tenant) → access h m sum header s ≡ granted t → u ≢ t.id)
    → IsSame u s (serve h m sum limit header route s).1
unfolding serve
serve-IsSame h m sum limit header health s u n = (refl, refl)
serve-IsSame h m sum limit header dev_setup s u n = (refl, refl)
serve-IsSame h m sum limit header frontend s u n = (refl, refl)
serve-IsSame h m sum limit header (extract form) s u n =
    behind_auth-IsSame h m u limit (extract form) s _ n
serve-IsSame h m sum limit header (get_job id) s u n =
    behind_auth-IsSame h m u limit (get_job id) s _ n
serve-IsSame h m sum limit header (list_jobs l o) s u n =
    behind_auth-IsSame h m u limit (list_jobs l o) s _ n
serve-IsSame h m sum limit header (create_webhook url random) s u n =
    behind_auth-IsSame h m u limit (create_webhook url random) s _ n
serve-IsSame h m sum limit header (delete_webhook id) s u n =
    behind_auth-IsSame h m u limit (delete_webhook id) s _ n
