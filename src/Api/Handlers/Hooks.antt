-- ===== src/Api/Handlers/Hooks.antt =====
-- What the handlers of webhooks leave alone.
use text.Mathlib.Text.{◌==◌ as str_eq}
use docpulse.Base.{true, ◌≡◌, ◌≢◌, refl, ap, ◌∙◌, Option, none, some, String, if_both}
use docpulse.Base.Result.{Result, ok, err}
use docpulse.Text.Utf8.{Bytes}
use docpulse.Domain.{Uuid, Tenant, Webhook}
use docpulse.Database.JobStore.{Fault}
use docpulse.Database.WebhookStore.{Webhooks, active_of, create, delete}
use docpulse.Database.WebhookStore.Deletes.{create_others, delete_others}
use docpulse.Api.Handlers.{
  Reply, generate_secret, handle_create_webhook, handle_delete_webhook, create_hook, webhook_reply,
  delete_reply,
}

webhook_reply-hooks :
    (hook : Webhook) (r : Result (Unit {0}) × Webhooks) → (webhook_reply hook r).1 ≡ r.1
unfolding webhook_reply
webhook_reply-hooks hook (err e, hooks) = refl
webhook_reply-hooks hook (ok tt, hooks) = refl

create_hook_others :
    (fault : Fault) (id : Uuid) (t : Tenant) (url : String) (secret : Result String)
    (hooks : Webhooks) (u : Uuid)
    → u ≢ t.id
    → active_of u (create_hook fault id t url secret hooks).1 ≡ active_of u hooks
unfolding create_hook
create_hook_others fault id t url (err e) hooks u n = refl
create_hook_others fault id t url (ok secret) hooks u n =
    ap (active_of u) (webhook_reply-hooks _ (create fault _ hooks))
    ∙ create_others fault
        (record { id = id; tenant_id = t.id; url = url; secret = secret; active = true }) hooks u n

pub handle_create_webhook_others :
    (fault : Fault) (id : Uuid) (t : Tenant) (url : Result String) (random : Result Bytes)
    (hooks : Webhooks) (u : Uuid)
    → u ≢ t.id
    → active_of u (handle_create_webhook fault id t url random hooks).1 ≡ active_of u hooks
unfolding handle_create_webhook
handle_create_webhook_others fault id t (err e) random hooks u n = refl
handle_create_webhook_others fault id t (ok url) random hooks u n =
    if_both (λ (r : Reply × Webhooks). active_of u r.1 ≡ active_of u hooks) (str_eq url "") refl
      (create_hook_others fault id t url (generate_secret random) hooks u n)

delete_reply-hooks : (r : Result (Unit {0}) × Webhooks) → (delete_reply r).1 ≡ r.1
unfolding delete_reply
delete_reply-hooks (err e, hooks) = refl
delete_reply-hooks (ok tt, hooks) = refl

pub handle_delete_webhook_others :
    (fault : Fault) (t : Tenant) (id : Option Uuid) (hooks : Webhooks) (u : Uuid)
    → u ≢ t.id
    → active_of u (handle_delete_webhook fault t id hooks).1 ≡ active_of u hooks
unfolding handle_delete_webhook
handle_delete_webhook_others fault t none hooks u n = refl
handle_delete_webhook_others fault t (some id) hooks u n =
    ap (active_of u) (delete_reply-hooks (delete fault t.id id hooks))
    ∙ delete_others fault t.id id hooks u n
