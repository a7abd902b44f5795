-- ===== src/Database/WebhookStore/Tests.antt =====
-- A run of the deletion.
use docpulse.Base.{◌≡◌, ◌↔◌, true, none, [], ◌∷◌, arith}
use docpulse.Base.Result.{ok}
use docpulse.Domain.{Webhook}
use docpulse.Database.WebhookStore.{Webhooks, active_of, list_active, delete}
use docpulse.Database.WebhookStore.Deletes.{Owns, without, delete_active}

abbrev hook : Webhook
hook = record { id = 1; tenant_id = 7; url = "http://a"; secret = "s"; active = true }

abbrev hooks : Webhooks
hooks = hook ∷ record hook { id = 2 } ∷ record hook { id = 3; tenant_id = 8 } ∷ []

delete_active_example :
    (((delete none 7 1 hooks).0 ≡ ok tt) ↔ Owns 7 1 hooks)
    × (list_active none 7 (delete none 7 1 hooks).1 ≡ ok (without 1 (active_of 7 hooks)))
    × (list_active none 8 (delete none 7 1 hooks).1 ≡ list_active none 8 hooks)
delete_active_example = delete_active 7 1 8 hooks (λ e. omega (arith, e))
