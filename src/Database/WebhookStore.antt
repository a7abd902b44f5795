-- ===== src/Database/WebhookStore.antt =====
-- internal/database/webhook_store.go over the table `webhooks`.
pub mod Deletes
mod Tests
use Prim.Native.String
use docpulse.Base.{
  Bool, ◌||◌, ◌&&◌, true, false, Option, none, some, List, [], ◌∷◌, ◌++◌, ◌==◌, if◌then◌else◌,
}
use docpulse.Base.Result.{Result, ok, err, wrap}
use docpulse.Domain.{Uuid, Webhook}
use docpulse.Database.JobStore.{Fault}

abbrev pub Webhooks : Type 0
Webhooks = List Webhook

pub has_id : Webhook → Webhooks → Bool
has_id w [] = false
has_id w (v ∷ vs) = v.id == w.id || has_id w vs

pub create : Fault → Webhook → Webhooks → Result (Unit {0}) × Webhooks
create (some e) w ws = (wrap "creating webhook" (err e), ws)
create none w ws =
    if has_id w ws
    then (wrap "creating webhook" (err "duplicate key value violates unique constraint"), ws)
    else (ok tt, ws ++ w ∷ [])

pub active_of : Uuid → Webhooks → Webhooks
active_of tenant [] = []
active_of tenant (w ∷ ws) =
    if (w.tenant_id == tenant) && w.active then w ∷ active_of tenant ws else active_of tenant ws

pub list_active : Fault → Uuid → Webhooks → Result Webhooks
list_active (some e) tenant ws = wrap "listing webhooks" (err e)
list_active none tenant ws = ok (active_of tenant ws)

abbrev is_row : Uuid → Uuid → Webhook → Bool
is_row tenant id w = (w.id == id) && (w.tenant_id == tenant)

deactivated : Uuid → Uuid → Webhooks → Webhooks
deactivated tenant id [] = []
deactivated tenant id (w ∷ ws) =
    (if is_row tenant id w then record w { active = false } else w) ∷ deactivated tenant id ws

any_row : Uuid → Uuid → Webhooks → Bool
any_row tenant id [] = false
any_row tenant id (w ∷ ws) = is_row tenant id w || any_row tenant id ws

pub delete : Fault → Uuid → Uuid → Webhooks → Result (Unit {0}) × Webhooks
delete (some e) tenant id ws = (wrap "deleting webhook" (err e), ws)
delete none tenant id ws =
    if any_row tenant id ws
    then (ok tt, deactivated tenant id ws)
    else (err "webhook not found", ws)

-- Opens the module, for tests.
unfoldable pub webhook_store : Unit {0}
unfolding has_id create active_of list_active deactivated any_row delete
webhook_store = tt
