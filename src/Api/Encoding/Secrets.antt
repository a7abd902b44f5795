-- ===== src/Api/Encoding/Secrets.antt =====
-- What no answer of internal/api/handlers.go shows: the fields with the tag `json:"-"`.
use text.Mathlib.Text.{◌==◌ as str_eq}
use docpulse.Base.{◌≡◌, refl, ap, ◌∙◌, sym, true, some, [], ◌∷◌, String, Bool-cases, inl, inr}
use docpulse.Base.Result.{Result, ok, err}
use docpulse.Base.Int.{decimal}
use docpulse.Text.Hex.{hex_text}
use docpulse.Text.Utf8.{Bytes}
use docpulse.Domain.{Uuid, Tenant, Job, Webhook}
use docpulse.Json.{obj, arr, num, cons, end, field}
use docpulse.Database.JobStore.{Fault, Jobs}
use docpulse.Database.WebhookStore.{Webhooks, has_id, webhook_store}
use docpulse.Api.Handlers.{
  Reply, accepted, job_view, job_list, created, no_content, api_key, healthy, failure,
  handle_create_webhook, create_hook, handlers,
}
use docpulse.Api.Encoding.{Texts, body, job_fields, job_items, jobs_value, webhook_fields}

-- Without the addresses of documents and the secrets of webhooks.
abbrev erased_job : Job → Job
erased_job j = record j { document_url = [] }

abbrev erased_jobs : Jobs → Jobs
erased_jobs [] = []
erased_jobs (j ∷ jobs) = erased_job j ∷ erased_jobs jobs

abbrev pub erased : Reply → Reply
erased (job_view job poll) = job_view (erased_job job) poll
erased (job_list jobs total limit offset) = job_list (erased_jobs jobs) total limit offset
erased (created hook) = created (record hook { secret = "" })
erased r = r

job_items-erased : (x : Texts) (jobs : Jobs) → job_items x (erased_jobs jobs) ≡ job_items x jobs
unfolding job_items job_fields
job_items-erased x [] = refl
job_items-erased x (j ∷ jobs) = ap (cons (obj (job_fields x j end))) (job_items-erased x jobs)

jobs_value-erased : (x : Texts) (jobs : Jobs) → jobs_value x (erased_jobs jobs) ≡ jobs_value x jobs
unfolding jobs_value
jobs_value-erased x [] = refl
jobs_value-erased x (j ∷ jobs) = ap arr (job_items-erased x (j ∷ jobs))

body-erased : (x : Texts) (r : Reply) → body x (erased r) ≡ body x r
unfolding body webhook_fields job_fields
body-erased x (job_list jobs total limit offset) =
    ap
      (λ v. some (
        obj (
          field "jobs" v (
            field "limit" (num (decimal limit))
              (field "offset" (num (decimal offset)) (field "total" (num (decimal total)) end))))))
      (jobs_value-erased x jobs)
body-erased x (job_view job poll) = refl
body-erased x (created hook) = refl
body-erased x (accepted id poll) = refl
body-erased x no_content = refl
body-erased x (api_key key) = refl
body-erased x healthy = refl
body-erased x (failure code msg kind) = refl

has_id_lem : (w v : Webhook) (ws : Webhooks) → w.id ≡ v.id → has_id w ws ≡ has_id v ws
unfolding webhook_store
has_id_lem w v [] e = refl
has_id_lem w v (u ∷ ws) e = rw (e, has_id_lem w v ws e)

abbrev hook_of : Uuid → Tenant → String → String → Webhook
hook_of id t url secret = record {
  id = id;
  tenant_id = t.id;
  url = url;
  secret = secret;
  active = true;
}

create_hook-erased :
    (fault : Fault) (id : Uuid) (t : Tenant) (url s s' : String) (hooks : Webhooks)
    → erased (create_hook fault id t url (ok s) hooks).0
      ≡ erased (create_hook fault id t url (ok s') hooks).0
unfolding handlers webhook_store
create_hook-erased (some e) id t url s s' hooks = refl
create_hook-erased fault id t url s s' hooks =
    let same = has_id_lem (hook_of id t url s) (hook_of id t url s') hooks refl in
    elim (Bool-cases (has_id (hook_of id t url s') hooks)) [
      | inl e ↦ rw (same, e)
      | inr e ↦ rw (same, e)
    ]

-- The answer to the creation of a webhook does not depend on the secret that is generated for it:
-- from any random bytes the same JSON is sent.
pub handle_create_webhook-secret :
    (x : Texts) (fault : Fault) (id : Uuid) (t : Tenant) (url : Result String) (s s' : Bytes)
    (hooks : Webhooks)
    → body x (handle_create_webhook fault id t url (ok s) hooks).0
      ≡ body x (handle_create_webhook fault id t url (ok s') hooks).0
unfolding handlers
handle_create_webhook-secret x fault id t (err e) s s' hooks = refl
handle_create_webhook-secret x fault id t (ok url) s s' hooks = elim (Bool-cases (str_eq url "")) [
  | inl e ↦ rw e
  | inr e ↦ rw e (
      sym (body-erased x (create_hook fault id t url (ok (hex_text s)) hooks).0)
      ∙ ap (body x) (create_hook-erased fault id t url (hex_text s) (hex_text s') hooks)
      ∙ body-erased x (create_hook fault id t url (ok (hex_text s')) hooks).0)
]
