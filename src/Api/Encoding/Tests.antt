-- ===== src/Api/Encoding/Tests.antt =====
-- What two answers look like.
use docpulse.Base.{◌≡◌, refl, none, some, [], ◌∷◌}
use docpulse.Base.Int.{decimal}
use docpulse.Base.Result.{ok}
use docpulse.Domain.{Tenant, Job, pending}
use docpulse.Json.{null, string, num, obj, end, field}
use docpulse.Api.Handlers.{job_list, job_view, handle_create_webhook}
use docpulse.Api.Encoding.{Texts, body, encoding}
use docpulse.Api.Encoding.Secrets.{handle_create_webhook-secret}

abbrev texts : Texts
texts = record {
  id_text = λ id. "id";
  time_text = λ t. "now";
  cost_text = λ c. "0.5";
  score_text = λ s. "1";
  bytes_text = λ b. "text";
  raw = λ b. null;
}

no_jobs :
    body texts (job_list [] 0 20 0)
    ≡ some (
        obj (
          field "jobs" null
            (field "limit" (num "20") (field "offset" (num "0") (field "total" (num "0") end)))))
unfolding encoding decimal
no_jobs = refl

abbrev waiting : Job
waiting = record {
  id = 1;
  tenant_id = 7;
  status = pending;
  document_url = 47 ∷ [];
  document_format = none;
  document_size_bytes = 5;
  schema = [];
  result = none;
  confidence_scores = none;
  model_used = none;
  cost_usd = 0;
  error_message = some "";
  created_at = 0;
  completed_at = none;
}

waiting_job :
    body texts (job_view waiting none)
    ≡ some (
        obj (
          field "id" (string "id") (
            field "tenant_id" (string "id") (
              field "status" (string "pending") (
                field "document_size_bytes" (num "5") (
                  field "schema"
                    (obj (field "raw" null end))
                    (field "created_at" (string "now") end)))))))
unfolding encoding decimal
waiting_job = refl

abbrev ann : Tenant
ann = record {
  id = 7;
  name = "Ann";
  api_key_hash = "h";
  rate_limit = 60;
  byte_limit = 1000;
  created_at = 0;
}

handle_create_webhook-secret_example :
    body texts (handle_create_webhook none 1 ann (ok "http://a") (ok (1 ∷ [])) []).0
    ≡ body texts (handle_create_webhook none 1 ann (ok "http://a") (ok (2 ∷ [])) []).0
handle_create_webhook-secret_example =
    handle_create_webhook-secret texts none 1 ann (ok "http://a") (1 ∷ []) (2 ∷ []) []
