-- ===== src/Api/Router/Tests.antt =====
-- Requests to the site, with the key "7" of a tenant.
use docpulse.Base.{◌≡◌, refl, ap, true, none, some, [], ◌∷◌, String, arith}
use docpulse.Base.Int.{pos}
use docpulse.Base.Result.{ok, err}
use docpulse.Text.Utf8.{Bytes, str, utf8}
use docpulse.Domain.{Tenant, Webhook}
use docpulse.Api.Handlers.{Handlers, no_content}
use docpulse.Api.Router.{
  delete_webhook, Site, Moment, denied, replied, too_many_requests, serve, routes,
}
use docpulse.Middleware.Auth.Grants.{granted-injective}
use docpulse.Api.Router.Tenants.{IsSame, serve-IsSame}

abbrev service : Handlers
service = record {
  json = record { unmarshal_object = λ b. err "no JSON"; marshal_object = λ o. ok [] };
  upload = λ key content. ok key;
  uuid_text = λ id. [];
  base_url = [];
  jsonb = λ b. b;
  dev_api_key = "";
}

abbrev moment : Moment
moment = record {
  now = 9;
  seconds = 60;
  new_id = 3;
  tenant_fault = none;
  redis_fault = none;
  store_fault = none;
  list_fault = none;
}

abbrev ann : Tenant
ann = record {
  id = 7;
  name = "Ann";
  api_key_hash = "some";
  rate_limit = 60;
  byte_limit = 1000;
  created_at = 0;
}

abbrev sum : Bytes → String
sum [] = "none"
sum (b ∷ s) = "some"

abbrev hook : Webhook
hook = record { id = 1; tenant_id = 7; url = "http://a"; secret = "s"; active = true }

abbrev site : Site
site = record {
  tenants = ann ∷ [];
  counters = [];
  jobs = [];
  webhooks = hook ∷ record hook { id = 2; tenant_id = 8 } ∷ [];
}

abbrev key : Bytes
key = str "Bearer 7"

serve-IsSame_example :
    IsSame 8 site (serve service moment sum (pos 5) key (delete_webhook (some 1)) site).1
unfolding routes utf8
serve-IsSame_example =
    serve-IsSame service moment sum (pos 5) key (delete_webhook (some 1)) site 8 (λ t g e.
      let k : 7 ≡ t.id = ap (λ (x : Tenant). x.id) (granted-injective g) in omega (arith, k, e))

serve_deletes :
    (serve service moment sum (pos 5) key (delete_webhook (some 1)) site).0 ≡ replied no_content
unfolding routes utf8
serve_deletes = refl

-- A limit of 0 lets nothing through.
serve_limited :
    (serve service moment sum (pos 0) key (delete_webhook (some 2)) site).0 ≡ too_many_requests
unfolding routes utf8
serve_limited = refl

serve_keyless :
    serve service moment sum (pos 5) (str "7") (delete_webhook (some 1)) site
    ≡ (denied "missing or malformed Authorization header", site)
unfolding routes utf8
serve_keyless = refl
