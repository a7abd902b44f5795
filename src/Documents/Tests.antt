-- ===== src/Documents/Tests.antt =====
-- One document and a later one of another job.
use docpulse.Base.{◌+◌, ◌≡◌, refl, none, some, [], ◌∷◌, arith}
use docpulse.Base.Result.{ok}
use docpulse.Text.Utf8.{Bytes, str, utf8}
use docpulse.Domain.{Tenant, Job}
use docpulse.Json.{string, obj, field, end, Object}
use docpulse.Ingestion.Detector.{detector}
use docpulse.Storage.{written, cut_short, local_store, download}
use docpulse.Storage.Paths.{IsPlain}
use docpulse.Jobs.Worker.{extract_storage_key}
use docpulse.Api.Handlers.{Handlers, Document, Form, handle_extract, accepted, handlers}
use docpulse.Documents.{with_store, Arrival, store_document, store_documents}
use docpulse.Documents.Kept.{HasIdTexts, handle_extract-download}

abbrev person : Object
person =
    ("type", string "object")
    ∷ ("properties", obj (field "name" (obj (field "type" (string "string") end)) end))
    ∷ []

abbrev service : Handlers
service = record {
  json = record { unmarshal_object = λ b. ok person; marshal_object = λ o. ok [] };
  upload = λ key content. ok key;
  uuid_text = λ id. (48 + id) ∷ [];
  base_url = [];
  jsonb = λ b. b;
  dev_api_key = "";
}

abbrev ann : Tenant
ann = record {
  id = 7;
  name = "Ann";
  api_key_hash = "h";
  rate_limit = 60;
  byte_limit = 1000;
  created_at = 0;
}

abbrev pdf : Document
pdf = record { content = 0x25 ∷ 0x50 ∷ 0x44 ∷ 0x46 ∷ []; filename = 97 ∷ [] }

abbrev form : Form
form = record { malformed = none; document = some pdf; unreadable = none; schema = 1 ∷ [] }

abbrev base_dir : Bytes
base_dir = 47 ∷ 116 ∷ []

service-HasIdTexts : HasIdTexts service
unfolding local_store
service-HasIdTexts = record {
  plain = λ id. record {
    no_slash = (ground arith, tt);
    not_here = ground arith;
    not_parent = ground arith;
  };
  distinct = λ {id} {other} n e. n (let f : 48 + id ≡ 48 + other = cc in omega (arith, f));
}

name-IsPlain : IsPlain (97 ∷ [])
unfolding local_store
name-IsPlain = record { no_slash = (refl, tt); not_here = refl; not_parent = refl }

abbrev other : Arrival
other = record {
  tenant = ann;
  id = 2;
  document = pdf;
  mkdir = none;
  write = cut_short 2 "disk full";
}

was_accepted :
    (handle_extract (with_store none written base_dir [] service) none 1 0 (some ann) form []).0
    ≡ accepted 1 (str "/v1/jobs/1")
unfolding utf8 detector handlers local_store with_store
was_accepted = refl

handle_extract-download_example :
    (job : Job) × ((handle_extract
        (with_store none written base_dir [] service)
        none
        1
        0
        (some ann)
        form
        []).1
      ≡ job ∷ [])
    × (download none (extract_storage_key job.document_url) (
          store_documents service base_dir (other ∷ []) (
            store_document service base_dir
              (record { tenant = ann; id = 1; document = pdf; mkdir = none; write = written })
              []))
        ≡ ok pdf.content)
handle_extract-download_example =
    handle_extract-download service base_dir none written [] none 1 0 ann form pdf []
      (str "/v1/jobs/1") (other ∷ []) service-HasIdTexts (λ e. cc) refl name-IsPlain
      (((λ e. omega (arith, e)), name-IsPlain), tt) was_accepted
