-- ===== src/Documents.antt =====
-- The documents on their way from `HandleExtract` of internal/api/handlers.go through the local
-- store of internal/storage/store.go to `processJob` of internal/jobs/worker.go.
pub mod Kept
mod Tests
use docpulse.Base.{List, [], ◌∷◌}
use docpulse.Text.Utf8.{Bytes}
use docpulse.Domain.{Uuid, Tenant}
use docpulse.Database.JobStore.{Fault}
use docpulse.Storage.{Files, Write, upload}
use docpulse.Api.Handlers.{Handlers, Document, storage_key}

-- The handlers, where the object store is the local one and its files are these.
pub with_store : Fault → Write → Bytes → Files → Handlers → Handlers
with_store mkdir w base files h = record h {
  upload = λ key content. (upload mkdir w base key content files).0;
}

-- One call of `Upload` by `HandleExtract`, with the errors of the operating system.
pub record Arrival : Type 0 where
  pub tenant : Tenant
  pub id : Uuid
  pub document : Document
  pub mkdir : Fault
  pub write : Write

pub store_document : Handlers → Bytes → Arrival → Files → Files
store_document h base a files =
    (upload a.mkdir a.write base (storage_key h a.tenant a.id a.document) a.document.content
      files).1

pub store_documents : Handlers → Bytes → List Arrival → Files → Files
store_documents h base [] files = files
store_documents h base (a ∷ later) files =
    store_documents h base later (store_document h base a files)
