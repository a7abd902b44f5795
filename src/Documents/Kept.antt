-- ===== src/Documents/Kept.antt =====
-- The worker finds the document of each job that `HandleExtract` has answered with its id.
use docpulse.Base.{
  ◌≡◌, ◌≢◌, refl, sym, ap, ◌∙◌, eq_of_some, inl, inr, some, none, List, [], ◌∷◌, ◌++◌, append_assoc,
  All, arith,
}
use docpulse.Base.Result.{ok}
use docpulse.Text.Utf8.{Bytes, str, utf8}
use docpulse.Domain.{Uuid, Time, Tenant, Job}
use docpulse.Database.JobStore.{Fault, Jobs}
use docpulse.Storage.{Files, Write, find_file, join, upload, download}
use docpulse.Storage.Paths.{IsPlain, key_of, join-key_of_ne, join-key_of_ne_nil}
use docpulse.Storage.Keeps.{find_file-upload_ne, upload_ok, download_of_file}
use docpulse.Jobs.Worker.{extract_storage_key, job_worker}
use docpulse.Api.Handlers.{
  Handlers, Reply, accepted, failure, Document, Form, storage_key, handle_extract, handlers,
}
use docpulse.Api.Handlers.Extracts.{handle_extract-IsAnswered}
use docpulse.Documents.{with_store, Arrival, store_document, store_documents}

-- The texts of two ids differ, and none has a slash or is a dot.
pub record HasIdTexts (h : Handlers) : Type 0 where
  pub plain : (id : Uuid) → IsPlain (h.uuid_text id)
  pub distinct : {id other : Uuid} → id ≢ other → h.uuid_text id ≢ h.uuid_text other

-- A document of another job, whose filename is one part of a path.
abbrev pub IsOther : Uuid → Arrival → Type 0
IsOther id a = (id ≢ a.id) × IsPlain a.document.filename

extract_storage_key-file :
    (path : Bytes) → path ≢ [] → extract_storage_key (str "file://" ++ path) ≡ path
unfolding job_worker utf8
extract_storage_key-file [] n = absurd (n refl)
extract_storage_key-file (b ∷ path) n = ground arith

module _ (h : Handlers) (texts : HasIdTexts h) (base : Bytes) (named : base ≢ []) where
  key-of_storage_key :
      (t : Tenant) (id : Uuid) (doc : Document)
      → storage_key h t id doc ≡ key_of (h.uuid_text t.id) (h.uuid_text id) doc.filename
  unfolding handlers utf8
  key-of_storage_key t id doc = simp append_assoc refl

  abbrev path_of : Tenant → Uuid → Document → Bytes
  path_of t id doc = join base (storage_key h t id doc)

  path_of_ne_nil :
      (t : Tenant) (id : Uuid) (doc : Document) → IsPlain doc.filename → path_of t id doc ≢ []
  path_of_ne_nil t id doc p =
      rw (key-of_storage_key t id doc)
        (join-key_of_ne_nil base _ _ _ named (texts.plain t.id) (texts.plain id) p)

  path_of_ne :
      (t u : Tenant) (id other : Uuid) (doc later : Document)
      → IsPlain doc.filename
      → IsPlain later.filename
      → id ≢ other
      → path_of u other later ≢ path_of t id doc
  path_of_ne t u id other doc later p q n e =
      join-key_of_ne base _ _ _ _ _ _ named (texts.plain u.id) (texts.plain other) q
        (texts.plain t.id) (texts.plain id) p (λ f. texts.distinct n (sym f))
        (ap (join base) (sym (key-of_storage_key u other later))
          ∙ e
          ∙ ap (join base) (key-of_storage_key t id doc))

  find_file-store_documents :
      (t : Tenant) (id : Uuid) (doc : Document) (later : List Arrival) (files : Files)
      → IsPlain doc.filename
      → All (IsOther id) later
      → find_file (path_of t id doc) (store_documents h base later files)
        ≡ find_file (path_of t id doc) files
  unfolding store_documents store_document
  find_file-store_documents t id doc [] files p o = refl
  find_file-store_documents t id doc (a ∷ later) files p ((n, q), o) =
      find_file-store_documents t id doc later _ p o
      ∙ find_file-upload_ne a.mkdir a.write base _ a.document.content _ files
          (path_of_ne t a.tenant id a.id doc a.document p q n)

  -- The URL of an upload that succeeded leads the worker to the content.
  stored_found :
      (mkdir : Fault) (w : Write) (t : Tenant) (id : Uuid) (doc : Document) (url : Bytes)
      (later : List Arrival) (files : Files)
      → IsPlain doc.filename
      → All (IsOther id) later
      → (upload mkdir w base (storage_key h t id doc) doc.content files).0 ≡ ok url
      → download none (extract_storage_key url) (
          store_documents h base later
            (upload mkdir w base (storage_key h t id doc) doc.content files).1)
        ≡ ok doc.content
  stored_found mkdir w t id doc url later files p o e =
      let (at_path, there) =
        upload_ok mkdir w base (storage_key h t id doc) doc.content url files e in
      rw (at_path, extract_storage_key-file (path_of t id doc) (path_of_ne_nil t id doc p))
        (download_of_file (path_of t id doc) doc.content _
          (find_file-store_documents t id doc later _ p o ∙ there))

-- If an upload of a document whose filename is one part of a path is accepted, then exactly one job
-- is added, and the worker's download of the job's document gives the content that was uploaded,
-- also after any further uploads of documents of other jobs with such filenames, whatever fails in
-- them. The base directory is named, and the texts of ids are distinct parts of a path.
pub handle_extract-download :
    (h : Handlers) (base : Bytes) (mkdir : Fault) (w : Write) (files : Files) (fault : Fault)
    (id : Uuid) (now : Time) (t : Tenant) (form : Form) (doc : Document) (jobs : Jobs)
    (poll : Bytes) (later : List Arrival)
    → HasIdTexts h
    → base ≢ []
    → form.document ≡ some doc
    → IsPlain doc.filename
    → All (IsOther id) later
    → (handle_extract (with_store mkdir w base files h) fault id now (some t) form jobs).0
      ≡ accepted id poll
    → (job : Job) × ((handle_extract
          (with_store mkdir w base files h)
          fault
          id
          now
          (some t)
          form
          jobs).1
        ≡ jobs ++ job ∷ [])
      × (download none (extract_storage_key job.document_url) (
            store_documents h base later (
              store_document h base
                (record { tenant = t; id = id; document = doc; mkdir = mkdir; write = w })
                files))
          ≡ ok doc.content)
unfolding with_store store_document handlers
handle_extract-download h base mkdir w files fault id now t form doc jobs poll later texts named
      attached p o agreed =
    elim (handle_extract-IsAnswered (with_store mkdir w base files h) fault id now (some t) form
      jobs) [
        | inl taken ↦
            let same_doc : taken.doc ≡ doc = eq_of_some (sym taken.attached ∙ attached) in
            let same_tenant : taken.tenant ≡ t = eq_of_some (sym taken.authenticated) in
            let stored : (upload mkdir w base (storage_key h t id doc) doc.content files).0
                ≡ ok taken.url =
              rw (same_doc, same_tenant) at taken.stored in
            (
              _,
              taken.added,
              stored_found h texts base named mkdir w t id doc taken.url later files p o stored,
            )
        | inr (status, msg, code, e) ↦ absurd (
            let f : failure status msg code ≡ accepted id poll =
              sym (ap (λ (a : Reply × Jobs). a.0) e) ∙ agreed in
            cc)
      ]
