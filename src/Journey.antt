-- ===== src/Journey.antt =====
-- One job from its upload by `HandleExtract` of internal/api/handlers.go through `ClaimNext` of
-- internal/database/job_store.go and the worker of internal/jobs/worker.go to `HandleGetJob`.
mod Tests
use docpulse.Base.{
  subst, ℕ, ◌≡◌, ◌≢◌, refl, sym, ap, ◌∙◌, ◌⊎◌, inl, inr, Bool, true, false, ◌&&◌, Option, none,
  some, List, [], ◌∷◌, ◌++◌, String, arith, ◌==◌, if◌then◌else◌, eq_of_some, Bool-cases,
}
use docpulse.Base.Result.{Result, ok, err}
use docpulse.Text.Utf8.{Bytes}
use docpulse.Domain.{Uuid, Time, Tenant, Job, ingesting, completed, failed}
use docpulse.Database.JobStore.{
  Jobs, Fault, find, find_of, get, update, with_status, inserted, as_jsonb, create, job_store,
}
use docpulse.Database.JobStore.Updates.{find-update_same, Touches}
use docpulse.Database.JobStore.Queries.{claim_next_inversion}
use docpulse.Ingestion.Detector.{detect_format}
use docpulse.Jobs.Worker.{Services, Worker, Faults, World, Outcome, process_job, run_job}
use docpulse.Jobs.Worker.Settles.{IsSettled}
use docpulse.Jobs.Worker.Script.Course.{Order, order_of}
use docpulse.Jobs.Worker.Threads.{Thread, Threads, Turns, next_turn, uploads, Later}
use docpulse.Jobs.Worker.Threads.Alone.{alone_in, Turns-IsSettled}
use docpulse.Jobs.Worker.Threads.Forward.{Later-Turns, Later-order_of}
use docpulse.Database.JobStore.Keys.{IsKeyed}
use docpulse.Database.WebhookStore.{Webhooks}
use docpulse.Api.Handlers.{
  Handlers, Reply, Form, accepted, job_view, failure, handle_extract, handle_get_job, view_job,
  new_job, handlers,
}
use docpulse.Api.Handlers.Extracts.{handle_extract-IsAnswered, IsTaken, IsRefused}

find-append_fresh : (js : Jobs) (j : Job) → find j.id js ≡ none → find j.id (js ++ j ∷ []) ≡ some j
unfolding find
find-append_fresh [] j h = ground arith
find-append_fresh (k ∷ js) j h = ground (arith, find-append_fresh js j)

-- The row of an id is the tenant's, if the tenant owns it.
find_of-find :
    (tenant id : Uuid) (js : Jobs) (j : Job)
    → find id js ≡ some j
    → j.tenant_id ≡ tenant
    → find_of tenant id js ≡ some j
unfolding job_store
find_of-find tenant id [] j h o = absurd cc
find_of-find tenant id (k ∷ js) j h o = ground (arith, find_of-find tenant id js j)

-- An accepted upload is a step of the table, and leaves the row of its job in it.
record IsUploaded (jsonb : Bytes → Bytes) (id : Uuid) (t : Tenant) (form : Form) (jobs after : Jobs)
    : Type 0 where
  job : Job
  row : Job
  made : (create none job jobs).1 ≡ after
  there : find id after ≡ some row
  tenant : row.tenant_id ≡ t.id
  schema : row.schema ≡ jsonb form.schema

create_fresh :
    (job : Job) (js : Jobs)
    → find job.id js ≡ none
    → (create none job js).1 ≡ js ++ inserted job ∷ []
unfolding job_store
create_fresh job js e = rw e refl

handle_extract-IsUploaded :
    (h : Handlers) (fault : Fault) (id : Uuid) (now : Time) (t : Tenant) (form : Form) (jobs : Jobs)
    (poll : Bytes)
    → (handle_extract h fault id now (some t) form jobs).0 ≡ accepted id poll
    → IsUploaded h.jsonb id t form jobs (handle_extract h fault id now (some t) form jobs).1
unfolding handlers
handle_extract-IsUploaded h fault id now t form jobs poll agreed =
    elim (handle_extract-IsAnswered h fault id now (some t) form jobs) [
      | inl taken ↦
          let job = as_jsonb h.jsonb (
            new_job id now taken.tenant taken.url (detect_format taken.doc.content) taken.doc
              form.schema) in
          record {
            job = job;
            row = inserted job;
            made = create_fresh job jobs taken.fresh ∙ sym taken.added;
            there = ap (find id) taken.added ∙ find-append_fresh jobs (inserted job) taken.fresh;
            tenant = ap (λ (u : Tenant). u.id) (sym (eq_of_some taken.authenticated));
            schema = refl;
          }
      | inr (status, msg, code, e) ↦ absurd (
          let f : failure status msg code ≡ accepted id poll =
            sym (ap (λ (a : Reply × Jobs). a.0) e) ∙ agreed in
          cc)
    ]

get_of_find :
    (tenant id : Uuid) (js : Jobs) (j : Job)
    → find id js ≡ some j
    → j.tenant_id ≡ tenant
    → get none tenant id js ≡ ok j
unfolding job_store
get_of_find tenant id js j h o = rw (find_of-find tenant id js j h o)

-- A job that is settled is shown without an address to poll.
view_job_settled :
    (h : Handlers) (id : Uuid) (out : Outcome) (j : Job)
    → IsSettled j out
    → view_job h id (ok j) ≡ job_view j none
unfolding handlers
view_job_settled h id out j (inl (success, done)) = simp (done.0)
view_job_settled h id out j (inr (e, broke, gone, msg, fired)) = simp gone

-- From the upload to the answer, however the runs interleave: if an upload is accepted in a state
-- that the program reaches, and in a later state a run of a job of its id has sent all its
-- statements, of which `Fail` has met no fault of the database, then the tenant that asks for the
-- job gets it, where the query meets none either, with the schema of the upload, as the database
-- gives it back, and with no address to poll. The job is completed, with a result, or failed with
-- the error of the run as its message. At the start no job is being run, and the ids of the rows
-- are distinct.
pub journey :
    (h : Handlers) (fault : Fault) (id : Uuid) (now : Time) (t : Tenant) (form : Form)
    (poll : Bytes) (sv : Services) (w : Worker) (js : Jobs) (s u : Threads) (hooks : Webhooks)
    (before : List Thread) (r : Thread) (after : List Thread)
    → IsKeyed js
    → Turns sv w js s
    → (handle_extract h fault id now (some t) form s.jobs).0 ≡ accepted id poll
    → Later sv w (record s { jobs = (handle_extract h fault id now (some t) form s.jobs).1 }) u
    → u.running ≡ before ++ r ∷ after
    → r.job.id ≡ id
    → r.left ≡ []
    → r.faults.fail_job ≡ none
    → (j : Job) × (handle_get_job h none t (some id) u.jobs ≡ job_view j none)
      × (j.schema ≡ h.jsonb form.schema)
      × IsSettled j (process_job sv w r.faults r.now r.job (alone_in r hooks))
unfolding handlers
journey h fault id now t form poll sv w js s u hooks before r after keyed reached agreed later here
      mine over calm =
    let up = handle_extract-IsUploaded h fault id now t form s.jobs poll agreed in
    let uploaded =
      subst (λ jobs. Turns sv w js (record s { jobs = jobs })) up.made
        (next_turn reached (uploads up.job)) in
    let (k, at, kept) = Later-order_of sv w keyed uploaded later id up.row up.there in
    let (j, found, settled) =
      Turns-IsSettled sv w js u hooks before r after (Later-Turns sv w uploaded later) here over
        calm in
    let one : k ≡ j = eq_of_some (sym at ∙ ap (λ i. find i u.jobs) (sym mine) ∙ found) in
    let order : order_of j ≡ order_of up.row = ap order_of (sym one) ∙ kept in
    (
      j,
      ap (view_job h id) (
            get_of_find t.id id u.jobs j (ap (λ i. find i u.jobs) (sym mine) ∙ found)
              (ap (λ (o : Order). o.tenant_id) order ∙ up.tenant))
          ∙ view_job_settled h id (process_job sv w r.faults r.now r.job (alone_in r hooks)) j
              settled,
      ap (λ (o : Order). o.schema) order ∙ up.schema,
      settled,
    )
