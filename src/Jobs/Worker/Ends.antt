-- ===== src/Jobs/Worker/Ends.antt =====
-- The two ways in which a run of `processJob` ends: an error, or `Complete` and the webhooks.
use docpulse.Base.{ℕ, ◌≡◌, refl, ◌⊎◌, inl, inr, Option, none, some, String, if_both}
use docpulse.Base.Dict.{Dict}
use docpulse.Base.Result.{Result, ok, err}
use docpulse.Text.Utf8.{Bytes}
use docpulse.Domain.{Uuid, Job, JobStatus, ModelTier}
use docpulse.Database.JobStore.{Fault}
use docpulse.Database.JobStore.Updates.{Touches, Touches-refl, Touches-trans, Touches-update_status}
use docpulse.Cache.{Entries}
use docpulse.Jobs.Worker.{
  Clock, Services, Worker, Faults, World, Outcome, Totals, stopped, finish, store_result, assemble,
  process_chunks, process_text, process_cached, process_content, process_job, step, is_empty,
  content_hash, extract_storage_key, check_cache, put_cache,
}

-- Only the row of the job, and the cache, may have changed.
pub record Leads (id : Uuid) (world world' : World) : Type 0 where
  pub touches : Touches id world.jobs world'.jobs
  pub hooks : world'.webhooks ≡ world.webhooks

Leads-refl : (id : Uuid) (world : World) → Leads id world world
Leads-refl id world = record { touches = Touches-refl id world.jobs; hooks = refl }

Leads-step :
    (sv : Services) (w : Worker) (fault : Fault) (id : Uuid) (status : JobStatus) {world v : World}
    → Leads id world v
    → Leads id world (step sv w fault id status v)
Leads-step sv w fault id status {world} {v} l = record {
  touches = Touches-trans id l.touches (Touches-update_status fault id status v.jobs);
  hooks = l.hooks;
}

-- The document and the key of its result in the cache.
abbrev pub key_of : Services → Job → Bytes → String
key_of sv job content = content_hash sv.sum content job.schema

abbrev pub document_of : Services → Job → Result Bytes
document_of sv job = sv.download (extract_storage_key job.document_url)

-- The result is the one that the cache had, or the cache has just been given it.
abbrev pub IsKept : Services → Worker → Faults → Clock → String → Bytes → Entries → Entries → Type 0
IsKept sv w f now key result before after =
    ((check_cache sv w f.get_cache now.of_get key before ≡ some result) × (after ≡ before))
    ⊎ ((check_cache sv w f.get_cache now.of_get key before ≡ none)
        × (entries : Entries) × (after ≡ put_cache sv w f.set_cache now.of_set key result entries))

-- What holds of both endings holds of every run.
module _ (sv : Services) (w : Worker) (f : Faults) (now : Clock) (job : Job) (world : World)
    (P : Outcome → Type 0)
    (on_stop : (e : String) (v : World) → Leads job.id world v → P (stopped sv w e v))
    (on_finish : (content result : Bytes) (confidence : Dict ℕ) (model : ModelTier) (cost : ℕ)
        (v : World)
      → Leads job.id world v
      → document_of sv job ≡ ok content
      → IsKept sv w f now (key_of sv job content) result world.cache v.cache
      → P (finish sv w f now.of_end job.id result confidence model cost v)) where
  module _ (content : Bytes) (read : document_of sv job ≡ ok content) where
    module _
        (missed : check_cache sv w f.get_cache now.of_get (key_of sv job content) world.cache
          ≡ none) where
      store_result-ends :
          (confidence : Dict ℕ) (t : Totals) (result : Result Bytes) (v : World)
          → Leads job.id world v
          → P (store_result sv w f now job (key_of sv job content) confidence t result v)
      unfolding store_result
      store_result-ends confidence t (err e) v l = on_stop _ v l
      store_result-ends confidence t (ok result) v l =
          on_finish content result confidence t.model_used t.cost _
            (record { touches = l.touches; hooks = l.hooks }) read (inr (missed, v.cache, refl))

      assemble-ends :
          (t : Totals) (v : World)
          → Leads job.id world v
          → P (assemble sv w f now job (key_of sv job content) t v)
      unfolding assemble
      assemble-ends t v l =
          if_both P (is_empty sv w t.results) (on_stop "no chunks produced results" v l)
            (store_result-ends _ t _ _ (Leads-step sv w f.set_assembling job.id _ l))

      process_chunks-ends :
          (text : Bytes) (v : World)
          → Leads job.id world v
          → P (process_chunks sv w f now job (key_of sv job content) text v)
      unfolding process_chunks
      process_chunks-ends text v l =
          assemble-ends _ _
            (Leads-step sv w f.set_extracting job.id _ (Leads-step sv w f.set_chunking job.id _ l))

      process_text-ends :
          (text : Result Bytes) (v : World)
          → Leads job.id world v
          → P (process_text sv w f now job (key_of sv job content) text v)
      unfolding process_text
      process_text-ends (err e) v l = on_stop _ v l
      process_text-ends (ok text) v l =
          if_both P (is_empty sv w text) (on_stop "no text extracted from document" v l)
            (process_chunks-ends text v l)

    process_cached-ends :
        (cached : Option Bytes)
        → check_cache sv w f.get_cache now.of_get (key_of sv job content) world.cache ≡ cached
        → P (process_cached sv w f now job content (key_of sv job content) cached world)
    unfolding process_cached
    process_cached-ends (some cached) hit =
        on_finish content cached _ _ 0 world (Leads-refl job.id world) read (inl (hit, refl))
    process_cached-ends none missed =
        process_text-ends missed _ _
          (Leads-step sv w f.set_ingesting job.id _ (Leads-refl job.id world))

  process_content-ends :
      (content : Result Bytes)
      → document_of sv job ≡ content
      → P (process_content sv w f now job content world)
  unfolding process_content
  process_content-ends (err e) read = on_stop _ world (Leads-refl job.id world)
  process_content-ends (ok content) read = process_cached-ends content read _ refl

  pub process_job-ends : P (process_job sv w f now job world)
  unfolding process_job
  process_job-ends = process_content-ends _ refl
