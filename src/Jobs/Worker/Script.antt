-- ===== src/Jobs/Worker/Script.antt =====
-- The statements that a goroutine of `Run` of internal/jobs/worker.go sends to the table `jobs` for
-- its job, one by one: those of `processJob`, and `Fail` where it returns an error.
pub mod Replays
pub mod Sent
pub mod Forward
pub mod Course
pub mod Rows
use Prim.Native.String
use docpulse.Base.{
  ℕ, ◌+◌, Bool, true, false, Option, none, some, List, [], ◌∷◌, String, if◌then◌else◌, length,
}
use docpulse.Base.Dict.{Dict}
use docpulse.Base.Result.{Result, ok, err}
use docpulse.Text.Utf8.{Bytes}
use docpulse.Domain.{
  Uuid, Time, Job, JobStatus, ingesting, chunking, extracting, assembling, ModelTier, fast,
}
use docpulse.Cache.{Entries}
use docpulse.Database.JobStore.{Fault, Jobs, update_status, fail, complete}
use docpulse.Extraction.Chunker.{chunk}
use docpulse.Jobs.Merge.{merge_results}
use docpulse.Jobs.Worker.{
  Clock, Services, Worker, Faults, Totals, no_totals, extract_as, extract_chunks,
  extract_storage_key, content_hash, check_cache, is_empty,
}

-- Each with the error of the database, if it meets one.
pub data Write : Type 0 where
  sets : Fault → JobStatus → Write
  completes : Fault → Bytes → Dict ℕ → ModelTier → ℕ → Time → Write
  fails : Fault → String → Write

pub apply : Uuid → Write → Jobs → Jobs
apply id (sets fault status) jobs = update_status fault id status jobs
apply id (completes fault result confidence model cost now) jobs =
    (complete fault id result confidence model cost now jobs).1
apply id (fails fault msg) jobs = fail fault id msg jobs

unfoldable pub replay : Uuid → List Write → Jobs → Jobs
replay id [] jobs = jobs
replay id (s ∷ rest) jobs = replay id rest (apply id s jobs)

module _ (sv : Services) (w : Worker) (f : Faults) (now : Clock) where
  script_error : String → List Write
  script_error e = fails f.fail_job e ∷ []

  script_completed : Fault → List Write
  script_completed none = []
  script_completed (some e) = script_error (String.◌++◌ "completing job" (String.◌++◌ ": " e))

  script_finish : Bytes → Dict ℕ → ModelTier → ℕ → List Write
  script_finish result confidence model cost =
      completes f.complete_job (sv.jsonb result) confidence model cost now.of_end
      ∷ script_completed f.complete_job

  module _ (job : Job) where
    script_store : Dict ℕ → Totals → Result Bytes → List Write
    script_store confidence t (err e) = script_error (String.◌++◌ "marshaling result: " e)
    script_store confidence t (ok result) = script_finish result confidence t.model_used t.cost

    script_assemble : Totals → List Write
    script_assemble t =
        if is_empty sv w t.results
        then script_error "no chunks produced results"
        else let (merged, confidence) = merge_results sv.json t.results job.schema in
          sets f.set_assembling assembling
          ∷ script_store confidence t (sv.json.marshal_object merged)

    script_chunks : Bytes → List Write
    script_chunks text =
        let chunks = chunk sv.upper sv.new_id w.chunker job.id text in
        sets f.set_chunking chunking
        ∷ sets f.set_extracting extracting
        ∷ script_assemble (extract_chunks sv w job.schema (length chunks) 0 0 chunks no_totals)

    script_text : Result Bytes → List Write
    script_text (err e) = script_error (String.◌++◌ "text extraction: " e)
    script_text (ok text) =
        if is_empty sv w text
        then script_error "no text extracted from document"
        else script_chunks text

    script_cached : Bytes → Option Bytes → List Write
    script_cached content (some cached) = script_finish cached (("_cache_hit", 100) ∷ []) fast 0
    script_cached content none =
        sets f.set_ingesting ingesting
        ∷ script_text (extract_as sv.tools content job.document_format)

    script_content : Entries → Result Bytes → List Write
    script_content cache (err e) = script_error (String.◌++◌ "downloading document: " e)
    script_content cache (ok content) =
        script_cached content
          (check_cache sv w f.get_cache now.of_get (content_hash sv.sum content job.schema) cache)

    -- `cache` is the cache that the run finds.
    pub script : Entries → List Write
    script cache = script_content cache (sv.download (extract_storage_key job.document_url))
