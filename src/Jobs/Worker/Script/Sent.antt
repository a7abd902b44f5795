-- ===== src/Jobs/Worker/Script/Sent.antt =====
-- The statements of a script: which statuses they set, and which errors they meet.
use docpulse.Base.{ℕ, ◌≡◌, refl, Option, none, some, String, All, Bool, true, false, if_both}
use docpulse.Base.Dict.{Dict}
use docpulse.Base.Result.{Result, ok, err}
use docpulse.Text.Utf8.{Bytes}
use docpulse.Domain.{Job, JobStatus, ingesting, chunking, extracting, assembling, ModelTier}
use docpulse.Cache.{Entries}
use docpulse.Database.JobStore.{Fault}
use docpulse.Jobs.Worker.{Clock, Services, Worker, Faults, Totals, is_empty}
use docpulse.Jobs.Worker.Script.{
  Write, sets, completes, fails, script_error, script_completed, script_finish, script_store,
  script_assemble, script_chunks, script_text, script_cached, script_content, script,
}

abbrev pub is_open : JobStatus → Bool
is_open ingesting = true
is_open chunking = true
is_open extracting = true
is_open assembling = true
is_open _ = false

-- The statements that a run with these errors can send.
abbrev pub IsSent : Faults → Write → Type 0
IsSent f (sets fault status) = is_open status ≡ true
IsSent f (completes fault result confidence model cost now) = fault ≡ f.complete_job
IsSent f (fails fault msg) = fault ≡ f.fail_job

module _ (sv : Services) (w : Worker) (f : Faults) (now : Clock) where
  script_completed-IsSent : (fault : Fault) → All (IsSent f) (script_completed sv w f now fault)
  unfolding script_completed script_error
  script_completed-IsSent none = tt
  script_completed-IsSent (some e) = (refl, tt)

  script_finish-IsSent :
      (result : Bytes) (confidence : Dict ℕ) (model : ModelTier) (cost : ℕ)
      → All (IsSent f) (script_finish sv w f now result confidence model cost)
  unfolding script_finish
  script_finish-IsSent result confidence model cost = (refl, script_completed-IsSent f.complete_job)

  script_error-IsSent : (e : String) → All (IsSent f) (script_error sv w f now e)
  unfolding script_error
  script_error-IsSent e = (refl, tt)

  module _ (job : Job) where
    script_store-IsSent :
        (confidence : Dict ℕ) (t : Totals) (result : Result Bytes)
        → All (IsSent f) (script_store sv w f now job confidence t result)
    unfolding script_store
    script_store-IsSent confidence t (err e) = script_error-IsSent _
    script_store-IsSent confidence t (ok result) = script_finish-IsSent _ _ _ _

    script_assemble-IsSent : (t : Totals) → All (IsSent f) (script_assemble sv w f now job t)
    unfolding script_assemble
    script_assemble-IsSent t =
        if_both (All (IsSent f)) (is_empty sv w t.results) (script_error-IsSent _)
          (refl, script_store-IsSent _ _ _)

    script_text-IsSent : (text : Result Bytes) → All (IsSent f) (script_text sv w f now job text)
    unfolding script_text script_chunks
    script_text-IsSent (err e) = script_error-IsSent _
    script_text-IsSent (ok text) =
        if_both (All (IsSent f)) (is_empty sv w text) (script_error-IsSent _)
          (refl, (refl, script_assemble-IsSent _))

    script_cached-IsSent :
        (content : Bytes) (cached : Option Bytes)
        → All (IsSent f) (script_cached sv w f now job content cached)
    unfolding script_cached
    script_cached-IsSent content (some cached) = script_finish-IsSent _ _ _ _
    script_cached-IsSent content none = (refl, script_text-IsSent _)

    script_content-IsSent :
        (cache : Entries) (content : Result Bytes)
        → All (IsSent f) (script_content sv w f now job cache content)
    unfolding script_content
    script_content-IsSent cache (err e) = script_error-IsSent _
    script_content-IsSent cache (ok content) = script_cached-IsSent content _

    pub script-IsSent : (cache : Entries) → All (IsSent f) (script sv w f now job cache)
    unfolding script
    script-IsSent cache = script_content-IsSent cache _
