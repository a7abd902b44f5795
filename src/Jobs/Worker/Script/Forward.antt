-- ===== src/Jobs/Worker/Script/Forward.antt =====
-- The statuses in the order of a run: a script sets them one after the other, and ends with the
-- statement that completes the job or fails it.
use docpulse.Base.{
  ℕ, ◌≤◌, ◌≡◌, refl, Bool, true, false, Option, none, some, List, [], ◌∷◌, String, arith, if_both,
}
use docpulse.Base.Dict.{Dict}
use docpulse.Base.Result.{Result, ok, err}
use docpulse.Text.Utf8.{Bytes}
use docpulse.Domain.{
  Job, JobStatus, pending, ingesting, chunking, extracting, assembling, completed, failed,
  ModelTier,
}
use docpulse.Cache.{Entries}
use docpulse.Database.JobStore.{Fault}
use docpulse.Jobs.Worker.{Clock, Services, Worker, Faults, Totals, is_empty}
use docpulse.Jobs.Worker.Script.{
  Write, sets, completes, fails, script_error, script_completed, script_finish, script_store,
  script_assemble, script_chunks, script_text, script_cached, script_content, script,
}

abbrev pub rank : JobStatus → ℕ
rank pending = 0
rank ingesting = 1
rank chunking = 2
rank extracting = 3
rank assembling = 4
rank completed = 5
rank failed = 5

abbrev pub is_final : JobStatus → Bool
is_final completed = true
is_final failed = true
is_final _ = false

-- From a status of the rank on.
abbrev pub IsForward : ℕ → List Write → Type 0
IsForward n [] = Unit
IsForward n (sets fault status ∷ rest) = (n ≤ rank status) × IsForward (rank status) rest
IsForward n (completes none result confidence model cost now ∷ rest) = rest ≡ []
IsForward n (completes (some e) result confidence model cost now ∷ rest) = IsForward n rest
IsForward n (fails fault msg ∷ rest) = rest ≡ []

module _ (sv : Services) (w : Worker) (f : Faults) (now : Clock) where
  script_error-IsForward : (n : ℕ) (e : String) → IsForward n (script_error sv w f now e)
  unfolding script_error
  script_error-IsForward n e = refl

  finish-IsForward :
      (n : ℕ) (fault : Fault) (result : Bytes) (confidence : Dict ℕ) (model : ModelTier) (cost : ℕ)
      → IsForward n (
          completes fault result confidence model cost now.of_end
          ∷ script_completed sv w f now fault)
  unfolding script_completed
  finish-IsForward n none result confidence model cost = refl
  finish-IsForward n (some e) result confidence model cost = script_error-IsForward n _

  script_finish-IsForward :
      (n : ℕ) (result : Bytes) (confidence : Dict ℕ) (model : ModelTier) (cost : ℕ)
      → IsForward n (script_finish sv w f now result confidence model cost)
  unfolding script_finish
  script_finish-IsForward n result = finish-IsForward n f.complete_job (sv.jsonb result)

  module _ (job : Job) where
    script_store-IsForward :
        (n : ℕ) (confidence : Dict ℕ) (t : Totals) (result : Result Bytes)
        → IsForward n (script_store sv w f now job confidence t result)
    unfolding script_store
    script_store-IsForward n confidence t (err e) = script_error-IsForward n _
    script_store-IsForward n confidence t (ok result) = script_finish-IsForward n _ _ _ _

    script_assemble-IsForward : (t : Totals) → IsForward 3 (script_assemble sv w f now job t)
    unfolding script_assemble
    script_assemble-IsForward t =
        if_both (IsForward 3) (is_empty sv w t.results) (script_error-IsForward 3 _)
          (omega arith, script_store-IsForward 4 _ t _)

    script_text-IsForward : (text : Result Bytes) → IsForward 1 (script_text sv w f now job text)
    unfolding script_text script_chunks
    script_text-IsForward (err e) = script_error-IsForward 1 _
    script_text-IsForward (ok text) =
        if_both (IsForward 1) (is_empty sv w text) (script_error-IsForward 1 _)
          (omega arith, (omega arith, script_assemble-IsForward _))

    script_cached-IsForward :
        (content : Bytes) (cached : Option Bytes)
        → IsForward 1 (script_cached sv w f now job content cached)
    unfolding script_cached
    script_cached-IsForward content (some cached) = script_finish-IsForward 1 _ _ _ _
    script_cached-IsForward content none = (omega arith, script_text-IsForward _)

    script_content-IsForward :
        (cache : Entries) (content : Result Bytes)
        → IsForward 1 (script_content sv w f now job cache content)
    unfolding script_content
    script_content-IsForward cache (err e) = script_error-IsForward 1 _
    script_content-IsForward cache (ok content) = script_cached-IsForward content _

    pub script-IsForward : (cache : Entries) → IsForward 1 (script sv w f now job cache)
    unfolding script
    script-IsForward cache = script_content-IsForward cache _
