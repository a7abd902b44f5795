-- ===== src/Jobs/Worker/Script/Replays.antt =====
-- A run writes its script to the table, and the statements of a script.
use docpulse.Base.{ℕ, ◌≡◌, refl, Bool-cases, inl, inr, Option, none, some, ◌∷◌, String}
use docpulse.Base.Dict.{Dict}
use docpulse.Base.Result.{Result, ok, err}
use docpulse.Text.Utf8.{Bytes}
use docpulse.Domain.{Uuid, Job, ModelTier}
use docpulse.Database.JobStore.{Fault, Jobs, complete, job_store}
use docpulse.Jobs.Worker.{
  Clock, Services, Worker, Faults, World, Outcome, Totals, completed_as, finish, store_result,
  assemble, process_chunks, process_text, process_cached, process_content, process_job, settle,
  run_job, is_empty, step,
}
use docpulse.Jobs.Worker.Script.{
  completes, apply, replay, script_error, script_completed, script_finish, script_store,
  script_assemble, script_chunks, script_text, script_cached, script_content, script,
}

module _ (sv : Services) (w : Worker) (f : Faults) (now : Clock) where
  -- The table behind a run that ends so.
  table_after : Uuid → Outcome → Jobs
  table_after id out = (settle sv w f id out.world out.result).jobs

  completed_as-replays :
      (fault : Fault) (id : Uuid) (result : Bytes) (confidence : Dict ℕ) (model : ModelTier)
      (cost : ℕ) (world : World)
      → table_after id (
          completed_as sv w f id world
            (complete fault id result confidence model cost now.of_end world.jobs))
        ≡ replay id
            (completes fault result confidence model cost now.of_end
              ∷ script_completed sv w f now fault)
            world.jobs
  unfolding job_store table_after settle completed_as replay apply script_completed script_error
  completed_as-replays none id result confidence model cost world = refl
  completed_as-replays (some e) id result confidence model cost world = refl

  finish-replays :
      (id : Uuid) (result : Bytes) (confidence : Dict ℕ) (model : ModelTier) (cost : ℕ)
      (world : World)
      → table_after id (finish sv w f now.of_end id result confidence model cost world)
        ≡ replay id (script_finish sv w f now result confidence model cost) world.jobs
  unfolding finish script_finish
  finish-replays id result = completed_as-replays f.complete_job id (sv.jsonb result)

  module _ (job : Job) (key : String) where
    store_result-replays :
        (confidence : Dict ℕ) (t : Totals) (result : Result Bytes) (world : World)
        → table_after job.id (store_result sv w f now job key confidence t result world)
          ≡ replay job.id (script_store sv w f now job confidence t result) world.jobs
    unfolding table_after settle store_result script_store replay apply script_error
    store_result-replays confidence t (err e) world = refl
    store_result-replays confidence t (ok result) world =
        finish-replays job.id result confidence t.model_used t.cost _

    assemble-replays :
        (t : Totals) (world : World)
        → table_after job.id (assemble sv w f now job key t world)
          ≡ replay job.id (script_assemble sv w f now job t) world.jobs
    unfolding table_after settle assemble script_assemble replay apply script_error
    assemble-replays t world = elim (Bool-cases (is_empty sv w t.results)) [
      | inl nothing ↦ rw nothing refl
      | inr some_results ↦
          rw some_results (store_result-replays _ t _ (step sv w f.set_assembling job.id _ world))
    ]

    process_chunks-replays :
        (text : Bytes) (world : World)
        → table_after job.id (process_chunks sv w f now job key text world)
          ≡ replay job.id (script_chunks sv w f now job text) world.jobs
    unfolding process_chunks script_chunks replay apply
    process_chunks-replays text world = assemble-replays _ _

    process_text-replays :
        (text : Result Bytes) (world : World)
        → table_after job.id (process_text sv w f now job key text world)
          ≡ replay job.id (script_text sv w f now job text) world.jobs
    unfolding table_after settle process_text script_text replay apply script_error
    process_text-replays (err e) world = refl
    process_text-replays (ok text) world = elim (Bool-cases (is_empty sv w text)) [
      | inl blank ↦ rw blank refl
      | inr full ↦ rw full (process_chunks-replays text world)
    ]

    process_cached-replays :
        (content : Bytes) (cached : Option Bytes) (world : World)
        → table_after job.id (process_cached sv w f now job content key cached world)
          ≡ replay job.id (script_cached sv w f now job content cached) world.jobs
    unfolding process_cached script_cached replay apply
    process_cached-replays content (some cached) world = finish-replays job.id cached _ _ 0 world
    process_cached-replays content none world = process_text-replays _ _

  process_content-replays :
      (job : Job) (content : Result Bytes) (world : World)
      → table_after job.id (process_content sv w f now job content world)
        ≡ replay job.id (script_content sv w f now job world.cache content) world.jobs
  unfolding table_after settle process_content script_content replay apply script_error
  process_content-replays job (err e) world = refl
  process_content-replays job (ok content) world = process_cached-replays job _ content _ world

  -- A run writes its script to the table of the jobs, and nothing else.
  pub run_job-replays :
      (job : Job) (world : World)
      → (run_job sv w f now job world).jobs
        ≡ replay job.id (script sv w f now job world.cache) world.jobs
  unfolding run_job process_job script table_after
  run_job-replays job world = process_content-replays job _ world
