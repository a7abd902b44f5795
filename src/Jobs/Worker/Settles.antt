-- ===== src/Jobs/Worker/Settles.antt =====
-- Every run of a job settles it, and touches no other.
use docpulse.Base.{ℕ, ◌≡◌, ◌≢◌, refl, ◌⊎◌, inl, inr, none, some, [], String}
use docpulse.Base.Dict.{Dict}
use docpulse.Base.Result.{Result, ok, err}
use docpulse.Text.Utf8.{Bytes}
use docpulse.Domain.{Uuid, Time, Job, ModelTier, completed, failed}
use docpulse.Database.JobStore.{Jobs, find, as_completed, as_failed, complete}
use docpulse.Database.JobStore.Updates.{
  Touches, Touches-refl, Touches-trans, Touches-fail, Touches-complete, find-fail, find-complete,
}
use docpulse.Jobs.Worker.Ends.{process_job-ends}
use docpulse.Jobs.Worker.{
  Clock, Services, Worker, Faults, World, Outcome, completed_as, finish, process_job, run_job,
  settle,
}

-- The row is completed with a result.
abbrev pub IsCompleted : Job → Type 0
IsCompleted j = (j.status ≡ completed) × (j.result ≢ none)

-- The run has failed and fired nothing, or has completed the row if there is one.
pub record IsEnded (id : Uuid) (js : Jobs) (out : Outcome) : Type 0 where
  touches : Touches id js out.world.jobs
  ends :
      ((e : String) × (out.result ≡ err e) × (out.fired ≡ []))
      ⊎ ((out.result ≡ ok tt)
          × ((j : Job)
              → find id js ≡ some j
              → (j' : Job) × (find id out.world.jobs ≡ some j') × IsCompleted j'))

IsEnded-after :
    (id : Uuid) {js ks : Jobs} {out : Outcome}
    → Touches id js ks
    → IsEnded id ks out
    → IsEnded id js out
IsEnded-after id t e = record {
  touches = Touches-trans id t e.touches;
  ends = elim e.ends [
    | inl h ↦ inl h
    | inr (h, k) ↦ inr (h, λ j f. let (j', f', o) = t.there j f in k j' f')
  ];
}

module _ (sv : Services) (w : Worker) (f : Faults) where
  IsEnded-completed_as :
      (id : Uuid) (world : World) (update : Result (Unit {0}) × Jobs)
      → Touches id world.jobs update.1
      → (update.0 ≡ ok tt
          → (j : Job) → find id world.jobs ≡ some j
          → (j' : Job) × (find id update.1 ≡ some j') × IsCompleted j')
      → IsEnded id world.jobs (completed_as sv w f id world update)
  unfolding completed_as
  IsEnded-completed_as id world (err e, jobs) t h = record {
    touches = t;
    ends = inl (e, refl, refl);
  }
  IsEnded-completed_as id world (ok tt, jobs) t h = record {
    touches = t;
    ends = inr (refl, h refl);
  }

  IsEnded-finish :
      (now : Time) (id : Uuid) (result : Bytes) (confidence : Dict ℕ) (model : ModelTier) (cost : ℕ)
      (world : World)
      → IsEnded id world.jobs (finish sv w f now id result confidence model cost world)
  unfolding finish
  IsEnded-finish now id result confidence model cost world =
      IsEnded-completed_as id world
        (complete f.complete_job id (sv.jsonb result) confidence model cost now world.jobs)
        (Touches-complete f.complete_job id (sv.jsonb result) confidence model cost now world.jobs)
        (λ h j k. (
          as_completed (sv.jsonb result) confidence model cost now j,
          find-complete f.complete_job id (sv.jsonb result) confidence model cost now world.jobs j h
              k,
          (refl, λ e. cc),
        ))

  process_job-IsEnded :
      (now : Clock) (job : Job) (world : World)
      → IsEnded job.id world.jobs (process_job sv w f now job world)
  process_job-IsEnded now job world =
      process_job-ends sv w f now job world (IsEnded job.id world.jobs)
        (λ e v l. record { touches = l.touches; ends = inl (e, refl, refl) })
        (λ content result confidence model cost v l read kept.
          IsEnded-after job.id l.touches
            (IsEnded-finish now.of_end job.id result confidence model cost v))

  Touches-settle :
      (id : Uuid) (world : World) (r : Result (Unit {0}))
      → Touches id world.jobs (settle sv w f id world r).jobs
  unfolding settle
  Touches-settle id world (ok tt) = Touches-refl id world.jobs
  Touches-settle id world (err e) = Touches-fail f.fail_job id e world.jobs

-- The job is completed by a run without error, or failed with the error of the run, which has then
-- fired no webhook.
abbrev pub IsSettled : Job → Outcome → Type 0
IsSettled j out =
    ((out.result ≡ ok tt) × IsCompleted j)
    ⊎ ((e : String) × (out.result ≡ err e)
        × (j.status ≡ failed)
        × (j.error_message ≡ some e)
        × (out.fired ≡ []))

-- Where `Fail` meets no fault of the database, a run of a job that is in the table leaves it either
-- completed, with a result, or failed, with the error of the run as its message and no webhook
-- fired. This holds whatever the store, the tools, the models and every other statement do.
pub run_job-IsSettled :
    (sv : Services) (w : Worker) (f : Faults) (now : Clock) (job row : Job) (world : World)
    → f.fail_job ≡ none
    → find job.id world.jobs ≡ some row
    → (j : Job) × (find job.id (run_job sv w f now job world).jobs ≡ some j)
      × IsSettled j (process_job sv w f now job world)
unfolding run_job settle
run_job-IsSettled sv w f now job row world h there =
    let out = process_job sv w f now job world in
    let ended = process_job-IsEnded sv w f now job world in
    elim ended.ends [
      | inl (e, failure, fired) ↦
          let (j, k, o) = ended.touches.there row there in
          (
            as_failed e j,
            simp (failure, h) (find-fail job.id e out.world.jobs j k),
            inr (e, failure, refl, refl, fired),
          )
      | inr (success, done) ↦
          let (j, k, c) = done row there in (j, simp success k, inl (success, c))
    ]

-- A run changes the row of its job, which keeps its tenant, and no other.
pub Touches-run_job :
    (sv : Services) (w : Worker) (f : Faults) (now : Clock) (job : Job) (world : World)
    → Touches job.id world.jobs (run_job sv w f now job world).jobs
unfolding run_job
Touches-run_job sv w f now job world =
    Touches-trans job.id (process_job-IsEnded sv w f now job world).touches
      (Touches-settle sv w f job.id _ _)

-- A run of a job changes no row of another job, whatever it meets.
run_job-others :
    (sv : Services) (w : Worker) (f : Faults) (now : Clock) (job : Job) (world : World)
    (other : Uuid)
    → other ≢ job.id
    → find other (run_job sv w f now job world).jobs ≡ find other world.jobs
run_job-others sv w f now job world other n = (Touches-run_job sv w f now job world).others other n
