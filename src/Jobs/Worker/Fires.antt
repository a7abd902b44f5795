-- ===== src/Jobs/Worker/Fires.antt =====
-- Which webhooks a run fires.
use mathlib.Core.List.{map}
use docpulse.Base.{◌≡◌, refl, true, some, [], ◌∷◌, All}
use docpulse.Base.Result.{Result, ok, err}
use docpulse.Domain.{Uuid, Job, Webhook}
use docpulse.Database.JobStore.{Fault, Jobs, find, get_by_id}
use docpulse.Database.JobStore.Updates.{get_by_id_found}
use docpulse.Database.WebhookStore.{Webhooks, list_active}
use docpulse.Database.WebhookStore.Deletes.{list_active-IsActive}
use docpulse.Jobs.Worker.Ends.{process_job-ends}
use docpulse.Jobs.Worker.{
  Clock, Services, Worker, Faults, World, completed_as, finish, process_job, fire_for,
  fire_webhooks, fire_each,
}

-- The delivery sends the job as the table has it, to an active webhook of its tenant.
abbrev pub IsOwnFiring : Uuid → Jobs → Webhook × Job → Type 0
IsOwnFiring id jobs (hook, job) =
    (find id jobs ≡ some job) × (hook.tenant_id ≡ job.tenant_id) × (hook.active ≡ true)

All-hooks :
    (id : Uuid) (jobs : Jobs) (job : Job) (hooks : Webhooks)
    → find id jobs ≡ some job
    → All (λ (w : Webhook). (w.tenant_id ≡ job.tenant_id) × (w.active ≡ true)) hooks
    → All (IsOwnFiring id jobs) (map (λ (h : Webhook). (h, job)) hooks)
All-hooks id jobs job [] e _ = tt
All-hooks id jobs job (h ∷ hs) e ((t, a), rest) = ((e, t, a), All-hooks id jobs job hs e rest)

module _ (sv : Services) (w : Worker) where
  fire_each-IsOwn :
      (id : Uuid) (jobs : Jobs) (job : Job) (hooks : Result Webhooks)
      → find id jobs ≡ some job
      → ((active : Webhooks)
          → hooks ≡ ok active
          → All (λ (w : Webhook). (w.tenant_id ≡ job.tenant_id) × (w.active ≡ true)) active)
      → All (IsOwnFiring id jobs) (fire_each sv w job hooks)
  unfolding fire_each
  fire_each-IsOwn id jobs job (err e) h own = tt
  fire_each-IsOwn id jobs job (ok active) h own = All-hooks id jobs job active h (own active refl)

  fire_webhooks-IsOwn :
      (fault : Fault) (id : Uuid) (jobs : Jobs) (job : Job) (hooks : Webhooks)
      → find id jobs ≡ some job
      → All (IsOwnFiring id jobs) (fire_webhooks sv w fault job hooks)
  unfolding fire_webhooks
  fire_webhooks-IsOwn fault id jobs job hooks h =
      fire_each-IsOwn id jobs job (list_active fault job.tenant_id hooks) h
        (list_active-IsActive fault job.tenant_id hooks)

  fire_for-IsOwn :
      (fault : Fault) (id : Uuid) (jobs : Jobs) (row : Result Job) (hooks : Webhooks)
      → ((job : Job) → row ≡ ok job → find id jobs ≡ some job)
      → All (IsOwnFiring id jobs) (fire_for sv w fault row hooks)
  unfolding fire_for
  fire_for-IsOwn fault id jobs (err e) hooks h = tt
  fire_for-IsOwn fault id jobs (ok job) hooks h =
      fire_webhooks-IsOwn fault id jobs job hooks (h job refl)

  completed_as-fires :
      (f : Faults) (id : Uuid) (world : World) (update : Result (Unit {0}) × Jobs)
      → All
          (IsOwnFiring id (completed_as sv w f id world update).world.jobs)
          (completed_as sv w f id world update).fired
  unfolding completed_as
  completed_as-fires f id world (err e, jobs) = tt
  completed_as-fires f id world (ok tt, jobs) =
      fire_for-IsOwn f.list_hooks id jobs (get_by_id f.get_job id jobs) world.webhooks
        (λ job h. get_by_id_found f.get_job id jobs job h)

-- Every delivery that a run of a job starts carries the job as the table has it at the end of the
-- run, and goes to an active webhook of the tenant that owns the job.
pub process_job-fires :
    (sv : Services) (w : Worker) (f : Faults) (now : Clock) (job : Job) (world : World)
    → All
        (IsOwnFiring job.id (process_job sv w f now job world).world.jobs)
        (process_job sv w f now job world).fired
unfolding finish
process_job-fires sv w f now job world =
    process_job-ends sv w f now job world (λ out. All (IsOwnFiring job.id out.world.jobs) out.fired)
      (λ e v l. tt)
      (λ content result confidence model cost v l read kept. completed_as-fires sv w f job.id v _)
