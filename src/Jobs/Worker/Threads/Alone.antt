-- ===== src/Jobs/Worker/Threads/Alone.antt =====
-- However the runs interleave, each leaves its job as if it ran alone.
use docpulse.Base.{◌≡◌, sym, subst, ap, ◌∙◌, none, some, List, [], ◌∷◌, ◌++◌, All, All_item}
use docpulse.Domain.{Job}
use docpulse.Database.JobStore.{Jobs, find}
use docpulse.Database.WebhookStore.{Webhooks}
use docpulse.Jobs.Worker.{Services, Worker, World, run_job, process_job}
use docpulse.Jobs.Worker.Settles.{IsSettled, run_job-IsSettled}
use docpulse.Jobs.Worker.Script.{replay}
use docpulse.Jobs.Worker.Script.Replays.{run_job-replays}
use docpulse.Jobs.Worker.Script.Rows.{IsOpen}
use docpulse.Jobs.Worker.Threads.Invariant.{IsCut, IsAlone}
use docpulse.Jobs.Worker.Threads.Sound.{Turns-IsSound}
use docpulse.Jobs.Worker.Threads.{Thread, Threads, Turns}

module _ (sv : Services) (w : Worker) where
  IsAlone-of :
      {js : Jobs} {s : Threads}
      → Turns sv w js s
      → (before : List Thread) (t : Thread) (after : List Thread) → s.running ≡ before ++ t ∷ after
      → IsAlone sv w s.jobs t
  IsAlone-of {js} {s} r before t after e =
      All_item (IsAlone sv w s.jobs) before t after
        (subst (All (IsAlone sv w s.jobs)) e (Turns-IsSound sv w r).alone)

-- The world in which a run would be alone: the table that its claim left, and the cache it finds.
abbrev pub alone_in : Thread → Webhooks → World
alone_in t hooks = record { jobs = t.table; webhooks = hooks; cache = t.cache }

-- However many runs send their statements to the table, of one worker process or of several, and
-- however these interleave with one another, with uploads and with claims: a run that has sent all
-- its statements leaves the row of its job as `run_job` does when it runs alone, in one piece, on
-- the table that the claim of the job left. No job is being run when the workers start.
pub Turns-alone :
    (sv : Services) (w : Worker) (js : Jobs) (s : Threads) (hooks : Webhooks) (before : List Thread)
    (t : Thread) (after : List Thread)
    → Turns sv w js s
    → s.running ≡ before ++ t ∷ after
    → t.left ≡ []
    → find t.job.id s.jobs
      ≡ find t.job.id (run_job sv w t.faults t.now t.job (alone_in t hooks)).jobs
unfolding replay
Turns-alone sv w js s hooks before t after r here over =
    let a = IsAlone-of sv w r before t after here in
    ap (λ qs. find t.job.id (replay t.job.id qs s.jobs)) (sym over)
    ∙ a.ahead
    ∙ ap (find t.job.id) (sym (run_job-replays sv w t.faults t.now t.job (alone_in t hooks)))

-- However many runs interleave, statement by statement, with one another, with uploads and with
-- claims: a run that has sent all its statements, and whose `Fail` meets no fault of the database,
-- has settled its job. The row is completed, with a result, where the run ends without an error;
-- otherwise it is failed, with the error of the run as its message, and no webhook is fired. No job
-- is being run when the workers start.
pub Turns-IsSettled :
    (sv : Services) (w : Worker) (js : Jobs) (s : Threads) (hooks : Webhooks) (before : List Thread)
    (t : Thread) (after : List Thread)
    → Turns sv w js s
    → s.running ≡ before ++ t ∷ after
    → t.left ≡ []
    → t.faults.fail_job ≡ none
    → (j : Job) × (find t.job.id s.jobs ≡ some j)
      × IsSettled j (process_job sv w t.faults t.now t.job (alone_in t hooks))
Turns-IsSettled sv w js s hooks before t after r here over calm =
    let a = IsAlone-of sv w r before t after here in
    let (j, found, settled) =
      run_job-IsSettled sv w t.faults t.now t.job a.row (alone_in t hooks) calm a.held in
    (j, Turns-alone sv w js s hooks before t after r here over ∙ found, settled)

-- A run of which neither `Complete` nor `Fail` succeeds, as when the shutdown has cancelled its
-- context, loses its job: in every state that is reached while the run is going on and afterwards,
-- however the runs interleave, the row is neither pending, so that no worker claims it again, nor
-- completed nor failed.
pub Turns-lost :
    (sv : Services) (w : Worker) (js : Jobs) (s : Threads) (before : List Thread) (t : Thread)
    (after : List Thread)
    → Turns sv w js s
    → s.running ≡ before ++ t ∷ after
    → IsCut t.faults
    → IsOpen t.job.id s.jobs
Turns-lost sv w js s before t after r here cut =
    (IsAlone-of sv w r before t after here).open_row cut
