-- ===== src/Jobs/Worker/Threads.antt =====
-- Any number of goroutines of `Run` of internal/jobs/worker.go, in one process or several, that write
-- to the table `jobs` statement by statement, in any order, while jobs are uploaded and claimed.
pub mod Apart
pub mod Invariant
pub mod Sound
pub mod Alone
pub mod Forward
pub mod Drain
mod Tests
use docpulse.Base.{◌≡◌, Option, none, some, List, [], ◌∷◌, ◌++◌, Bool}
use docpulse.Base.Result.{ok}
use docpulse.Cache.{Entries}
use docpulse.Domain.{Uuid, Job}
use docpulse.Database.JobStore.{Jobs, create, claim_next}
use docpulse.Jobs.Worker.{Clock, Services, Worker, Faults}
use docpulse.Jobs.Worker.Script.{Write, apply, script}

-- The run of a claimed job: the errors that it meets, its time and the cache that it finds, the table
-- that its claim has left, and the statements that it has still to send.
pub record Thread : Type 0 where
  pub job : Job
  pub faults : Faults
  pub now : Clock
  pub cache : Entries
  pub table : Jobs
  pub left : List Write

pub record Threads : Type 0 where
  pub jobs : Jobs
  pub running : List Thread

module _ (sv : Services) (w : Worker) where
  abbrev pub started : Job → Faults → Clock → Entries → Jobs → Thread
  started job f now cache table = record {
    job = job;
    faults = f;
    now = now;
    cache = cache;
    table = table;
    left = script sv w f now job cache;
  }

  pub data Turn : Threads → Threads → Type 0 where
    -- `ClaimNext` and `go`
    claims :
        {s : Threads} (locked : Uuid → Bool) (job : Job) (jobs : Jobs) (f : Faults) (now : Clock)
        (cache : Entries)
        → claim_next none none none none locked s.jobs ≡ (ok (some job), jobs)
        → Turn s (record { jobs = jobs; running = started job f now cache jobs ∷ s.running })
    -- The next statement of one of the runs.
    sends :
        {s : Threads} (before : List Thread) (t : Thread) (after : List Thread) (q : Write)
        (rest : List Write)
        → s.running ≡ before ++ t ∷ after
        → t.left ≡ q ∷ rest
        → Turn s (record {
          jobs = apply t.job.id q s.jobs;
          running = before ++ record t { left = rest } ∷ after;
        })
    -- `Create`
    uploads : {s : Threads} (job : Job) → Turn s (record s { jobs = (create none job s.jobs).1 })

  pub data Turns (js : Jobs) : Threads → Type 0 where
    idle : Turns js (record { jobs = js; running = [] })
    next_turn : {s t : Threads} → Turns js s → Turn s t → Turns js t

  -- The states that follow.
  pub data Later (s : Threads) : Threads → Type 0 where
    stays : Later s s
    goes : {t u : Threads} → Later s t → Turn t u → Later s u
