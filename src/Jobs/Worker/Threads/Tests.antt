-- ===== src/Jobs/Worker/Threads/Tests.antt =====
-- Two runs that interleave.
use docpulse.Base.{◌≡◌, refl, false, some, [], ◌∷◌}
use docpulse.Domain.{Job}
use docpulse.Database.JobStore.{Jobs, find, with_status, job_store}
use docpulse.Domain.{ingesting}
use docpulse.Jobs.Worker.{Faults, run_job, process_job}
use docpulse.Jobs.Worker.Tests.{clock_at, services, worker, no_faults, queued}
use docpulse.Jobs.Worker.Settles.{IsSettled}
use docpulse.Jobs.Worker.Script.{replay}
use docpulse.Jobs.Worker.Script.Rows.{IsOpen}
use docpulse.Jobs.Worker.Threads.{Thread, Threads, started, claims, Turns, idle, next_turn, stays}
use docpulse.Jobs.Worker.Script.Course.{IsMove}
use docpulse.Jobs.Worker.Threads.Forward.{Turns-Moves, Later-Turns}
use docpulse.Jobs.Worker.Threads.Drain.{Later-drain}
use docpulse.Jobs.Worker.Threads.Alone.{alone_in, Turns-alone, Turns-IsSettled, Turns-lost}

abbrev second : Job
second = record queued { id = 2; tenant_id = 8; created_at = 1 }

abbrev table : Jobs
table = queued ∷ second ∷ []

abbrev after_one : Jobs
after_one = with_status ingesting queued ∷ second ∷ []

abbrev after_two : Jobs
after_two = with_status ingesting queued ∷ with_status ingesting second ∷ []

abbrev cut_off : Faults
cut_off = record no_faults {
  complete_job = some "context canceled";
  fail_job = some "context canceled";
}

-- The first run is cut off by the shutdown, the second is not.
abbrev one : Thread
one = started services worker (with_status ingesting queued) cut_off (clock_at 5) [] after_one

abbrev two : Thread
two = started services worker (with_status ingesting second) no_faults (clock_at 6) [] after_two

both : Turns services worker table (record { jobs = after_two; running = two ∷ one ∷ [] })
unfolding job_store
both =
    next_turn
      (next_turn idle (
        claims (λ id. false) (with_status ingesting queued) after_one cut_off (clock_at 5) [] refl))
      (claims (λ id. false) (with_status ingesting second) after_two no_faults (clock_at 6) [] refl)

-- The second run has ended, and the first has not begun.
abbrev ended : Threads
ended = record { jobs = replay 2 two.left after_two; running = record two { left = [] } ∷ one ∷ [] }

one_ended : Turns services worker table ended
one_ended =
    Later-Turns services worker both
      (Later-drain services worker two two.left after_two (one ∷ []) stays)

Turns-alone_example :
    find 2 ended.jobs
    ≡ find 2
        (run_job services worker no_faults
          (clock_at 6)
          (with_status ingesting second)
          (alone_in two [])).jobs
Turns-alone_example =
    Turns-alone services worker table ended [] [] (record two { left = [] }) (one ∷ []) one_ended
      refl refl

Turns-IsSettled_example :
    (j : Job) × (find 2 ended.jobs ≡ some j)
    × IsSettled j (
        process_job services worker no_faults
          (clock_at 6)
          (with_status ingesting second)
          (alone_in two []))
Turns-IsSettled_example =
    Turns-IsSettled services worker table ended [] [] (record two { left = [] }) (one ∷ [])
      one_ended refl refl refl

Turns-lost_example : IsOpen 1 ended.jobs
Turns-lost_example =
    Turns-lost services worker table ended (record two { left = [] } ∷ []) one [] one_ended refl
      ((λ e. cc), (λ e. cc))

Turns-Moves_example : (k : Job) × (find 1 after_one ≡ some k) × IsMove queued k
unfolding job_store
Turns-Moves_example =
    Turns-Moves services worker table (record { jobs = table; running = [] })
      (record { jobs = after_one; running = one ∷ [] }) 1 queued (refl, (refl, tt)) idle
      (claims (λ id. false) (with_status ingesting queued) after_one cut_off (clock_at 5) [] refl)
      refl
