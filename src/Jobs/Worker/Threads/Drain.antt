-- ===== src/Jobs/Worker/Threads/Drain.antt =====
-- A run can always go on to its end.
use docpulse.Base.{refl, List, [], ◌∷◌}
use docpulse.Database.JobStore.{Jobs}
use docpulse.Jobs.Worker.{Services, Worker}
use docpulse.Jobs.Worker.Script.{Write, apply, replay}
use docpulse.Jobs.Worker.Threads.{Thread, Threads, sends, Later, goes}

module _ (sv : Services) (w : Worker) where
  -- It sends all that is left.
  pub Later-drain :
      {s : Threads} (t : Thread) (qs : List Write) (jobs : Jobs) (after : List Thread)
      → Later sv w s (record { jobs = jobs; running = record t { left = qs } ∷ after })
      → Later sv w s
          (record { jobs = replay t.job.id qs jobs; running = record t { left = [] } ∷ after })
  unfolding replay
  Later-drain t [] jobs after l = l
  Later-drain t (q ∷ qs) jobs after l =
      Later-drain t qs (apply t.job.id q jobs) after
        (goes l (sends [] (record t { left = q ∷ qs }) after q qs refl refl))
