-- ===== src/Jobs/Worker/Run.antt =====
-- The loop of `Run` of internal/jobs/worker.go with its goroutines, as a step relation. A goroutine
-- is one step: the job has run when it ends. Sleeping between two polls changes nothing.
pub mod Stops
use docpulse.Base.{
  ℕ, ◌+◌, ◌≤◌, ◌<◌, ◌≡◌, ◌≢◌, refl, sym, ap, ◌∙◌, ◌⊎◌, inl, inr, Bool, Option, none, some, List, [],
  ◌∷◌, ◌++◌, arith, length, length-append,
}
use docpulse.Base.Result.{Result, ok, err}
use docpulse.Domain.{Uuid, Job}
use docpulse.Database.JobStore.{Fault, Jobs, claim_next}
use docpulse.Jobs.Worker.{Clock, Services, Worker, Faults, World, run_job}

pub data Phase : Type 0 where
  polling stopping returned : Phase

-- The jobs whose goroutines run, the job that waits for a place, and the places of the semaphore
-- that the shutdown has taken.
pub record Pool : Type 0 where
  pub world : World
  pub in_flight : List Job
  pub waiting : Option Job
  pub taken : ℕ
  pub phase : Phase

abbrev pub claimed_job : Result (Option Job) → Option Job
claimed_job (err e) = none
claimed_job (ok job) = job

abbrev pub polled : Pool → Result (Option Job) × Jobs → Pool
polled p (job, jobs) = record p {
  world = record p.world { jobs = jobs };
  waiting = claimed_job job;
}

module _ (sv : Services) (w : Worker) (concurrency : ℕ) where
  pub data PoolStep : Pool → Pool → Type 0 where
    -- `ClaimNext`, by which other workers' rows may be locked.
    polls :
        {p : Pool} (begin select exec commit : Fault) (locked : Uuid → Bool)
        → p.phase ≡ polling
        → p.waiting ≡ none
        → PoolStep p (polled p (claim_next begin select exec commit locked p.world.jobs))
    -- `sem <- struct{}{}` and `go`
    starts :
        {p : Pool} (j : Job)
        → p.waiting ≡ some j
        → length p.in_flight + p.taken < concurrency
        → PoolStep p (record p { waiting = none; in_flight = j ∷ p.in_flight })
    -- The end of a goroutine, with `<-sem`.
    ends :
        {p : Pool} (f : Faults) (now : Clock) (before : List Job) (j : Job) (after : List Job)
        → p.in_flight ≡ before ++ j ∷ after
        → PoolStep p
            (record p { world = run_job sv w f now j p.world; in_flight = before ++ after })
    -- `ctx.Done()`, which is looked at before a poll.
    cancels :
        {p : Pool}
        → p.phase ≡ polling
        → p.waiting ≡ none
        → PoolStep p (record p { phase = stopping })
    -- One round of the loop that fills the semaphore.
    takes :
        {p : Pool}
        → p.phase ≡ stopping
        → length p.in_flight + p.taken < concurrency
        → PoolStep p (record p { taken = p.taken + 1 })
    returns :
        {p : Pool}
        → p.phase ≡ stopping
        → p.taken ≡ concurrency
        → PoolStep p (record p { phase = returned })

  pub data PoolReach (p : Pool) : Pool → Type 0 where
    here : PoolReach p p
    next : {q r : Pool} → PoolReach p q → PoolStep q r → PoolReach p r

  -- Once `Run` has returned, the shutdown has taken the whole semaphore.
  pub record IsSound (p : Pool) : Type 0 where
    pub bounded : length p.in_flight + p.taken ≤ concurrency
    pub full : (p.phase ≢ returned) ⊎ (p.taken ≡ concurrency)

  pub PoolStep-IsSound : {p q : Pool} → PoolStep p q → IsSound p → IsSound q
  PoolStep-IsSound (polls begin select exec commit locked f n) s = record {
    bounded = s.bounded;
    full = s.full;
  }
  PoolStep-IsSound (starts j a room) s = record { bounded = omega arith; full = s.full }
  PoolStep-IsSound (ends {p} f now before j after e) s =
      let here' = ap length e in
      let split = length-append before (j ∷ after) in
      let rest = length-append before after in record { bounded = omega arith; full = s.full }
  PoolStep-IsSound (cancels f n) s = record { bounded = s.bounded; full = inl (λ e. cc) }
  PoolStep-IsSound (takes {p} f room) s = record {
    bounded = omega arith;
    full = inl (λ e. absurd (let g : stopping ≡ returned = sym f ∙ e in cc));
  }
  PoolStep-IsSound (returns f all) s = record { bounded = s.bounded; full = inr all }

  PoolReach-IsSound : {p q : Pool} → IsSound p → PoolReach p q → IsSound q
  PoolReach-IsSound s here = s
  PoolReach-IsSound s (next r st) = PoolStep-IsSound st (PoolReach-IsSound s r)

-- `Run` before its first poll.
abbrev pub idle : World → Pool
idle world = record { world = world; in_flight = []; waiting = none; taken = 0; phase = polling }

empty_of_length : (js : List Job) → length js ≡ 0 → js ≡ []
empty_of_length [] e = refl
empty_of_length (j ∷ js) e = absurd (omega (arith, e))

-- In every state that a worker reaches, at most as many jobs are in flight as its configuration
-- allows, and `Run` has not returned unless no job is in flight any more.
pub PoolReach-bounded :
    (sv : Services) (w : Worker) (concurrency : ℕ) (world : World) (p : Pool)
    → PoolReach sv w concurrency (idle world) p
    → (length p.in_flight ≤ concurrency) × ((p.phase ≢ returned) ⊎ (p.in_flight ≡ []))
PoolReach-bounded sv w concurrency world p r =
    let start : IsSound sv w concurrency (idle world) = record {
      bounded = omega arith;
      full = inl (λ e. absurd cc);
    } in
    let s = PoolReach-IsSound sv w concurrency start r in
    (
      omega arith,
      elim s.full [
        | inl running ↦ inl running
        | inr full ↦ inr (empty_of_length p.in_flight (omega arith))
      ],
    )
