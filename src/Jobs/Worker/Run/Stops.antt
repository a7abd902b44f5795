-- ===== src/Jobs/Worker/Run/Stops.antt =====
-- The shutdown of `Run` of internal/jobs/worker.go: the loop that fills the semaphore.
use docpulse.Base.{
  ℕ, suc, ◌+◌, ◌-◌, ◌≤◌, ◌≡◌, ◌≢◌, refl, sym, ap, ◌∙◌, ◌⊎◌, inl, inr, none, some, List, [], ◌∷◌,
  arith, length, Bool-cases, ltb, tests, length-append,
}
use docpulse.Domain.{Job}
use docpulse.Jobs.Worker.{Services, Worker, Faults, World}
use docpulse.Jobs.Worker.Run.{
  Phase, polling, stopping, returned, Pool, PoolStep, polls, starts, ends, cancels, takes, returns,
  PoolReach, here, next, IsSound, PoolStep-IsSound, idle,
}

-- The steps that are left: the ends of the goroutines, the places to be taken, and the return.
abbrev last_step : Phase → ℕ
last_step returned = 0
last_step _ = 1

last_step_le : (f : Phase) → last_step f ≤ 1
last_step_le polling = omega arith
last_step_le stopping = omega arith
last_step_le returned = omega arith

Phase-cases : (f : Phase) → f ≢ polling → (f ≡ stopping) ⊎ (f ≡ returned)
Phase-cases polling s = absurd (s refl)
Phase-cases stopping s = inl refl
Phase-cases returned s = inr refl

abbrev calm : Faults
calm = record {
  get_cache = none;
  set_ingesting = none;
  set_chunking = none;
  set_extracting = none;
  set_assembling = none;
  set_cache = none;
  complete_job = none;
  get_job = none;
  list_hooks = none;
  fail_job = none;
}

module _ (sv : Services) (w : Worker) (concurrency : ℕ) where
  pub data PoolSteps (p : Pool) : ℕ → Pool → Type 0 where
    no_steps : PoolSteps p 0 p
    step :
        {n : ℕ} {q r : Pool}
        → PoolSteps p n q
        → PoolStep sv w concurrency q r
        → PoolSteps p (suc n) r

  abbrev steps_left : Pool → ℕ
  steps_left p = length p.in_flight + (concurrency - p.taken) + last_step p.phase

  -- No job waits for a place once the shutdown has begun.
  record IsCalm (p : Pool) : Type 0 where
    sound : IsSound sv w concurrency p
    served : (p.phase ≡ polling) ⊎ (p.waiting ≡ none)

  PoolStep-served :
      {p q : Pool}
      → PoolStep sv w concurrency p q
      → (p.phase ≡ polling) ⊎ (p.waiting ≡ none)
      → (q.phase ≡ polling) ⊎ (q.waiting ≡ none)
  PoolStep-served (polls begin select exec commit locked f n) s = inl f
  PoolStep-served (starts j a room) s = inr refl
  PoolStep-served (ends f now before j after e) s = s
  PoolStep-served (cancels f n) s = inr n
  PoolStep-served (takes f room) s = s
  PoolStep-served (returns {p} f all) s = elim s [
    | inl g ↦ absurd (let k : polling ≡ stopping = sym g ∙ f in cc)
    | inr g ↦ inr g
  ]

  PoolReach-IsCalm : {p q : Pool} → IsCalm p → PoolReach sv w concurrency p q → IsCalm q
  PoolReach-IsCalm c here = c
  PoolReach-IsCalm c (next r st) =
      let before = PoolReach-IsCalm c r in
      record {
        sound = PoolStep-IsSound sv w concurrency st before.sound;
        served = PoolStep-served st before.served;
      }

  -- Each step of the shutdown is one of those that were left.
  steps_left-PoolStep :
      {p q : Pool}
      → PoolStep sv w concurrency p q
      → IsCalm p
      → p.phase ≢ polling
      → (steps_left p ≡ suc (steps_left q)) × (q.phase ≢ polling)
  steps_left-PoolStep (polls begin select exec commit locked f n) c s = absurd (s f)
  steps_left-PoolStep (starts {p} j a room) c s =
      absurd (elim c.served [ inl f ↦ s f | inr n ↦ (let k : none ≡ some j = sym n ∙ a in cc) ])
  steps_left-PoolStep (ends {p} f now before j after e) c s =
      let here' = ap length e in
      let split = length-append before (j ∷ after) in
      let rest = length-append before after in (omega arith, s)
  steps_left-PoolStep (cancels f n) c s = absurd (s f)
  steps_left-PoolStep (takes {p} f room) c s = (omega arith, s)
  steps_left-PoolStep (returns {p} f all) c s = (omega (arith, ap last_step f), λ g. cc)

  steps_left-PoolSteps :
      {p q : Pool} {n : ℕ}
      → IsCalm p
      → p.phase ≢ polling
      → PoolSteps p n q
      → (steps_left p ≡ n + steps_left q) × IsCalm q × (q.phase ≢ polling)
  steps_left-PoolSteps c s no_steps = (omega arith, c, s)
  steps_left-PoolSteps c s (step {n} {q} {r} before st) =
      let (e, c', s') = steps_left-PoolSteps c s before in
      let (f, s'') = steps_left-PoolStep st c' s' in
      (
        omega (arith, e, f),
        record {
          sound = PoolStep-IsSound sv w concurrency st c'.sound;
          served = PoolStep-served st c'.served;
        },
        s'',
      )

  -- `Run` has returned, or some step is possible.
  abbrev pub Goes : Pool → Type 0
  Goes p = (p.phase ≡ returned) ⊎ ((q : Pool) × PoolStep sv w concurrency p q)

  Goes-of_IsCalm :
      (p : Pool) (js : List Job) → p.in_flight ≡ js → IsCalm p → p.phase ≢ polling → Goes p
  Goes-of_IsCalm p (j ∷ js) e c s =
      inr (_, ends calm (record { of_get = 0; of_set = 0; of_end = 0 }) [] j js e)
  Goes-of_IsCalm p [] e c s = elim (Phase-cases p.phase s) [
    | inr f ↦ inl f
    | inl f ↦ elim (Bool-cases (ltb p.taken concurrency)) [
      | inl room ↦ inr (_, takes f (omega (tests, ap length e)))
      | inr all ↦ inr (_, returns f (omega (tests, c.sound.bounded)))
    ]
  ]

-- Once the shutdown has begun, `Run` returns, whichever of its steps are taken: a sequence of steps
-- is no longer than the jobs in flight, the places of the semaphore that are not yet taken, and the
-- return itself, and at its end `Run` has returned or a further step is possible.
pub PoolSteps-bounded :
    (sv : Services) (w : Worker) (concurrency : ℕ) (world : World) (p q : Pool) (n : ℕ)
    → PoolReach sv w concurrency (idle world) p
    → p.phase ≢ polling
    → PoolSteps sv w concurrency p n q
    → (n ≤ length p.in_flight + (concurrency - p.taken) + 1) × Goes sv w concurrency q
PoolSteps-bounded sv w concurrency world p q n r stopped steps =
    let first : IsCalm sv w concurrency (idle world) = record {
      sound = record { bounded = omega arith; full = inl (λ e. absurd cc) };
      served = inl refl;
    } in
    let (e, c, s) =
      steps_left-PoolSteps sv w concurrency (PoolReach-IsCalm sv w concurrency first r) stopped
        steps in
    (omega (arith, e, last_step_le p.phase), Goes-of_IsCalm sv w concurrency q q.in_flight refl c s)

no_step :
    (sv : Services) (w : Worker) (p : Pool) (j : Job) {q : Pool}
    → IsCalm sv w 0 p
    → p.waiting ≡ some j
    → ¬ PoolStep sv w 0 p q
no_step sv w p j c claimed (polls begin select exec commit locked f n) =
    let k : none ≡ some j = sym n ∙ claimed in cc
no_step sv w p j c claimed (starts i a room) = omega (arith, room)
no_step sv w p j c claimed (ends f now before i after e) =
    omega (arith, c.sound.bounded, ap length e, length-append before (i ∷ after))
no_step sv w p j c claimed (cancels f n) = let k : none ≡ some j = sym n ∙ claimed in cc
no_step sv w p j c claimed (takes f room) = omega (arith, room)
no_step sv w p j c claimed (returns f all) = elim c.served [
  | inl g ↦ (let k : polling ≡ stopping = sym g ∙ f in cc)
  | inr n ↦ (let k : none ≡ some j = sym n ∙ claimed in cc)
]

-- With a concurrency of 0 a worker that has claimed a job is stuck: it neither starts the job nor
-- takes any other step, be it to shut down.
pub PoolStep-stuck :
    (sv : Services) (w : Worker) (world : World) (p : Pool) (j : Job)
    → PoolReach sv w 0 (idle world) p
    → p.waiting ≡ some j
    → ¬ ((q : Pool) × PoolStep sv w 0 p q)
PoolStep-stuck sv w world p j r claimed (q, st) =
    let first : IsCalm sv w 0 (idle world) = record {
      sound = record { bounded = omega arith; full = inl (λ e. absurd cc) };
      served = inl refl;
    } in
    no_step sv w p j (PoolReach-IsCalm sv w 0 first r) claimed st
