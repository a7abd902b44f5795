-- ===== src/Jobs/Worker/Script/Rows.antt =====
-- What a statement of a run does to the row of its job, and to the other rows.
use docpulse.Base.{
  ◌≡◌, ◌≢◌, refl, sym, ap, ◌∙◌, ◌⊎◌, inl, inr, true, false, Option, none, some, List, [], ◌∷◌,
  arith, All,
}
use docpulse.Domain.{Uuid, Job, JobStatus}
use docpulse.Database.JobStore.{Jobs, find, update, is_pending, with_status, job_store}
use docpulse.Database.JobStore.Updates.{find-update_same, find-update_other}
use docpulse.Database.JobStore.Keys.{IsKeyed, IsKeyed-update}
use docpulse.Database.JobStore.Claims.Taken.{
  IsTaken, IsTaking, with_status-IsTaking, as_failed-IsTaking, as_completed-IsTaking,
  all-IsTaken-update,
}
use docpulse.Jobs.Worker.{Faults}
use docpulse.Jobs.Worker.Script.{Write, sets, completes, fails, apply, replay}
use docpulse.Jobs.Worker.Script.Sent.{is_open, IsSent}

not_pending : (st : JobStatus) → is_open st ≡ true → is_pending st ≡ false
not_pending st h = ground arith

-- The statement changes nothing, or updates the row with its id.
abbrev IsUpdate : Uuid → Write → Type 0
IsUpdate id q =
    ((js : Jobs) → apply id q js ≡ js)
    ⊎ ((f : Job → Job) × IsTaking f × ((js : Jobs) → apply id q js ≡ update id f js))

apply-IsUpdate : (faults : Faults) (id : Uuid) (q : Write) → IsSent faults q → IsUpdate id q
unfolding job_store apply
apply-IsUpdate f id (sets (some e) st) h = inl (λ js. refl)
apply-IsUpdate f id (sets none st) h =
    inr (with_status st, with_status-IsTaking st (not_pending st h), λ js. refl)
apply-IsUpdate f id (completes (some e) result confidence model cost now) h = inl (λ js. refl)
apply-IsUpdate f id (completes none result confidence model cost now) h =
    inr (_, as_completed-IsTaking result confidence model cost now, λ js. refl)
apply-IsUpdate f id (fails (some e) msg) h = inl (λ js. refl)
apply-IsUpdate f id (fails none msg) h = inr (_, as_failed-IsTaking msg, λ js. refl)

pub apply-IsTaken :
    (f : Faults) (id : Uuid) (q : Write)
    → IsSent f q
    → (k : Uuid) (js : Jobs) → IsTaken js k
    → IsTaken (apply id q js) k
apply-IsTaken f id q sent k js t = elim (apply-IsUpdate f id q sent) [
  | inl same ↦ rw (same js) t
  | inr (g, taking, e) ↦ rw (e js) (all-IsTaken-update g taking id js (k ∷ []) (t, tt)).0
]

pub find-apply_other :
    (f : Faults) (id : Uuid) (q : Write)
    → IsSent f q
    → (k : Uuid) (js : Jobs) → k ≢ id
    → find k (apply id q js) ≡ find k js
find-apply_other f id q sent k js n = elim (apply-IsUpdate f id q sent) [
  | inl same ↦ ap (find k) (same js)
  | inr (g, taking, e) ↦ ap (find k) (e js) ∙ find-update_other id k g js taking.same_id n
]

-- The row behind an update depends on the row alone.
find-update_row :
    (g : Job → Job)
    → IsTaking g
    → (id : Uuid) (js ks : Jobs) (j : Job) → find id js ≡ some j
    → find id ks ≡ some j
    → find id (update id g js) ≡ find id (update id g ks)
find-update_row g t id js ks j a b =
    find-update_same id g js j t.same_id a ∙ sym (find-update_same id g ks j t.same_id b)

find-apply_row :
    (f : Faults) (id : Uuid) (q : Write)
    → IsSent f q
    → (js ks : Jobs) (j : Job) → find id js ≡ some j
    → find id ks ≡ some j
    → find id (apply id q js) ≡ find id (apply id q ks)
find-apply_row f id q sent js ks j a b = elim (apply-IsUpdate f id q sent) [
  | inl same ↦ ap (find id) (same js) ∙ a ∙ sym b ∙ sym (ap (find id) (same ks))
  | inr (g, taking, e) ↦
      ap (find id) (e js) ∙ find-update_row g taking id js ks j a b ∙ sym (ap (find id) (e ks))
]

found_or_absurd : (o : Option Job) → o ≢ none → (j : Job) × (o ≡ some j)
found_or_absurd none n = absurd (n refl)
found_or_absurd (some j) n = (j, refl)

pub row_of : (id : Uuid) (js : Jobs) → find id js ≢ none → (j : Job) × (find id js ≡ some j)
row_of id js = found_or_absurd (find id js)

-- So does the row behind a sequence of statements.
pub find-replay_row :
    (f : Faults) (id : Uuid) (qs : List Write)
    → All (IsSent f) qs
    → (js ks : Jobs) → IsTaken js id
    → IsTaken ks id
    → find id js ≡ find id ks
    → find id (replay id qs js) ≡ find id (replay id qs ks)
unfolding replay
find-replay_row f id [] sent js ks t u e = e
find-replay_row f id (q ∷ qs) (now, later) js ks t u e =
    let (j, a) = row_of id js t.0 in
    find-replay_row f id qs later (apply id q js) (apply id q ks) (apply-IsTaken f id q now id js t)
      (apply-IsTaken f id q now id ks u) (find-apply_row f id q now js ks j a (sym e ∙ a))

-- The row of the job is in one of the statuses of a run.
abbrev pub IsOpen : Uuid → Jobs → Type 0
IsOpen id js = (j : Job) × (find id js ≡ some j) × (is_open j.status ≡ true)

-- The statements of a run of which neither `Complete` nor `Fail` succeeds leave the row so.
pub apply-IsOpen :
    (f : Faults) (id : Uuid) (q : Write)
    → f.complete_job ≢ none
    → f.fail_job ≢ none
    → IsSent f q
    → (js : Jobs) → IsOpen id js
    → IsOpen id (apply id q js)
unfolding job_store apply
apply-IsOpen f id (sets (some e) st) c d sent js o = o
apply-IsOpen f id (sets none st) c d sent js (j, there, o) =
    (with_status st j, find-update_same id (with_status st) js j (λ k. refl) there, sent)
apply-IsOpen f id (completes (some e) result confidence model cost now) c d sent js o = o
apply-IsOpen f id (completes none result confidence model cost now) c d sent js o =
    absurd (c (sym sent))
apply-IsOpen f id (fails (some e) msg) c d sent js o = o
apply-IsOpen f id (fails none msg) c d sent js o = absurd (d (sym sent))

pub apply-IsKeyed :
    (f : Faults) (id : Uuid) (q : Write)
    → IsSent f q
    → (js : Jobs) → IsKeyed js
    → IsKeyed (apply id q js)
apply-IsKeyed f id q sent js u = elim (apply-IsUpdate f id q sent) [
  | inl same ↦ rw (same js) u
  | inr (g, taking, e) ↦ rw (e js) (IsKeyed-update id g js taking.same_id u)
]
