-- ===== src/Database/JobStore/Queries.antt =====
-- The single operations of internal/database/job_store.go.
use docpulse.Base.{
  ◌≡◌, refl, Bool, ◌&&◌, inl, inr, Option, none, some, [], ◌∷◌, arith, ◌==◌, Bool-cases,
  Option-cases, All, String,
}
use docpulse.Base.Result.{Result, ok, err}
use docpulse.Domain.{Uuid, Job, ingesting}
use docpulse.Database.JobStore.{
  Jobs, Fault, update, oldest_pending, with_status, claim_row, select_row, claim_next, find_of, get,
}
use docpulse.Database.JobStore.Rows.{
  IsRow, IsFree, IsSelected, oldest_pending-IsSelected, oldest_pending-none,
}
use docpulse.Database.JobStore.Claims.{Claims, selects, commits, elem, Reach, here, next}

-- What a claim without faults answers: the oldest pending row that nobody has locked, now ingesting
-- and alone changed; or nothing, where there is no such row.
pub data ClaimAnswer (locked : Uuid → Bool) (jobs : Jobs)
    : Result (Option Job) × Jobs → Type 0 where
  claims :
      {j : Job}
      → IsSelected locked j jobs
      → ClaimAnswer locked jobs
          (ok (some (with_status ingesting j)), update j.id (with_status ingesting) jobs)
  nothing : All (λ k. ¬ IsFree locked k) jobs → ClaimAnswer locked jobs (ok none, jobs)

-- `ClaimNext`, when the database does not fail, claims the oldest free row if there is one, and
-- returns no job exactly where there is none.
pub claim_next_answer :
    (locked : Uuid → Bool) (jobs : Jobs)
    → ClaimAnswer locked jobs (claim_next none none none none locked jobs)
unfolding claim_next select_row claim_row
claim_next_answer locked jobs = elim (Option-cases (oldest_pending locked jobs)) [
  | inl e ↦ rw (e, claim_next, select_row, claim_row) (nothing (oldest_pending-none locked jobs e))
  | inr (j, e) ↦
      rw (e, claim_next, select_row, claim_row) (claims (oldest_pending-IsSelected locked jobs e))
]

pub claim_next_inversion :
    (locked : Uuid → Bool) (jobs after : Jobs) (j : Job)
    → claim_next none none none none locked jobs ≡ (ok (some j), after)
    → (k : Job) × (oldest_pending locked jobs ≡ some k)
      × (with_status ingesting k ≡ j)
      × (update k.id (with_status ingesting) jobs ≡ after)
unfolding claim_next select_row claim_row
claim_next_inversion locked jobs after j e = ground arith

-- A claim that nothing interrupts is a selection and its commit, two steps of the interleaving.
claim_next-Reach :
    (s : Claims) (j : Job) (after : Jobs)
    → claim_next none none none none (λ id. elem id s.held) s.jobs ≡ (ok (some j), after)
    → Reach s (record s { jobs = after; claimed = j.id ∷ s.claimed })
claim_next-Reach s j after e =
    let (k, selected, same, written) =
      claim_next_inversion (λ id. elem id s.held) s.jobs after j e in
    rw (← written, ← same) (next (next here (selects k selected)) (commits k.id [] s.held refl))

-- A failed transaction changes no row, and returns no job.
pub claim_next_fault :
    (begin select exec commit : Fault) (locked : Uuid → Bool) (jobs : Jobs) (e : String)
    → (claim_next begin select exec commit locked jobs).0 ≡ err e
    → (claim_next begin select exec commit locked jobs).1 ≡ jobs
unfolding claim_next select_row claim_row
claim_next_fault begin select exec commit locked jobs e h = ground arith

find_of-IsRow :
    (tenant id : Uuid) (jobs : Jobs) {j : Job}
    → find_of tenant id jobs ≡ some j
    → IsRow j jobs × (j.id ≡ id) × (j.tenant_id ≡ tenant)
unfolding find_of
find_of-IsRow tenant id [] e = cc
find_of-IsRow tenant id (k ∷ ks) {j} e =
    elim (Bool-cases ((k.id == id) && (k.tenant_id == tenant))) [
      | inl here' ↦
          let same : k ≡ j = ground arith in rw (← same) (inl refl, ground arith, ground arith)
      | inr other ↦
          let (row, i, t) = find_of-IsRow tenant id ks {j = j} (ground arith) in (inr row, i, t)
    ]

-- A job that `Get` returns is a row with the id that was asked for, of the tenant that asked.
pub get-IsRow :
    (fault : Fault) (tenant id : Uuid) (jobs : Jobs) (j : Job)
    → get fault tenant id jobs ≡ ok j
    → IsRow j jobs × (j.id ≡ id) × (j.tenant_id ≡ tenant)
unfolding get
get-IsRow (some e) tenant id jobs j h = cc
get-IsRow none tenant id jobs j h = find_of-IsRow tenant id jobs {j = j} (ground arith)
