-- ===== src/Database/JobStore/Tests.antt =====
-- Runs over a table of two pending jobs.
use docpulse.Base.{◌≡◌, refl, Bool, false, none, some, [], ◌∷◌}
use docpulse.Base.Result.{ok, err}
use docpulse.Domain.{Uuid, Job, pending, ingesting}
use docpulse.Database.JobStore.{Jobs, claim_next, get, with_status, job_store}
use docpulse.Database.JobStore.Claims.{
  Claims, Reach, here, next, selects, commits, fresh_start, IsDistinct,
}
use docpulse.Database.JobStore.Claims.Once.{Reach-claimed}

abbrev late : Job
late = record {
  id = 1;
  tenant_id = 7;
  status = pending;
  document_url = [];
  document_format = none;
  document_size_bytes = 5;
  schema = [];
  result = none;
  confidence_scores = none;
  model_used = none;
  cost_usd = 0;
  error_message = none;
  created_at = 20;
  completed_at = none;
}

abbrev early : Job
early = record late { id = 2; created_at = 10 }

abbrev queue : Jobs
queue = late ∷ early ∷ []

abbrev unlocked : Uuid → Bool
unlocked id = false

-- The older job is claimed first, and a job whose claim is not committed stays in the queue.
claim_next-early :
    claim_next none none none none unlocked queue
    ≡ (ok (some (with_status ingesting early)), late ∷ with_status ingesting early ∷ [])
unfolding job_store
claim_next-early = refl

-- Two transactions select two jobs, and the later one commits first.
abbrev two_claims : Claims
two_claims = record {
  jobs = with_status ingesting late ∷ with_status ingesting early ∷ [];
  held = [];
  claimed = 2 ∷ 1 ∷ [];
}

two_workers : Reach (fresh_start queue) two_claims
unfolding job_store
two_workers =
    next
      (next (next (next here (selects early refl)) (selects late refl))
        (commits 1 [] (2 ∷ []) refl))
      (commits 2 [] [] refl)

Reach-claimed_example : IsDistinct (2 ∷ 1 ∷ []) × IsDistinct []
Reach-claimed_example = Reach-claimed {js = queue} {s = two_claims} two_workers

-- A job of another tenant is not found.
get_foreign : get none 8 2 queue ≡ err "no rows in result set"
unfolding job_store
get_foreign = refl
