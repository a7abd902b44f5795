-- ===== src/Database/JobStore/Owners.antt =====
-- Which rows the queries of a tenant depend on.
use docpulse.Base.{ℕ, ◌≡◌, ◌≢◌, refl, none, some, [], ◌∷◌, ◌++◌, arith}
use docpulse.Base.Result.{ok}
use docpulse.Domain.{Uuid, Job}
use docpulse.Database.JobStore.{Fault, Jobs, find_of, owned_by, get, count, list}

-- The rows of the other tenants play no part in what a tenant reads.
find_of-owned_by :
    (tenant id : Uuid) (jobs : Jobs)
    → find_of tenant id (owned_by tenant jobs) ≡ find_of tenant id jobs
unfolding find_of owned_by
find_of-owned_by tenant id [] = refl
find_of-owned_by tenant id (j ∷ js) = ground (arith, find_of-owned_by tenant id js)

owned_by-owned_by :
    (tenant : Uuid) (jobs : Jobs) → owned_by tenant (owned_by tenant jobs) ≡ owned_by tenant jobs
unfolding owned_by
owned_by-owned_by tenant [] = refl
owned_by-owned_by tenant (j ∷ js) = ground (arith, owned_by-owned_by tenant js)

pub get-owned_by :
    (fault : Fault) (tenant id : Uuid) (jobs : Jobs)
    → get fault tenant id (owned_by tenant jobs) ≡ get fault tenant id jobs
unfolding get
get-owned_by (some e) tenant id jobs = refl
get-owned_by none tenant id jobs = rw (find_of-owned_by tenant id jobs) refl

pub count-owned_by :
    (fault : Fault) (tenant : Uuid) (jobs : Jobs)
    → count fault tenant (owned_by tenant jobs) ≡ count fault tenant jobs
unfolding count
count-owned_by (some e) tenant jobs = refl
count-owned_by none tenant jobs = rw (owned_by-owned_by tenant jobs) refl

pub list-owned_by :
    (fault : Fault) (tenant : Uuid) (limit offset : ℕ) (jobs : Jobs)
    → list fault tenant limit offset (owned_by tenant jobs) ≡ list fault tenant limit offset jobs
unfolding list
list-owned_by (some e) tenant limit offset jobs = refl
list-owned_by none tenant limit offset jobs = rw (owned_by-owned_by tenant jobs) refl

-- A count that is answered is the count without a fault.
pub count_total :
    (fault : Fault) (tenant : Uuid) (jobs : Jobs) (total : ℕ)
    → count fault tenant jobs ≡ ok total
    → count none tenant jobs ≡ ok total
unfolding count
count_total (some e) tenant jobs total h = cc
count_total none tenant jobs total h = h

-- A row that is added is none of another tenant's.
pub owned_by-append :
    (u : Uuid) (jobs : Jobs) (job : Job)
    → u ≢ job.tenant_id
    → owned_by u (jobs ++ job ∷ []) ≡ owned_by u jobs
unfolding owned_by
owned_by-append u [] job n = ground arith
owned_by-append u (j ∷ jobs) job n = ground (arith, owned_by-append u jobs job n)
