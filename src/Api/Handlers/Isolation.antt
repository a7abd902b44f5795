-- ===== src/Api/Handlers/Isolation.antt =====
-- What a tenant can read.
use docpulse.Base.{ℕ, ◌≤◌, ◌≡◌, refl, ap, ap₂, Option, none, some, arith}
use docpulse.Base.Int.{ℤ, pos, negsuc}
use docpulse.Base.Result.{Result, ok}
use docpulse.Text.Number.{atoi}
use docpulse.Text.Utf8.{Bytes}
use docpulse.Domain.{Uuid, Tenant}
use docpulse.Database.JobStore.{Fault, Jobs, owned_by}
use docpulse.Database.JobStore.Owners.{get-owned_by, count-owned_by, list-owned_by, count_total}
use docpulse.Database.JobStore.Pages.{IsPage, list-IsPage}
use docpulse.Api.Handlers.{
  Handlers, job_list, handle_get_job, handle_list_jobs, view_job, list_reply, limit_of, offset_of,
}

-- What a tenant reads of the table, one job or a page of jobs, depends on its own jobs alone: the
-- answers are the same on the table without the jobs of all other tenants. So a job of another
-- tenant is answered like a job that does not exist.
pub handle_get_job-owned_by :
    (h : Handlers) (fault count_fault list_fault : Fault) (tenant : Tenant) (id : Option Uuid)
    (limit offset : Bytes) (jobs : Jobs)
    → (handle_get_job h fault tenant id (owned_by tenant.id jobs)
        ≡ handle_get_job h fault tenant id jobs)
      × (handle_list_jobs count_fault list_fault tenant limit offset (owned_by tenant.id jobs)
          ≡ handle_list_jobs count_fault list_fault tenant limit offset jobs)
unfolding handle_get_job handle_list_jobs
handle_get_job-owned_by h fault count_fault list_fault tenant id limit offset jobs =
    (get_same id, list_same)
  where
    get_same :
        (i : Option Uuid)
        → handle_get_job h fault tenant i (owned_by tenant.id jobs)
          ≡ handle_get_job h fault tenant i jobs
    get_same none = refl
    get_same (some i) = ap (view_job h i) (get-owned_by fault tenant.id i jobs)

    list_same :
        handle_list_jobs count_fault list_fault tenant limit offset (owned_by tenant.id jobs)
        ≡ handle_list_jobs count_fault list_fault tenant limit offset jobs
    list_same =
        ap₂ (list_reply (limit_of (atoi limit)) (offset_of (atoi offset)))
          (count-owned_by count_fault tenant.id jobs)
          (list-owned_by list_fault tenant.id (limit_of (atoi limit)) (offset_of (atoi offset))
            jobs)

-- The limit of a list is between 1 and 100, whatever the query says.
limit_of-bounds : (z : Option ℤ) → (1 ≤ limit_of z) × (limit_of z ≤ 100)
unfolding limit_of
limit_of-bounds none = (omega arith, omega arith)
limit_of-bounds (some (negsuc n)) = (omega arith, omega arith)
limit_of-bounds (some (pos n)) = ground arith

list_reply_inversion :
    (limit offset limit' offset' total : ℕ) (count : Result ℕ) (page : Result Jobs) (js : Jobs)
    → list_reply limit offset count page ≡ job_list js total limit' offset'
    → (count ≡ ok total) × (page ≡ ok js) × (limit ≡ limit') × (offset ≡ offset')
unfolding list_reply
list_reply_inversion limit offset limit' offset' total count page js e = ground arith

-- A list that is answered has a limit between 1 and 100, whatever the query says, and the jobs are
-- the page that starts at the offset: if all rows of the tenant in the table, and no others, are
-- put in order, the newest first, then the jobs are those behind the first `offset` of them, as many
-- as there are and the limit allows. The total is the number of all these rows.
pub handle_list_jobs-IsPage :
    (count_fault list_fault : Fault) (tenant : Tenant) (limit offset : Bytes) (jobs page : Jobs)
    (total n o : ℕ)
    → handle_list_jobs count_fault list_fault tenant limit offset jobs ≡ job_list page total n o
    → (1 ≤ n) × (n ≤ 100) × IsPage tenant.id jobs total n o page
unfolding handle_list_jobs
handle_list_jobs-IsPage count_fault list_fault tenant limit offset jobs page total n o e =
    let (c, l, a, b) = list_reply_inversion _ _ n o total _ _ page e in
    let (low, high) = limit_of-bounds (atoi limit) in
    (
      omega arith,
      omega arith,
      list-IsPage list_fault tenant.id n o total jobs page
          (count_total count_fault tenant.id jobs total c) (rw (a, b) at l),
    )
