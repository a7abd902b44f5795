-- ===== src/Database/JobStore.antt =====
-- internal/database/job_store.go over the table `jobs` of migrations/001_initial_schema.sql. The rows
-- are a list in the order of insertion. The first argument of an operation is the error that the
-- driver returns for its statement, if any; such a statement changes nothing.
pub mod Rows
pub mod Claims
pub mod Keys
pub mod Owners
pub mod Pages
pub mod Queries
pub mod Scan
pub mod Updates
mod Tests
use Prim.Native.String
use docpulse.Base.{
  ℕ, zero, suc, ◌+◌, ◌-◌, Bool, true, false, ◌&&◌, not, Option, none, some, List, [], ◌∷◌, ◌++◌,
  String, ltb, leb, ◌==◌, if◌then◌else◌, length, take, drop,
}
use docpulse.Base.Dict.{Dict}
use docpulse.Base.Result.{Result, ok, err, wrap}
use docpulse.Text.Utf8.{Bytes}
use docpulse.Domain.{
  Uuid, Time, Job, JobStatus, pending, ingesting, chunking, extracting, assembling, completed,
  failed, ModelTier,
}

abbrev pub Jobs : Type 0
Jobs = List Job

abbrev pub Fault : Type 0
Fault = Option String

-- The row with the id; ids are a primary key.
unfoldable pub find : Uuid → Jobs → Option Job
find id [] = none
find id (j ∷ js) = if j.id == id then some j else find id js

-- `UPDATE jobs SET … WHERE id = id`
pub update : Uuid → (Job → Job) → Jobs → Jobs
update id f [] = []
update id f (j ∷ js) = (if j.id == id then f j else j) ∷ update id f js

-- The column `schema` is JSONB: `jsonb` is the text that PostgreSQL gives back for the text of a JSON
-- value, with its own white space and order of keys.
abbrev pub as_jsonb : (Bytes → Bytes) → Job → Job
as_jsonb jsonb j = record j { schema = jsonb j.schema }

-- The columns that the insertion leaves out get their defaults. The columns that it fills are read
-- back as the job has them: the caller has put the schema through `as_jsonb`.
abbrev pub inserted : Job → Job
inserted j = record j {
  result = none;
  confidence_scores = none;
  model_used = none;
  cost_usd = 0;
  error_message = none;
  completed_at = none;
}

insert_row : Job → Jobs → Option Job → Result (Unit {0}) × Jobs
insert_row job jobs (some j) =
    (err "creating job: duplicate key value violates unique constraint", jobs)
insert_row job jobs none = (ok tt, jobs ++ inserted job ∷ [])

pub create : Fault → Job → Jobs → Result (Unit {0}) × Jobs
create (some e) job jobs = (wrap "creating job" (err e), jobs)
create none job jobs = insert_row job jobs (find job.id jobs)

abbrev or_no_rows {ℓ} : {A : Type ℓ} → Option A → Result A
or_no_rows none = err "no rows in result set"
or_no_rows (some a) = ok a

-- `WHERE id = $1 AND tenant_id = $2`
pub find_of : Uuid → Uuid → Jobs → Option Job
find_of tenant id [] = none
find_of tenant id (j ∷ js) =
    if (j.id == id) && (j.tenant_id == tenant) then some j else find_of tenant id js

pub get : Fault → Uuid → Uuid → Jobs → Result Job
get (some e) tenant id jobs = err e
get none tenant id jobs = or_no_rows (find_of tenant id jobs)

pub get_by_id : Fault → Uuid → Jobs → Result Job
get_by_id (some e) id jobs = wrap "getting job" (err e)
get_by_id none id jobs = wrap "getting job" (or_no_rows (find id jobs))

-- `WHERE tenant_id = $1`
pub owned_by : Uuid → Jobs → Jobs
owned_by tenant [] = []
owned_by tenant (j ∷ js) =
    if j.tenant_id == tenant then j ∷ owned_by tenant js else owned_by tenant js

pub count : Fault → Uuid → Jobs → Result ℕ
count (some e) tenant jobs = wrap "counting jobs" (err e)
count none tenant jobs = ok (length (owned_by tenant jobs))

-- `ORDER BY created_at DESC`; rows of one time keep their order here, and have any order in SQL.
place_newest : Job → Jobs → Jobs
place_newest j [] = j ∷ []
place_newest j (k ∷ ks) =
    if ltb k.created_at j.created_at then j ∷ k ∷ ks else k ∷ place_newest j ks

pub newest_first : Jobs → Jobs
newest_first [] = []
newest_first (j ∷ js) = place_newest j (newest_first js)

pub list : Fault → Uuid → ℕ → ℕ → Jobs → Result Jobs
list (some e) tenant limit offset jobs = wrap "listing jobs" (err e)
list none tenant limit offset jobs =
    ok (take limit (drop offset (newest_first (owned_by tenant jobs))))

abbrev pub is_pending : JobStatus → Bool
is_pending pending = true
is_pending _ = false

abbrev older : Job → Option Job → Job
older j none = j
older j (some k) = if leb j.created_at k.created_at then j else k

-- `WHERE status = 'pending' ORDER BY created_at ASC LIMIT 1 FOR UPDATE SKIP LOCKED`; `locked` are
-- the rows that other transactions have locked. Of the rows of one time, the one that was inserted
-- first is taken here; SQL leaves it open which. The runs of Jobs/Worker/Threads may find any rows
-- locked, and so make every choice.
pub oldest_pending : (Uuid → Bool) → Jobs → Option Job
oldest_pending locked [] = none
oldest_pending locked (j ∷ js) =
    let rest = oldest_pending locked js in
    if is_pending j.status && not (locked j.id) then some (older j rest) else rest

abbrev pub with_status : JobStatus → Job → Job
with_status s j = record j { status = s }

-- The faults of `Begin`, of the two statements and of `Commit`. A fault of the selection is read as
-- "no rows", as in the source; the transaction that does not commit is rolled back.
claim_row : Fault → Fault → Jobs → Option Job → Result (Option Job) × Jobs
claim_row exec commit jobs none = (ok none, jobs)
claim_row (some e) commit jobs (some j) = (wrap "claiming job" (err e), jobs)
claim_row none (some e) jobs (some j) = (wrap "committing claim" (err e), jobs)
claim_row none none jobs (some j) =
    (ok (some (with_status ingesting j)), update j.id (with_status ingesting) jobs)

select_row : Fault → (Uuid → Bool) → Jobs → Option Job
select_row (some e) locked jobs = none
select_row none locked jobs = oldest_pending locked jobs

pub claim_next :
    (begin select exec commit : Fault) → (Uuid → Bool) → Jobs → Result (Option Job) × Jobs
claim_next (some e) select exec commit locked jobs = (wrap "beginning transaction" (err e), jobs)
claim_next none select exec commit locked jobs =
    claim_row exec commit jobs (select_row select locked jobs)

-- The errors of these two are dropped.
pub update_status : Fault → Uuid → JobStatus → Jobs → Jobs
update_status (some e) id status jobs = jobs
update_status none id status jobs = update id (with_status status) jobs

abbrev pub as_failed : String → Job → Job
as_failed msg j = record j { status = failed; error_message = some msg }

pub fail : Fault → Uuid → String → Jobs → Jobs
fail (some e) id msg jobs = jobs
fail none id msg jobs = update id (as_failed msg) jobs

abbrev pub as_completed : Bytes → Dict ℕ → ModelTier → ℕ → Time → Job → Job
as_completed result confidence model cost now j = record j {
  status = completed;
  result = some result;
  confidence_scores = some confidence;
  model_used = some model;
  cost_usd = cost;
  completed_at = some now;
}

-- The confidences, finite numbers by string keys, are always marshalled. The column `result`
-- is JSONB, too: the caller passes the text that PostgreSQL gives back for it.
pub complete :
    Fault → Uuid → Bytes → Dict ℕ → ModelTier → ℕ → Time → Jobs → Result (Unit {0}) × Jobs
complete (some e) id result confidence model cost now jobs = (wrap "completing job" (err e), jobs)
complete none id result confidence model cost now jobs =
    (ok tt, update id (as_completed result confidence model cost now) jobs)

-- Opens the module, for tests.
unfoldable pub job_store : Unit {0}
unfolding find update insert_row create find_of get get_by_id owned_by count place_newest
    newest_first list oldest_pending claim_row select_row claim_next update_status fail complete
job_store = tt
