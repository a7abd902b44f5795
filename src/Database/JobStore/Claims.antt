-- ===== src/Database/JobStore/Claims.antt =====
-- Concurrent workers over the table `jobs`: `ClaimNext` of internal/database/job_store.go as a
-- selection that locks a row and a commit that releases it, in any interleaving with the other
-- statements of the program.
pub mod Taken
pub mod Once
use docpulse.Base.{
  All-map, All_remove, All_item, ℕ, ◌≡◌, ◌≢◌, refl, sym, subst, Bool, true, false, ◌||◌, inl, inr,
  Option, none, some, List, [], ◌∷◌, ◌++◌, arith, ◌==◌, All, All-append, String,
}
use docpulse.Base.Dict.{Dict}
use docpulse.Text.Utf8.{Bytes}
use docpulse.Domain.{Uuid, Time, Job, JobStatus, ingesting, ModelTier}
use docpulse.Database.JobStore.{
  Jobs, find, update, is_pending, oldest_pending, with_status, create, update_status, fail,
  complete, as_failed, as_completed, insert_row,
}
use docpulse.Database.JobStore.Rows.{IsRow, IsSelected, oldest_pending-IsSelected}

pub record Claims : Type 0 where
  pub jobs : Jobs
  pub held : List Uuid
  pub claimed : List Uuid

abbrev pub elem : Uuid → List Uuid → Bool
elem id [] = false
elem id (x ∷ xs) = x == id || elem id xs

abbrev pub Absent : Uuid → List Uuid → Type 0
Absent id = All (λ x. x ≢ id)

abbrev pub IsDistinct : List Uuid → Type 0
IsDistinct [] = Unit
IsDistinct (x ∷ xs) = Absent x xs × IsDistinct xs

-- `held` are the rows that open transactions have locked, and `claimed` the jobs that `ClaimNext` has
-- returned, the latest first. A row's status is written without a lock where the program does so.
pub data Step : Claims → Claims → Type 0 where
  selects :
      {s : Claims} (j : Job)
      → oldest_pending (λ id. elem id s.held) s.jobs ≡ some j
      → Step s (record s { held = j.id ∷ s.held })
  commits :
      {s : Claims} (id : Uuid) (before after : List Uuid)
      → s.held ≡ before ++ id ∷ after
      → Step s (record s {
        jobs = update id (with_status ingesting) s.jobs;
        held = before ++ after;
        claimed = id ∷ s.claimed;
      })
  rolls_back :
      {s : Claims} (id : Uuid) (before after : List Uuid)
      → s.held ≡ before ++ id ∷ after
      → Step s (record s { held = before ++ after })
  creates : {s : Claims} (job : Job) → Step s (record s { jobs = (create none job s.jobs).1 })
  writes :
      {s : Claims} (id : Uuid) (status : JobStatus)
      → is_pending status ≡ false
      → Step s (record s { jobs = update_status none id status s.jobs })
  fails :
      {s : Claims} (id : Uuid) (msg : String) → Step s (record s { jobs = fail none id msg s.jobs })
  completes :
      {s : Claims} (id : Uuid) (result : Bytes) (conf : Dict ℕ) (model : ModelTier) (cost : ℕ)
      (now : Time)
      → Step s (record s { jobs = (complete none id result conf model cost now s.jobs).1 })

pub data Reach (s : Claims) : Claims → Type 0 where
  here : Reach s s
  next : {t u : Claims} → Reach s t → Step t u → Reach s u

-- Nothing is locked or claimed yet.
abbrev pub fresh_start : Jobs → Claims
fresh_start js = record { jobs = js; held = []; claimed = [] }
