-- ===== src/Database/JobStore/Claims/Taken.antt =====
-- Rows that are taken: there, and not pending, whatever else is written.
use docpulse.Base.{
  All-map, All_remove, All_item, ℕ, ◌≡◌, ◌≢◌, refl, sym, subst, true, false, inl, inr, Option, none,
  some, List, [], ◌∷◌, ◌++◌, arith, All, All-append, String,
}
use docpulse.Base.Dict.{Dict}
use docpulse.Text.Utf8.{Bytes}
use docpulse.Domain.{Uuid, Time, Job, JobStatus, ingesting, ModelTier}
use docpulse.Database.JobStore.{
  Jobs, find, update, is_pending, with_status, create, as_failed, as_completed, insert_row,
}
use docpulse.Database.JobStore.Rows.{IsRow}
use docpulse.Database.JobStore.Claims.{elem, Absent, IsDistinct}

-- The job is in the table, and no row of it is pending.
abbrev pub IsTaken : Jobs → Uuid → Type 0
IsTaken js id = (find id js ≢ none) × All (λ j. j.id ≡ id → is_pending j.status ≡ false) js

-- An update that sets no status to pending and no id.
pub record IsTaking (f : Job → Job) : Type 0 where
  pub same_id : (j : Job) → (f j).id ≡ j.id
  pub busy : (j : Job) → is_pending j.status ≡ false → is_pending (f j).status ≡ false

pub find-update :
    (f : Job → Job)
    → IsTaking f
    → (id k : Uuid) (js : Jobs) → find k js ≢ none
    → find k (update id f js) ≢ none
unfolding find update
find-update f t id k [] h = h
find-update f t id k (j ∷ js) h = ground (arith, t.same_id j, find-update f t id k js)

-- The rows of a job that are not pending.
abbrev pub IsBusy : Uuid → Job → Type 0
IsBusy id j = j.id ≡ id → is_pending j.status ≡ false

update-IsBusy :
    (f : Job → Job)
    → IsTaking f
    → (id k : Uuid) (js : Jobs) → All (IsBusy k) js
    → All (IsBusy k) (update id f js)
unfolding update
update-IsBusy f t id k [] h = tt
update-IsBusy f t id k (j ∷ js) (h, hs) =
    ((λ e. ground (arith, t.same_id j, t.busy j)), update-IsBusy f t id k js hs)

IsTaken-update :
    (f : Job → Job)
    → IsTaking f
    → (id k : Uuid) (js : Jobs) → IsTaken js k
    → IsTaken (update id f js) k
IsTaken-update f t id k js (there, busy) =
    (find-update f t id k js there, update-IsBusy f t id k js busy)

pub all-IsTaken-update :
    (f : Job → Job)
    → IsTaking f
    → (id : Uuid) (js : Jobs) (ks : List Uuid) → All (IsTaken js) ks
    → All (IsTaken (update id f js)) ks
all-IsTaken-update f t id js [] h = tt
all-IsTaken-update f t id js (k ∷ ks) (h, hs) =
    (IsTaken-update f t id k js h, all-IsTaken-update f t id js ks hs)

pub with_status-IsTaking :
    (status : JobStatus) → is_pending status ≡ false → IsTaking (with_status status)
with_status-IsTaking status h = record { same_id = λ j. refl; busy = λ j _. h }

pub as_failed-IsTaking : (msg : String) → IsTaking (as_failed msg)
as_failed-IsTaking msg = record { same_id = λ j. refl; busy = λ j _. refl }

pub as_completed-IsTaking :
    (result : Bytes) (conf : Dict ℕ) (model : ModelTier) (cost : ℕ) (now : Time)
    → IsTaking (as_completed result conf model cost now)
as_completed-IsTaking result conf model cost now = record {
  same_id = λ j. refl;
  busy = λ j _. refl;
}

-- An inserted row has an id that no row has.
find-append : (id : Uuid) (js ks : Jobs) → find id js ≢ none → find id (js ++ ks) ≢ none
unfolding find
find-append id [] ks h = absurd (h refl)
find-append id (j ∷ js) ks h = ground (arith, find-append id js ks)

IsTaken-insert_row :
    (job : Job) (js : Jobs) (id : Uuid) (o : Option Job)
    → find job.id js ≡ o
    → IsTaken js id
    → IsTaken (insert_row job js o).1 id
unfolding insert_row
IsTaken-insert_row job js id (some j) e h = h
IsTaken-insert_row job js id none e (there, busy) = (
  find-append id js _ there,
  All-append (IsBusy id) js _ busy
      ((λ same. absurd (there (subst (λ i. find i js ≡ none) same e))), tt),
)

pub all-IsTaken-create :
    (job : Job) (js : Jobs) (ks : List Uuid)
    → All (IsTaken js) ks
    → All (IsTaken (create none job js).1) ks
unfolding create
all-IsTaken-create job js [] h = tt
all-IsTaken-create job js (k ∷ ks) (h, hs) =
    (IsTaken-insert_row job js k _ refl h, all-IsTaken-create job js ks hs)

-- A pending row is of no claimed job.
pub row_not_busy :
    (j : Job) (id : Uuid) (js : Jobs)
    → IsRow j js
    → is_pending j.status ≡ true
    → All (IsBusy id) js
    → j.id ≢ id
row_not_busy j id [] r p h = absurd r
row_not_busy j id (k ∷ js) (inl same) p (h, hs) = λ e. ground arith
row_not_busy j id (k ∷ js) (inr later) p (h, hs) = row_not_busy j id js later p hs

pub Absent-of_elem : (id : Uuid) (xs : List Uuid) → elem id xs ≡ false → Absent id xs
Absent-of_elem id [] e = tt
Absent-of_elem id (x ∷ xs) e = ((λ same. ground arith), Absent-of_elem id xs (ground arith))

pub update_sets-IsBusy :
    (id : Uuid) (js : Jobs) → All (IsBusy id) (update id (with_status ingesting) js)
unfolding update
update_sets-IsBusy id [] = tt
update_sets-IsBusy id (j ∷ js) = ((λ e. ground arith), update_sets-IsBusy id js)

pub IsDistinct-remove :
    (before : List Uuid) (x : Uuid) (after : List Uuid)
    → IsDistinct (before ++ x ∷ after)
    → IsDistinct (before ++ after) × Absent x (before ++ after)
IsDistinct-remove [] x after (h, hs) = (hs, All-map after (λ y ne. ne) h)
IsDistinct-remove (y ∷ before) x after (h, hs) =
    let (rest, away) = IsDistinct-remove before x after hs in
    (
      (All_remove (λ z. z ≢ y) before x after h, rest),
      ((λ e. All_item (λ z. z ≢ y) before x after h (sym e)), away),
    )

pub find-row : (j : Job) (js : Jobs) → IsRow j js → find j.id js ≢ none
unfolding find
find-row j [] r = absurd r
find-row j (k ∷ js) (inl same) = λ e. ground arith
find-row j (k ∷ js) (inr later) = ground (arith, find-row j js later)

pub all_there-update :
    (f : Job → Job)
    → IsTaking f
    → (id : Uuid) (js : Jobs) (ks : List Uuid) → All (λ k. find k js ≢ none) ks
    → All (λ k. find k (update id f js) ≢ none) ks
all_there-update f t id js ks h = All-map ks (λ k. find-update f t id k js) h

find-insert_row :
    (job : Job) (js : Jobs) (id : Uuid) (o : Option Job)
    → find id js ≢ none
    → find id (insert_row job js o).1 ≢ none
unfolding insert_row
find-insert_row job js id (some j) h = h
find-insert_row job js id none h = find-append id js _ h

pub all_there-create :
    (job : Job) (js : Jobs) (ks : List Uuid)
    → All (λ k. find k js ≢ none) ks
    → All (λ k. find k (create none job js).1 ≢ none) ks
unfolding create
all_there-create job js ks h = All-map ks (λ k. find-insert_row job js k (find job.id js)) h
