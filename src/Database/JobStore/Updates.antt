-- ===== src/Database/JobStore/Updates.antt =====
-- What the updates of one row leave of the table.
use docpulse.Base.{
  ℕ, ◌≡◌, ◌≢◌, refl, ap, ◌∙◌, ◌⊎◌, inl, inr, ◌++◌, Option-cases, none, some, [], ◌∷◌, arith, String,
}
use docpulse.Base.Dict.{Dict}
use docpulse.Base.Result.{ok, err}
use docpulse.Text.Utf8.{Bytes}
use docpulse.Domain.{Uuid, Time, Job, JobStatus, ModelTier}
use docpulse.Database.JobStore.{
  Jobs, Fault, find, create, insert_row, inserted, update, update_status, fail, complete, get_by_id,
  with_status, as_failed, as_completed,
}

pub find-update_same :
    (id : Uuid) (f : Job → Job) (js : Jobs) (j : Job)
    → ((k : Job) → (f k).id ≡ k.id)
    → find id js ≡ some j
    → find id (update id f js) ≡ some (f j)
unfolding find update
find-update_same id f [] j h e = absurd cc
find-update_same id f (k ∷ js) j h e = ground (arith, h k, find-update_same id f js j h)

pub find-update_other :
    (id other : Uuid) (f : Job → Job) (js : Jobs)
    → ((k : Job) → (f k).id ≡ k.id)
    → other ≢ id
    → find other (update id f js) ≡ find other js
unfolding find update
find-update_other id other f [] h n = refl
find-update_other id other f (k ∷ js) h n = ground (arith, h k, find-update_other id other f js h n)

-- `ks` has the rows of `js`, except that the row with the id may be another one of its tenant.
pub record Touches (id : Uuid) (js ks : Jobs) : Type 0 where
  pub others : (k : Uuid) → k ≢ id → find k ks ≡ find k js
  pub there :
      (j : Job)
      → find id js ≡ some j
      → (j' : Job) × (find id ks ≡ some j') × (j'.tenant_id ≡ j.tenant_id)

pub Touches-refl : (id : Uuid) (js : Jobs) → Touches id js js
Touches-refl id js = record { others = λ k n. refl; there = λ j e. (j, e, refl) }

pub Touches-trans :
    (id : Uuid) {js ks ls : Jobs} → Touches id js ks → Touches id ks ls → Touches id js ls
Touches-trans id s t = record {
  others = λ k n. t.others k n ∙ s.others k n;
  there = λ j e.
      let (j', e', o) = s.there j e in let (j'', e'', o') = t.there j' e' in (j'', e'', o' ∙ o);
}

Touches-update :
    (id : Uuid) (f : Job → Job) (js : Jobs)
    → ((k : Job) → (f k).id ≡ k.id)
    → ((k : Job) → (f k).tenant_id ≡ k.tenant_id)
    → Touches id js (update id f js)
Touches-update id f js h o = record {
  others = λ k n. find-update_other id k f js h n;
  there = λ j e. (f j, find-update_same id f js j h e, o j);
}

pub Touches-update_status :
    (fault : Fault) (id : Uuid) (status : JobStatus) (js : Jobs)
    → Touches id js (update_status fault id status js)
unfolding update_status
Touches-update_status (some e) id status js = Touches-refl id js
Touches-update_status none id status js =
    Touches-update id (with_status status) js (λ k. refl) (λ k. refl)

pub Touches-fail :
    (fault : Fault) (id : Uuid) (msg : String) (js : Jobs) → Touches id js (fail fault id msg js)
unfolding fail
Touches-fail (some e) id msg js = Touches-refl id js
Touches-fail none id msg js = Touches-update id (as_failed msg) js (λ k. refl) (λ k. refl)

pub find-fail :
    (id : Uuid) (msg : String) (js : Jobs) (j : Job)
    → find id js ≡ some j
    → find id (fail none id msg js) ≡ some (as_failed msg j)
unfolding fail
find-fail id msg js j h = find-update_same id (as_failed msg) js j (λ k. refl) h

pub Touches-complete :
    (fault : Fault) (id : Uuid) (result : Bytes) (confidence : Dict ℕ) (model : ModelTier)
    (cost : ℕ) (now : Time) (js : Jobs)
    → Touches id js (complete fault id result confidence model cost now js).1
unfolding complete
Touches-complete (some e) id result confidence model cost now js = Touches-refl id js
Touches-complete none id result confidence model cost now js =
    Touches-update id (as_completed result confidence model cost now) js (λ k. refl) (λ k. refl)

-- A `Complete` without error has completed the row.
pub find-complete :
    (fault : Fault) (id : Uuid) (result : Bytes) (confidence : Dict ℕ) (model : ModelTier)
    (cost : ℕ) (now : Time) (js : Jobs) (j : Job)
    → (complete fault id result confidence model cost now js).0 ≡ ok tt
    → find id js ≡ some j
    → find id (complete fault id result confidence model cost now js).1
      ≡ some (as_completed result confidence model cost now j)
unfolding complete
find-complete (some e) id result confidence model cost now js j h f = absurd cc
find-complete none id result confidence model cost now js j h f =
    find-update_same id (as_completed result confidence model cost now) js j (λ k. refl) f

pub get_by_id_found :
    (fault : Fault) (id : Uuid) (js : Jobs) (j : Job)
    → get_by_id fault id js ≡ ok j
    → find id js ≡ some j
unfolding get_by_id
get_by_id_found (some e) id js j h = absurd cc
get_by_id_found none id js j h = ground arith

pub complete_succeeds :
    (fault : Fault) (id : Uuid) (result : Bytes) (confidence : Dict ℕ) (model : ModelTier)
    (cost : ℕ) (now : Time) (js : Jobs)
    → fault ≡ none
    → (complete fault id result confidence model cost now js).0 ≡ ok tt
unfolding complete
complete_succeeds (some e) id result confidence model cost now js h = absurd cc
complete_succeeds none id result confidence model cost now js h = refl

-- An insertion appends the row where no row has its id, and changes nothing otherwise.
pub create_cases :
    (fault : Fault) (job : Job) (js : Jobs)
    → ((find job.id js ≡ none) × (create fault job js ≡ (ok tt, js ++ inserted job ∷ [])))
      ⊎ ((e : String) × (create fault job js ≡ (err e, js)))
unfolding create insert_row
create_cases (some e) job js = inr (_, refl)
create_cases none job js = elim (Option-cases (find job.id js)) [
  | inl e ↦ inl (e, ap (insert_row job js) e)
  | inr (j, e) ↦ inr (_, ap (insert_row job js) e)
]

find-append_kept : (id : Uuid) (js ks : Jobs) → find id js ≢ none → find id (js ++ ks) ≡ find id js
unfolding find
find-append_kept id [] ks n = absurd (n refl)
find-append_kept id (j ∷ js) ks n = ground (arith, find-append_kept id js ks)

-- An insertion keeps the rows that are there.
pub find-create_kept :
    (job : Job) (id : Uuid) (js : Jobs)
    → find id js ≢ none
    → find id (create none job js).1 ≡ find id js
unfolding create insert_row
find-create_kept job id js n = elim (Option-cases (find job.id js)) [
  | inl e ↦ rw e (find-append_kept id js _ n)
  | inr (j, e) ↦ rw e refl
]
