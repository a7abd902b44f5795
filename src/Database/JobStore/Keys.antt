-- ===== src/Database/JobStore/Keys.antt =====
-- The primary key of the table jobs: no two rows have one id, and no statement changes that.
use docpulse.Base.{
  ◌≡◌, ◌≢◌, refl, sym, inl, inr, none, some, [], ◌∷◌, ◌++◌, arith, Option-cases, subst,
}
use docpulse.Domain.{Uuid, Job}
use docpulse.Database.JobStore.{Jobs, find, update, create, insert_row, inserted}
use docpulse.Database.JobStore.Rows.{IsRow}
use docpulse.Database.JobStore.Claims.Taken.{find-row}

abbrev pub IsKeyed : Jobs → Type 0
IsKeyed [] = Unit
IsKeyed (j ∷ js) = (find j.id js ≡ none) × IsKeyed js

-- A row is the row of its id.
pub find_of_row : (j : Job) (js : Jobs) → IsRow j js → IsKeyed js → find j.id js ≡ some j
unfolding find
find_of_row j [] r u = absurd r
find_of_row j (k ∷ js) (inl same) u =
    subst (λ (i : Job). find i.id (k ∷ js) ≡ some i) (sym same) (ground arith)
find_of_row j (k ∷ js) (inr later) (n, u) =
    ground (arith, find_of_row j js later u, find-row j js later)

find-update_absent :
    (id k : Uuid) (f : Job → Job) (js : Jobs)
    → ((j : Job) → (f j).id ≡ j.id)
    → find k js ≡ none
    → find k (update id f js) ≡ none
unfolding find update
find-update_absent id k f [] h n = refl
find-update_absent id k f (j ∷ js) h n = ground (arith, h j, find-update_absent id k f js h)

pub IsKeyed-update :
    (id : Uuid) (f : Job → Job) (js : Jobs)
    → ((j : Job) → (f j).id ≡ j.id)
    → IsKeyed js
    → IsKeyed (update id f js)
unfolding update
IsKeyed-update id f [] h u = tt
IsKeyed-update id f (j ∷ js) h (n, u) =
    let rest = find-update_absent id j.id f js h n in
    (ground (arith, h j), IsKeyed-update id f js h u)

find-append_none :
    (id : Uuid) (js : Jobs) (r : Job)
    → find id js ≡ none
    → r.id ≢ id
    → find id (js ++ r ∷ []) ≡ none
unfolding find
find-append_none id [] r n ne = ground arith
find-append_none id (j ∷ js) r n ne = ground (arith, find-append_none id js r)

IsKeyed-append : (r : Job) (js : Jobs) → find r.id js ≡ none → IsKeyed js → IsKeyed (js ++ r ∷ [])
unfolding find
IsKeyed-append r [] n u = (refl, tt)
IsKeyed-append r (j ∷ js) n (m, u) =
    (find-append_none j.id js r m (λ e. ground arith), IsKeyed-append r js (ground arith) u)

pub IsKeyed-create : (job : Job) (js : Jobs) → IsKeyed js → IsKeyed (create none job js).1
unfolding create insert_row
IsKeyed-create job js u = elim (Option-cases (find job.id js)) [
  | inl e ↦ rw e (IsKeyed-append (inserted job) js e u)
  | inr (j, e) ↦ rw e u
]
