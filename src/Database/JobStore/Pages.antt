-- ===== src/Database/JobStore/Pages.antt =====
-- `Count` and `List` of internal/database/job_store.go: the pages of the jobs of a tenant.
use Prim.Native.Nat.{min}
use native.Mathlib.Nat.{le_trans}
use mathlib.Core.List.{Perm, perm_middle}
use mathlib.Core.List.Perm
use docpulse.Base.{
  if_both, if_cases, ltb→le, length-take, length-drop, ℕ, zero, suc, ◌-◌, ◌≤◌, ◌≡◌, ◌≢◌, refl, ap,
  Bool-cases, inl, inr, none, some, [], ◌∷◌, ◌++◌, arith, ltb, ◌==◌, All, All-map, length, take,
  drop, ◌∙◌, append_assoc, tests,
}
use docpulse.Base.Result.{ok, ok-injective}
use docpulse.Domain.{Uuid, Job}
use docpulse.Database.JobStore.{Jobs, Fault, owned_by, count, place_newest, newest_first, list}

abbrev pub IsOwned : Uuid → Job → Type 0
IsOwned tenant j = j.tenant_id ≡ tenant

-- No job is older than a job behind it.
abbrev pub IsNewestFirst : Jobs → Type 0
IsNewestFirst [] = Unit
IsNewestFirst (j ∷ js) = All (λ k. k.created_at ≤ j.created_at) js × IsNewestFirst js

-- The rows of the tenant, and the others.
record IsParted (tenant : Uuid) (jobs : Jobs) : Type 0 where
  others : Jobs
  rows : Perm jobs (owned_by tenant jobs ++ others)
  owned : All (IsOwned tenant) (owned_by tenant jobs)
  foreign : All (λ j. j.tenant_id ≢ tenant) others

parted : (tenant : Uuid) (jobs : Jobs) → IsParted tenant jobs
unfolding owned_by
parted tenant [] = record { others = []; rows = Perm.nil; owned = tt; foreign = tt }
parted tenant (j ∷ js) =
    let p = parted tenant js in
    elim (Bool-cases (j.tenant_id == tenant)) [
      | inl e ↦ record {
        others = p.others;
        rows = rw e (Perm.cons j p.rows);
        owned = rw e (ground arith, p.owned);
        foreign = p.foreign;
      }
      | inr e ↦ record {
        others = j ∷ p.others;
        rows = rw e (
            Perm.trans (Perm.cons j p.rows)
              (Perm.symm (perm_middle (owned_by tenant js) p.others)));
        owned = rw e p.owned;
        foreign = (ground arith, p.foreign);
      }
    ]

module _ (P : Job → Type 0) where
  All-place_newest : (j : Job) (js : Jobs) → P j → All P js → All P (place_newest j js)
  unfolding place_newest
  All-place_newest j [] p h = (p, tt)
  All-place_newest j (k ∷ ks) p (q, h) =
      if_both (All P) (ltb k.created_at j.created_at) (p, (q, h)) (q, All-place_newest j ks p h)

  All-newest_first : (js : Jobs) → All P js → All P (newest_first js)
  unfolding newest_first
  All-newest_first [] h = tt
  All-newest_first (j ∷ js) (p, h) = All-place_newest j (newest_first js) p (All-newest_first js h)

place_newest-IsNewestFirst :
    (j : Job) (js : Jobs) → IsNewestFirst js → IsNewestFirst (place_newest j js)
unfolding place_newest
place_newest-IsNewestFirst j [] h = (tt, tt)
place_newest-IsNewestFirst j (k ∷ ks) (le, h) =
    if_cases IsNewestFirst (ltb k.created_at j.created_at)
      (λ newer.
        let older' : k.created_at ≤ j.created_at = omega tests in
        ((older', All-map ks (λ l le'. le_trans le' older') le), (le, h)))
      (λ older'. (
        All-place_newest (λ l. l.created_at ≤ k.created_at) j ks (ltb→le _ _ older') le,
        place_newest-IsNewestFirst j ks h,
      ))

newest_first-IsNewestFirst : (js : Jobs) → IsNewestFirst (newest_first js)
unfolding newest_first
newest_first-IsNewestFirst [] = tt
newest_first-IsNewestFirst (j ∷ js) =
    place_newest-IsNewestFirst j (newest_first js) (newest_first-IsNewestFirst js)

length-place_newest : (j : Job) (js : Jobs) → length (place_newest j js) ≡ suc (length js)
unfolding place_newest
length-place_newest j [] = refl
length-place_newest j (k ∷ ks) = ground (arith, length-place_newest j ks)

length-newest_first : (js : Jobs) → length (newest_first js) ≡ length js
unfolding newest_first
length-newest_first [] = refl
length-newest_first (j ∷ js) =
    omega (arith, length-place_newest j (newest_first js), length-newest_first js)

take-drop : (n : ℕ) (js : Jobs) → js ≡ take n js ++ drop n js
take-drop zero js = refl
take-drop (suc n) [] = refl
take-drop (suc n) (j ∷ js) = ap (λ l. j ∷ l) (take-drop n js)

take-drop_cut : (n m : ℕ) (js : Jobs) → js ≡ take n js ++ take m (drop n js) ++ drop m (drop n js)
take-drop_cut n m js =
    rw append_assoc (take-drop n js ∙ ap (λ l. take n js ++ l) (take-drop m (drop n js)))

place_newest-Perm : (j : Job) (js : Jobs) → Perm (place_newest j js) (j ∷ js)
unfolding place_newest
place_newest-Perm j [] = Perm.refl (j ∷ [])
place_newest-Perm j (k ∷ ks) =
    if_both (λ l. Perm l (j ∷ k ∷ ks)) (ltb k.created_at j.created_at) (Perm.refl (j ∷ k ∷ ks))
      (Perm.trans (Perm.cons k (place_newest-Perm j ks)) (Perm.swap j k ks))

newest_first-Perm : (js : Jobs) → Perm (newest_first js) js
unfolding newest_first
newest_first-Perm [] = Perm.nil
newest_first-Perm (j ∷ js) =
    Perm.trans (place_newest-Perm j (newest_first js)) (Perm.cons j (newest_first-Perm js))

-- A page of `List`: `sorted` are the rows of the tenant in the table, all of them and no others, the
-- newest first; there are as many as `Count` says, and the page is what the offset and the limit cut
-- out of them.
pub record IsPage (tenant : Uuid) (jobs : Jobs) (total limit offset : ℕ) (page : Jobs)
    : Type 0 where
  pub sorted : Jobs
  pub others : Jobs
  pub rows : Perm jobs (sorted ++ others)
  pub owned : All (IsOwned tenant) sorted
  pub foreign : All (λ j. j.tenant_id ≢ tenant) others
  pub newest : IsNewestFirst sorted
  pub counted : length sorted ≡ total
  pub before : Jobs
  pub after : Jobs
  pub cut : sorted ≡ before ++ page ++ after
  pub skipped : length before ≡ min offset total
  pub full : length page ≡ min limit (total - offset)

page_of : Uuid → ℕ → ℕ → Jobs → Jobs
page_of tenant limit offset jobs = take limit (drop offset (newest_first (owned_by tenant jobs)))

page_of-IsPage :
    (tenant : Uuid) (limit offset : ℕ) (jobs : Jobs)
    → IsPage tenant jobs
        (length (owned_by tenant jobs))
        limit
        offset
        (page_of tenant limit offset jobs)
unfolding page_of
page_of-IsPage tenant limit offset jobs =
    let p = parted tenant jobs in
    let mine = owned_by tenant jobs in
    let all = newest_first mine in
    record {
      sorted = all;
      others = p.others;
      rows = Perm.trans p.rows (Perm.append_right p.others (Perm.symm (newest_first-Perm mine)));
      owned = All-newest_first (IsOwned tenant) mine p.owned;
      foreign = p.foreign;
      newest = newest_first-IsNewestFirst mine;
      counted = length-newest_first mine;
      before = take offset all;
      after = drop limit (drop offset all);
      cut = take-drop_cut offset limit all;
      skipped = omega (arith, length-take offset all, length-newest_first mine);
      full = omega (
        arith,
        length-take limit (drop offset all),
        length-drop offset all,
        length-newest_first mine,
      );
    }

-- `Count` and `List` of one table agree: the list is a page of the jobs that are counted.
pub list-IsPage :
    (fault : Fault) (tenant : Uuid) (limit offset total : ℕ) (jobs page : Jobs)
    → count none tenant jobs ≡ ok total
    → list fault tenant limit offset jobs ≡ ok page
    → IsPage tenant jobs total limit offset page
unfolding count list
list-IsPage (some e) tenant limit offset total jobs page counted listed = cc
list-IsPage none tenant limit offset total jobs page counted listed =
    let n : length (owned_by tenant jobs) ≡ total = ok-injective counted in
    let p : page_of tenant limit offset jobs ≡ page = unfold page_of in ok-injective listed in
    rw (← n, ← p) (page_of-IsPage tenant limit offset jobs)
