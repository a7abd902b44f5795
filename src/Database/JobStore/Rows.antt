-- ===== src/Database/JobStore/Rows.antt =====
-- Rows of the table `jobs`: what `ClaimNext` of internal/database/job_store.go selects, and what an
-- update leaves alone.
use native.Mathlib.Nat.{le_trans, le_refl}
use docpulse.Base.{
  eq_of_some, ◌≤◌, ◌≡◌, refl, sym, not, ◌&&◌, Bool, true, false, ◌⊎◌, inl, inr, none, some, [], ◌∷◌,
  arith, leb, leb→le, ◌∙◌, if◌then◌else◌, Bool-cases, Option-cases, All,
}
use docpulse.Domain.{Uuid, Job}
use docpulse.Database.JobStore.{Jobs, is_pending, older, oldest_pending}

abbrev pub IsRow : Job → Jobs → Type 0
IsRow j [] = ⊥
IsRow j (k ∷ ks) = (j ≡ k) ⊎ IsRow j ks

-- A row that `ClaimNext` may take.
abbrev pub IsFree : (Uuid → Bool) → Job → Type 0
IsFree locked j = (is_pending j.status ≡ true) × (locked j.id ≡ false)

module _ (locked : Uuid → Bool) where
  -- No free row is older.
  abbrev pub IsOldest : Job → Jobs → Type 0
  IsOldest j = All (λ k. IsFree locked k → j.created_at ≤ k.created_at)

  pub oldest_pending-none :
      (js : Jobs) → oldest_pending locked js ≡ none → All (λ k. ¬ IsFree locked k) js
  unfolding oldest_pending
  oldest_pending-none [] e = tt
  oldest_pending-none (j ∷ js) e = elim (Bool-cases (is_pending j.status && not (locked j.id))) [
    | inl free ↦ cc (rw (free, oldest_pending) at e)
    | inr taken ↦ ((λ h. ground arith), oldest_pending-none js (rw (taken, oldest_pending) at e))
  ]

  pub record IsSelected (j : Job) (js : Jobs) : Type 0 where
    pub row : IsRow j js
    pub free : IsFree locked j
    pub oldest : IsOldest j js

  IsOldest-le :
      (j k : Job) (js : Jobs) → j.created_at ≤ k.created_at → IsOldest k js → IsOldest j js
  IsOldest-le j k [] h _ = tt
  IsOldest-le j k (l ∷ js) h (o, os) = ((λ f. le_trans h (o f)), IsOldest-le j k js h os)

  IsOldest-of_none : (j : Job) (js : Jobs) → All (λ k. ¬ IsFree locked k) js → IsOldest j js
  IsOldest-of_none j [] _ = tt
  IsOldest-of_none j (k ∷ js) (h, hs) = ((λ f. absurd (h f)), IsOldest-of_none j js hs)

  IsFree-of : (k : Job) → (is_pending k.status && not (locked k.id)) ≡ true → IsFree locked k
  IsFree-of k h = ground arith

  first-IsSelected :
      (k : Job) (js : Jobs)
      → IsFree locked k
      → All (λ j. ¬ IsFree locked j) js
      → IsSelected k (k ∷ js)
  first-IsSelected k js free nobody = record {
    row = inl refl;
    free = free;
    oldest = ((λ f. le_refl _), IsOldest-of_none k js nobody);
  }

  older-IsSelected :
      (k i : Job) (js : Jobs)
      → IsFree locked k
      → IsSelected i js
      → IsSelected (older k (some i)) (k ∷ js)
  older-IsSelected k i js free s = elim (Bool-cases (leb k.created_at i.created_at)) [
    | inl le ↦ rw le (record {
      row = inl refl;
      free = free;
      oldest = ((λ f. le_refl _), IsOldest-le k i js (leb→le _ _ le) s.oldest);
    })
    | inr gt ↦
        rw gt (record { row = inr s.row; free = s.free; oldest = ((λ f. ground arith), s.oldest) })
  ]

  opened :
      (k : Job) (js : Jobs)
      → oldest_pending locked (k ∷ js) ≡ (
          if is_pending k.status && not (locked k.id)
          then some (older k (oldest_pending locked js))
          else oldest_pending locked js)
  unfolding oldest_pending
  opened k js = refl

  nothing : {j : Job} → oldest_pending locked [] ≡ some j → ⊥
  unfolding oldest_pending
  nothing e = cc

  -- `ClaimNext` selects a free row than which no free row is older.
  pub oldest_pending-IsSelected :
      (js : Jobs) {j : Job} → oldest_pending locked js ≡ some j → IsSelected j js
  oldest_pending-IsSelected [] {j} e = absurd (nothing e)
  oldest_pending-IsSelected (k ∷ js) {j} e =
      elim (Bool-cases (is_pending k.status && not (locked k.id))) [
        | inl free ↦ elim (Option-cases (oldest_pending locked js)) [
          | inl alone ↦
              let same : k ≡ j = eq_of_some (sym (rw (free, alone) at (opened k js)) ∙ e) in
              rw (← same) (first-IsSelected k js (IsFree-of k free) (oldest_pending-none js alone))
          | inr (i, more) ↦
              let same : older k (some i) ≡ j =
                eq_of_some (sym (rw (free, more) at (opened k js)) ∙ e) in
              rw (← same) (
                older-IsSelected k i js (IsFree-of k free)
                  (oldest_pending-IsSelected js {j = i} more))
        ]
        | inr taken ↦
            let s = oldest_pending-IsSelected js {j = j} (sym (rw taken at (opened k js)) ∙ e) in
            record { row = inr s.row; free = s.free; oldest = ((λ f. ground arith), s.oldest) }
      ]
