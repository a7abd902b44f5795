-- ===== src/Jobs/Worker/Script/Course.antt =====
-- The row of a job moves forward with each statement of its run, and stops at its end.
use docpulse.Base.{
  ℕ, ◌≤◌, ◌≡◌, refl, sym, ◌∙◌, ◌⊎◌, inl, inr, true, false, Option, none, some, List, [], ◌∷◌, arith,
  eq_of_some, subst,
}
use docpulse.Text.Utf8.{Bytes}
use docpulse.Domain.{Uuid, Time, Job, JobStatus, DocumentFormat}
use docpulse.Database.JobStore.{Jobs, find, with_status, as_failed, as_completed, job_store}
use docpulse.Database.JobStore.Updates.{find-update_same}
use docpulse.Jobs.Worker.{Faults}
use docpulse.Jobs.Worker.Script.{Write, sets, completes, fails, apply}
use docpulse.Jobs.Worker.Script.Sent.{is_open, IsSent}
use docpulse.Jobs.Worker.Script.Forward.{rank, is_final, IsForward}

-- What the upload has set.
pub record Order : Type 0 where
  pub tenant_id : Uuid
  pub document_url : Bytes
  pub document_format : Option DocumentFormat
  pub document_size_bytes : ℕ
  pub schema : Bytes
  pub created_at : Time

abbrev pub order_of : Job → Order
order_of j = record {
  tenant_id = j.tenant_id;
  document_url = j.document_url;
  document_format = j.document_format;
  document_size_bytes = j.document_size_bytes;
  schema = j.schema;
  created_at = j.created_at;
}

-- The row goes on to one that is not behind it, with what the upload has set.
abbrev pub IsStep : Job → Job → Type 0
IsStep j k =
    (is_final j.status ≡ false) × (rank j.status ≤ rank k.status) × (order_of k ≡ order_of j)

-- The row stays as it is, or it is not yet final and goes on.
abbrev pub IsMove : Job → Job → Type 0
IsMove j k = (k ≡ j) ⊎ IsStep j k

abbrev pub Moves : Uuid → Jobs → Jobs → Type 0
Moves id js ks = (j : Job) → find id js ≡ some j → (k : Job) × (find id ks ≡ some k) × IsMove j k

pub Moves-same : (id : Uuid) (js ks : Jobs) → find id ks ≡ find id js → Moves id js ks
Moves-same id js ks e j there = (j, e ∙ there, inl refl)

-- A row that is not final and not beyond the rank.
abbrev pub IsBehind : ℕ → Uuid → Jobs → Type 0
IsBehind n id js =
    (j : Job) × (find id js ≡ some j) × (rank j.status ≤ n) × (is_final j.status ≡ false)

-- What is left of a script goes on from the row.
pub record IsCourse (id : Uuid) (js : Jobs) (left : List Write) : Type 0 where
  pub level : ℕ
  pub forward : IsForward level left
  pub behind : (left ≡ []) ⊎ IsBehind level id js

pub IsCourse-kept :
    (id : Uuid) (js ks : Jobs) (left : List Write)
    → find id ks ≡ find id js
    → IsCourse id js left
    → IsCourse id ks left
IsCourse-kept id js ks left e c = record {
  level = c.level;
  forward = c.forward;
  behind = elim c.behind [
    | inl over ↦ inl over
    | inr (j, there, le, early) ↦ inr (j, e ∙ there, le, early)
  ];
}

open_not_final : (st : JobStatus) → is_open st ≡ true → is_final st ≡ false
open_not_final st h = ground arith

abbrev Advances : Uuid → Jobs → Jobs → List Write → Type 0
Advances id js ks rest = IsCourse id ks rest × Moves id js ks

Advances-update :
    (id : Uuid) (js ks : Jobs) (rest : List Write) (j k : Job) (n : ℕ)
    → find id js ≡ some j
    → IsStep j k
    → find id ks ≡ some k
    → IsForward n rest
    → (rest ≡ []) ⊎ ((rank k.status ≤ n) × (is_final k.status ≡ false))
    → Advances id js ks rest
Advances-update id js ks rest j k n there on there' forward end = (
  record {
    level = n;
    forward = forward;
    behind = elim end [ inl over ↦ inl over | inr (le', early') ↦ inr (k, there', le', early') ];
  },
  λ i at.
      let same : j ≡ i = eq_of_some (sym there ∙ at) in
      (k, there', inr (subst (λ x. IsStep x k) same on)),
)

-- A statement that meets an error leaves the row.
Advances-nothing :
    (id : Uuid) (js : Jobs) (rest : List Write) (n m : ℕ)
    → IsBehind n id js
    → n ≤ m
    → IsForward m rest
    → Advances id js js rest
Advances-nothing id js rest n m (j, there, le, early) up forward = (
  record { level = m; forward = forward; behind = inr (j, there, omega arith, early) },
  Moves-same id js js refl,
)

below_final : (st : JobStatus) → rank st ≤ 5
below_final st = ground arith

apply-Advances :
    (f : Faults) (id : Uuid) (js : Jobs) (q : Write) (rest : List Write) (n : ℕ)
    → IsSent f q
    → IsForward n (q ∷ rest)
    → IsBehind n id js
    → Advances id js (apply id q js) rest
unfolding job_store apply
apply-Advances f id js (sets (some e) st) rest n sent (up, forward) b =
    Advances-nothing id js rest n (rank st) b up forward
apply-Advances f id js (sets none st) rest n sent (up, forward) (j, there, le, early) =
    Advances-update id js _ rest j (with_status st j) (rank st) there (early, omega arith, refl)
      (find-update_same id (with_status st) js j (λ k. refl) there) forward
      (inr (omega arith, open_not_final st sent))
apply-Advances f id js (completes (some e) result confidence model cost now) rest n sent forward b =
    Advances-nothing id js rest n n b (omega arith) forward
apply-Advances f id js (completes none result confidence model cost now) rest n sent over
      (j, there, le, early) =
    let done = as_completed result confidence model cost now in
    Advances-update id js _ rest j (done j) 0 there (early, below_final j.status, refl)
      (find-update_same id done js j (λ k. refl) there) (subst (IsForward 0) (sym over) tt)
      (inl over)
apply-Advances f id js (fails (some e) msg) rest n sent over b =
    Advances-nothing id js rest n n b (omega arith) (subst (IsForward n) (sym over) tt)
apply-Advances f id js (fails none msg) rest n sent over (j, there, le, early) =
    Advances-update id js _ rest j (as_failed msg j) 0 there (early, below_final j.status, refl)
      (find-update_same id (as_failed msg) js j (λ k. refl) there)
      (subst (IsForward 0) (sym over) tt) (inl over)

pub IsCourse-sends :
    (f : Faults) (id : Uuid) (js : Jobs) (q : Write) (rest : List Write)
    → IsSent f q
    → IsCourse id js (q ∷ rest)
    → IsCourse id (apply id q js) rest × Moves id js (apply id q js)
IsCourse-sends f id js q rest sent c = elim c.behind [
  | inl over ↦ absurd cc
  | inr b ↦ apply-Advances f id js q rest c.level sent c.forward b
]
