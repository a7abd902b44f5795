-- ===== src/Jobs/Worker/Threads/Forward.antt =====
-- However the runs interleave, the status of a job goes forward.
use native.Mathlib.Decide.{ℕ_discrete}
use docpulse.Base.{
  ◌≡◌, ◌∙◌, refl, sym, subst, ap, inl, inr, Option, none, some, true, false, Bool, eq_of_some, List,
  ◌∷◌, ◌++◌, All, All_item, arith,
}
use docpulse.Domain.{Uuid, Job, JobStatus, ingesting}
use docpulse.Database.JobStore.{Jobs, find, update, is_pending, with_status}
use docpulse.Database.JobStore.Rows.{IsSelected, oldest_pending-IsSelected}
use docpulse.Database.JobStore.Queries.{claim_next_inversion}
use docpulse.Database.JobStore.Keys.{IsKeyed, find_of_row, IsKeyed-update, IsKeyed-create}
use docpulse.Database.JobStore.Updates.{find-update_same, find-update_other, find-create_kept}
use docpulse.Jobs.Worker.{Services, Worker}
use docpulse.Jobs.Worker.Script.{Write, apply}
use docpulse.Jobs.Worker.Script.Sent.{IsSent}
use docpulse.Jobs.Worker.Script.Forward.{is_final}
use docpulse.Jobs.Worker.Script.Course.{
  IsCourse, IsCourse-sends, order_of, IsStep, IsMove, Moves, Moves-same,
}
use docpulse.Jobs.Worker.Script.Rows.{find-apply_other, apply-IsKeyed}
use docpulse.Jobs.Worker.Threads.{
  Thread, Threads, Turn, claims, sends, uploads, Turns, idle, next_turn, Later, stays, goes,
}
use docpulse.Jobs.Worker.Threads.Invariant.{IsAlone, IsAlone-sends}
use docpulse.Jobs.Worker.Threads.Sound.{IsSound, Turns-IsSound}

pending_not_final : (st : JobStatus) → is_pending st ≡ true → is_final st ≡ false
pending_not_final st h = ground arith

Moves-claim :
    (locked : Uuid → Bool) (js : Jobs) (k : Job) (id : Uuid)
    → IsSelected locked k js
    → IsKeyed js
    → Moves id js (update k.id (with_status ingesting) js)
Moves-claim locked js k id sel u = elim (ℕ_discrete id k.id) [
  | yes same ↦
      subst (λ i. Moves i js (update k.id (with_status ingesting) js)) (sym same)
        (λ j there.
          let mine = find_of_row k js sel.row u in
          let one : k ≡ j = eq_of_some (sym mine ∙ there) in
          (
            with_status ingesting k,
            find-update_same k.id (with_status ingesting) js k (λ i. refl) mine,
            inr (
                subst (λ i. IsStep i (with_status ingesting k)) one
                  (pending_not_final k.status sel.free.0, ground (arith, sel.free.0), refl)),
          ))
  | no other ↦
      Moves-same id js _ (find-update_other k.id id (with_status ingesting) js (λ j. refl) other)
]

module _ (sv : Services) (w : Worker) where
  IsSent-IsCourse :
      {s : Threads} (before : List Thread) (t : Thread) (after : List Thread) (q : Write)
      (rest : List Write)
      → IsSound sv w s
      → s.running ≡ before ++ t ∷ after
      → t.left ≡ q ∷ rest
      → IsSent t.faults q × IsCourse t.job.id s.jobs (q ∷ rest)
  IsSent-IsCourse {s} before t after q rest v e next =
      let a =
        All_item (IsAlone sv w s.jobs) before t after
          (subst (All (IsAlone sv w s.jobs)) e v.alone) in
      (
        (IsAlone-sends sv w s.jobs t q rest next a).0,
        subst (IsCourse t.job.id s.jobs) next a.course,
      )

  Turn-IsKeyed : {s t : Threads} → Turn sv w s t → IsSound sv w s → IsKeyed s.jobs → IsKeyed t.jobs
  Turn-IsKeyed (claims {s} locked job jobs f now cache e) v u =
      let (k, selected, same, written) = claim_next_inversion locked s.jobs jobs job e in
      subst IsKeyed written (IsKeyed-update k.id (with_status ingesting) s.jobs (λ j. refl) u)
  Turn-IsKeyed (sends {s} before t after q rest e next) v u =
      apply-IsKeyed t.faults t.job.id q (IsSent-IsCourse before t after q rest v e next).0 s.jobs u
  Turn-IsKeyed (uploads {s} job) v u = IsKeyed-create job s.jobs u

  Turns-IsKeyed : {js : Jobs} {s : Threads} → IsKeyed js → Turns sv w js s → IsKeyed s.jobs
  Turns-IsKeyed u idle = u
  Turns-IsKeyed u (next_turn r st) = Turn-IsKeyed st (Turns-IsSound sv w r) (Turns-IsKeyed u r)

  Turn-Moves :
      {s t : Threads}
      → Turn sv w s t
      → IsSound sv w s
      → IsKeyed s.jobs
      → (id : Uuid) → Moves id s.jobs t.jobs
  Turn-Moves (claims {s} locked job jobs f now cache e) v u id =
      let (k, selected, same, written) = claim_next_inversion locked s.jobs jobs job e in
      subst (Moves id s.jobs) written
        (Moves-claim locked s.jobs k id (oldest_pending-IsSelected locked s.jobs selected) u)
  Turn-Moves (sends {s} before t after q rest e next) v u id =
      let (legal, course) = IsSent-IsCourse before t after q rest v e next in
      elim (ℕ_discrete id t.job.id) [
        | yes same ↦
            subst (λ i. Moves i s.jobs (apply t.job.id q s.jobs)) (sym same)
              (IsCourse-sends t.faults t.job.id s.jobs q rest legal course).1
        | no other ↦
            Moves-same id s.jobs _ (find-apply_other t.faults t.job.id q legal id s.jobs other)
      ]
  Turn-Moves (uploads {s} job) v u id = λ j there.
      Moves-same id s.jobs _ (find-create_kept job id s.jobs (λ n. absurd (present there n))) j
        there
    where
      present : {o : Option Job} {j : Job} → o ≡ some j → o ≡ none → ⊥
      present e n = cc

  pub Later-Turns : {js : Jobs} {s t : Threads} → Turns sv w js s → Later sv w s t → Turns sv w js t
  Later-Turns r stays = r
  Later-Turns r (goes l st) = next_turn (Later-Turns r l) st

  order_of_move : {j k : Job} → IsMove j k → order_of k ≡ order_of j
  order_of_move (inl same) = ap order_of same
  order_of_move (inr (early, le, kept)) = kept

  -- What an upload has set stays.
  pub Later-order_of :
      {js : Jobs} {s t : Threads}
      → IsKeyed js
      → Turns sv w js s
      → Later sv w s t
      → (id : Uuid) (j : Job) → find id s.jobs ≡ some j
      → (k : Job) × (find id t.jobs ≡ some k) × (order_of k ≡ order_of j)
  Later-order_of keyed r stays id j there = (j, there, refl)
  Later-order_of keyed r (goes l st) id j there =
      let (k, at, kept) = Later-order_of keyed r l id j there in
      let before = Later-Turns r l in
      let (m, at', move) =
        Turn-Moves st (Turns-IsSound sv w before) (Turns-IsKeyed keyed before) id k at in
      (m, at', order_of_move move ∙ kept)

-- However the runs interleave with one another, with uploads and with claims, each step leaves every
-- job in the table, and moves it forward: the row is unchanged, or it was not completed or failed
-- before, its status does not go back in the order pending, ingesting, chunking, extracting,
-- assembling, completed or failed, and what the upload has set is kept, the tenant, the document and
-- the schema. So a completed or failed job is never changed. At the start no job is being run, and
-- the ids of the rows are distinct.
pub Turns-Moves :
    (sv : Services) (w : Worker) (js : Jobs) (s t : Threads) (id : Uuid) (j : Job)
    → IsKeyed js
    → Turns sv w js s
    → Turn sv w s t
    → find id s.jobs ≡ some j
    → (k : Job) × (find id t.jobs ≡ some k) × IsMove j k
Turns-Moves sv w js s t id j keyed r st there =
    Turn-Moves sv w st (Turns-IsSound sv w r) (Turns-IsKeyed sv w keyed r) id j there
