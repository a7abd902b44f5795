-- ===== src/Jobs/Worker/Threads/Invariant.antt =====
-- A run that interleaves with others is on its way to the row that it would leave alone.
use docpulse.Base.{
  ◌≡◌, ◌≢◌, sym, subst, ap, ◌∙◌, none, some, List, [], ◌∷◌, ◌++◌, All, All-map, All_item,
}
use docpulse.Domain.{Uuid, Job}
use docpulse.Database.JobStore.{Jobs, find, create}
use docpulse.Database.JobStore.Updates.{find-create_kept}
use docpulse.Database.JobStore.Claims.Taken.{IsTaken, all-IsTaken-create}
use docpulse.Jobs.Worker.{Services, Worker, Faults}
use docpulse.Jobs.Worker.Script.{Write, apply, replay, script}
use docpulse.Jobs.Worker.Script.Sent.{IsSent}
use docpulse.Jobs.Worker.Script.Rows.{
  apply-IsTaken, find-apply_other, find-replay_row, IsOpen, apply-IsOpen,
}
use docpulse.Jobs.Worker.Script.Course.{IsCourse, IsCourse-kept, IsCourse-sends}
use docpulse.Jobs.Worker.Threads.Apart.{Apart, AreApart}
use docpulse.Jobs.Worker.Threads.{Thread}

-- Neither `Complete` nor `Fail` succeeds.
abbrev pub IsCut : Faults → Type 0
IsCut f = (f.complete_job ≢ none) × (f.fail_job ≢ none)

module _ (sv : Services) (w : Worker) where
  -- The statements that are left lead to the row that all of them give on the table of the claim.
  pub record IsAlone (js : Jobs) (t : Thread) : Type 0 where
    pub sent : All (IsSent t.faults) t.left
    pub taken : IsTaken js t.job.id
    pub row : Job
    pub held : find t.job.id t.table ≡ some row
    pub ahead :
        find t.job.id (replay t.job.id t.left js)
        ≡ find t.job.id (replay t.job.id (script sv w t.faults t.now t.job t.cache) t.table)
    pub open_row : IsCut t.faults → IsOpen t.job.id js
    pub course : IsCourse t.job.id js t.left

  -- What keeps the row of a run keeps the rest.
  pub IsAlone-kept :
      (js ks : Jobs) (t : Thread)
      → find t.job.id ks ≡ find t.job.id js
      → IsTaken ks t.job.id
      → IsAlone js t
      → IsAlone ks t
  IsAlone-kept js ks t e u a = record {
    sent = a.sent;
    taken = u;
    row = a.row;
    held = a.held;
    ahead = find-replay_row t.faults t.job.id t.left a.sent ks js u a.taken e ∙ a.ahead;
    open_row = λ cut. let (j, there, o) = a.open_row cut in (j, e ∙ there, o);
    course = IsCourse-kept t.job.id js ks t.left e a.course;
  }

  module _ (f : Faults) (id : Uuid) (q : Write) (legal : IsSent f q) (js : Jobs) where
    All-kept :
        (ts : List Thread) → Apart id ts → All (IsAlone js) ts → All (IsAlone (apply id q js)) ts
    All-kept [] n h = tt
    All-kept (t ∷ ts) (n, ns) (a, h) = (
      IsAlone-kept js _ t (find-apply_other f id q legal t.job.id js n)
          (apply-IsTaken f id q legal t.job.id js a.taken) a,
      All-kept ts ns h,
    )

  -- The statement of a run, which is then one of those that are done.
  pub IsAlone-sends :
      (js : Jobs) (t : Thread) (q : Write) (rest : List Write)
      → t.left ≡ q ∷ rest
      → IsAlone js t
      → IsSent t.faults q × IsAlone (apply t.job.id q js) (record t { left = rest })
  unfolding replay
  IsAlone-sends js t q rest e a =
      let (legal, later) = subst (All (IsSent t.faults)) e a.sent in
      (
        legal,
        record {
          sent = later;
          taken = apply-IsTaken t.faults t.job.id q legal t.job.id js a.taken;
          row = a.row;
          held = a.held;
          ahead = ap (λ qs. find t.job.id (replay t.job.id qs js)) (sym e) ∙ a.ahead;
          open_row = λ cut. apply-IsOpen t.faults t.job.id q cut.0 cut.1 legal js (a.open_row cut);
          course =
              (IsCourse-sends t.faults t.job.id js q rest legal
                (subst (IsCourse t.job.id js) e a.course)).0;
        },
      )

  pub sends-IsAlone :
      (js : Jobs) (before : List Thread) (t : Thread) (after : List Thread) (q : Write)
      (rest : List Write)
      → t.left ≡ q ∷ rest
      → IsSent t.faults q
      → AreApart (before ++ t ∷ after)
      → All (IsAlone js) (before ++ t ∷ after)
      → All (IsAlone (apply t.job.id q js)) (before ++ record t { left = rest } ∷ after)
  sends-IsAlone js [] t after q rest e legal (n, ns) (a, h) =
      ((IsAlone-sends js t q rest e a).1, All-kept t.faults t.job.id q legal js after n h)
  sends-IsAlone js (x ∷ before) t after q rest e legal (n, ns) (a, h) = (
    (All-kept t.faults t.job.id q legal js (x ∷ [])
        ((λ same. All_item (λ u. u.job.id ≢ x.job.id) before t after n (sym same)), tt) (a, tt)).0,
    sends-IsAlone js before t after q rest e legal ns h,
  )

  pub uploads-IsAlone :
      (job : Job) (js : Jobs) (ts : List Thread)
      → All (IsAlone js) ts
      → All (IsAlone (create none job js).1) ts
  uploads-IsAlone job js ts h =
      All-map ts
        (λ t a.
          IsAlone-kept js _ t (find-create_kept job t.job.id js a.taken.0)
            (all-IsTaken-create job js (t.job.id ∷ []) (a.taken, tt)).0 a)
        h
