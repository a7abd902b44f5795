-- ===== src/Jobs/Worker/Threads/Sound.antt =====
-- The invariant of the runs that interleave: a claim takes a new job, and each step keeps it.
use docpulse.Base.{inr, arith, refl, sym, subst, List, [], ◌∷◌, All, All-map, All_item, Bool}
use docpulse.Cache.{Entries}
use docpulse.Domain.{Uuid, Job, ingesting}
use docpulse.Database.JobStore.{Jobs, update, with_status}
use docpulse.Database.JobStore.Rows.{IsSelected, oldest_pending-IsSelected}
use docpulse.Database.JobStore.Queries.{claim_next_inversion}
use docpulse.Database.JobStore.Updates.{find-update_same, find-update_other}
use docpulse.Database.JobStore.Claims.Taken.{
  with_status-IsTaking, find-update, all-IsTaken-update, row_not_busy, update_sets-IsBusy, find-row,
}
use docpulse.Jobs.Worker.{Clock, Services, Worker, Faults}
use docpulse.Jobs.Worker.Script.Sent.{script-IsSent}
use docpulse.Jobs.Worker.Script.Rows.{row_of}
use docpulse.Jobs.Worker.Script.Forward.{script-IsForward}
use docpulse.Jobs.Worker.Threads.Apart.{Apart, AreApart, AreApart-swap}
use docpulse.Jobs.Worker.Threads.Invariant.{
  IsAlone, IsAlone-kept, IsAlone-sends, sends-IsAlone, uploads-IsAlone,
}
use docpulse.Jobs.Worker.Threads.{
  Thread, Threads, started, Turn, claims, sends, uploads, Turns, idle, next_turn,
}

module _ (sv : Services) (w : Worker) where
  pub record IsSound (s : Threads) : Type 0 where
    pub apart : AreApart s.running
    pub alone : All (IsAlone sv w s.jobs) s.running

  -- A claim takes a row that no run has.
  module _ (locked : Uuid → Bool) (js : Jobs) (k : Job) (sel : IsSelected locked k js) where
    claimed : Jobs
    claimed = update k.id (with_status ingesting) js

    claims-Apart : (ts : List Thread) → All (IsAlone sv w js) ts → Apart k.id ts
    claims-Apart ts h =
        All-map ts (λ t a same. row_not_busy k t.job.id js sel.row sel.free.0 a.taken.1 (sym same))
          h

    claims-IsAlone : (ts : List Thread) → All (IsAlone sv w js) ts → All (IsAlone sv w claimed) ts
    unfolding claimed
    claims-IsAlone ts h =
        All-map ts
          (λ t a.
            IsAlone-kept sv w js _ t
              (find-update_other k.id t.job.id (with_status ingesting) js (λ j. refl)
                (λ same. row_not_busy k t.job.id js sel.row sel.free.0 a.taken.1 (sym same)))
              (all-IsTaken-update (with_status ingesting) (with_status-IsTaking ingesting refl) k.id
                js (t.job.id ∷ []) (a.taken, tt)).0
              a)
          h

    started-IsAlone :
        (f : Faults) (now : Clock) (cache : Entries)
        → IsAlone sv w claimed (started sv w (with_status ingesting k) f now cache claimed)
    unfolding claimed
    started-IsAlone f now cache =
        let there = find-row k js sel.row in
        let (row, e) = row_of k.id js there in
        let held = find-update_same k.id (with_status ingesting) js row (λ j. refl) e in
        record {
          sent = script-IsSent sv w f now (with_status ingesting k) cache;
          taken = (
            find-update (with_status ingesting) (with_status-IsTaking ingesting refl) k.id k.id js
                there,
            update_sets-IsBusy k.id js,
          );
          row = with_status ingesting row;
          held = held;
          ahead = refl;
          open_row = λ cut. (with_status ingesting row, held, refl);
          course = record {
            level = 1;
            forward = script-IsForward sv w f now (with_status ingesting k) cache;
            behind = inr (with_status ingesting row, held, omega arith, refl);
          };
        }

  Turn-IsSound : {s t : Threads} → Turn sv w s t → IsSound s → IsSound t
  Turn-IsSound (claims {s} locked job jobs f now cache e) v =
      let (k, selected, same, written) = claim_next_inversion locked s.jobs jobs job e in
      let sel = oldest_pending-IsSelected locked s.jobs selected in
      subst
        (λ js.
          IsSound (record { jobs = js; running = started sv w job f now cache js ∷ s.running }))
        written
        (subst
          (λ j. IsSound (record {
            jobs = update k.id (with_status ingesting) s.jobs;
            running =
                started sv w j f now cache (update k.id (with_status ingesting) s.jobs) ∷ s.running;
          }))
          same
          (unfold claimed in
            record {
              apart = (claims-Apart locked s.jobs k sel s.running v.alone, v.apart);
              alone = (
                started-IsAlone locked s.jobs k sel f now cache,
                claims-IsAlone locked s.jobs k sel s.running v.alone,
              );
            }))
  Turn-IsSound (sends {s} before t after q rest e next) v =
      let apart = subst AreApart e v.apart in
      let alone = subst (All (IsAlone sv w s.jobs)) e v.alone in
      let (legal, mine) =
        IsAlone-sends sv w s.jobs t q rest next
          (All_item (IsAlone sv w s.jobs) before t after alone) in
      record {
        apart = AreApart-swap before t (record t { left = rest }) after refl apart;
        alone = sends-IsAlone sv w s.jobs before t after q rest next legal apart alone;
      }
  Turn-IsSound (uploads {s} job) v = record {
    apart = v.apart;
    alone = uploads-IsAlone sv w job s.jobs s.running v.alone;
  }

  pub Turns-IsSound : {js : Jobs} {s : Threads} → Turns sv w js s → IsSound s
  Turns-IsSound idle = record { apart = tt; alone = tt }
  Turns-IsSound (next_turn r st) = Turn-IsSound st (Turns-IsSound r)
