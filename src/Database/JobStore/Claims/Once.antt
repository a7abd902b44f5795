-- ===== src/Database/JobStore/Claims/Once.antt =====
-- No job is claimed twice.
use docpulse.Base.{
  All-map, All_remove, All_item, ◌≡◌, ◌≢◌, refl, sym, subst, none, List, [], ◌∷◌, ◌++◌, All,
}
use docpulse.Domain.{Uuid, Job, ingesting}
use docpulse.Database.JobStore.{
  Jobs, find, update, with_status, update_status, fail, complete, as_failed, as_completed,
}
use docpulse.Database.JobStore.Rows.{IsSelected, oldest_pending-IsSelected}
use docpulse.Database.JobStore.Claims.{
  Claims, elem, Absent, IsDistinct, Step, selects, commits, rolls_back, creates, writes, fails,
  completes, Reach, here, next, fresh_start,
}
use docpulse.Database.JobStore.Claims.Taken.{
  IsTaken, IsTaking, find-update, all-IsTaken-update, with_status-IsTaking, as_failed-IsTaking,
  as_completed-IsTaking, all-IsTaken-create, row_not_busy, Absent-of_elem, update_sets-IsBusy,
  IsDistinct-remove, find-row, all_there-update, all_there-create,
}

record Inv (s : Claims) : Type 0 where
  taken : All (IsTaken s.jobs) s.claimed
  apart : All (λ id. Absent id s.held) s.claimed
  held_there : All (λ id. find id s.jobs ≢ none) s.held
  held_once : IsDistinct s.held
  claimed_once : IsDistinct s.claimed

-- A statement that keeps the locks and the claims.
Inv-update :
    {s : Claims} (f : Job → Job)
    → IsTaking f
    → (id : Uuid) → Inv s
    → Inv (record s { jobs = update id f s.jobs })
Inv-update {s} f t id v = record {
  taken = all-IsTaken-update f t id s.jobs s.claimed v.taken;
  apart = v.apart;
  held_there = all_there-update f t id s.jobs s.held v.held_there;
  held_once = v.held_once;
  claimed_once = v.claimed_once;
}

Inv-release :
    {s : Claims} (id : Uuid) (before after : List Uuid)
    → s.held ≡ before ++ id ∷ after
    → Inv s
    → Inv (record s { held = before ++ after })
Inv-release {s} id before after e v = record {
  taken = v.taken;
  apart =
      All-map s.claimed (λ c h. All_remove (λ x. x ≢ c) before id after (subst (Absent c) e h))
        v.apart;
  held_there =
      All_remove (λ k. find k s.jobs ≢ none) before id after
        (subst (All (λ k. find k s.jobs ≢ none)) e v.held_there);
  held_once = (IsDistinct-remove before id after (subst IsDistinct e v.held_once)).0;
  claimed_once = v.claimed_once;
}

Inv-select :
    {s : Claims} (j : Job)
    → IsSelected (λ id. elem id s.held) j s.jobs
    → Inv s
    → Inv (record s { held = j.id ∷ s.held })
Inv-select {s} j sel v = record {
  taken = v.taken;
  apart = fresh s.claimed v.taken v.apart;
  held_there = (find-row j s.jobs sel.row, v.held_there);
  held_once = (Absent-of_elem j.id s.held sel.free.1, v.held_once);
  claimed_once = v.claimed_once;
}
  where
    fresh :
        (cs : List Uuid)
        → All (IsTaken s.jobs) cs
        → All (λ c. Absent c s.held) cs
        → All (λ c. Absent c (j.id ∷ s.held)) cs
    fresh [] _ _ = tt
    fresh (c ∷ cs) ((there, busy), t) (a, as') =
        ((row_not_busy j c s.jobs sel.row sel.free.0 busy, a), fresh cs t as')

Inv-claim :
    {s : Claims} (id : Uuid)
    → find id s.jobs ≢ none
    → Absent id s.held
    → Absent id s.claimed
    → Inv s
    → Inv (record s { jobs = update id (with_status ingesting) s.jobs; claimed = id ∷ s.claimed })
Inv-claim {s} id there away new v =
    let t : IsTaking (with_status ingesting) = with_status-IsTaking ingesting refl in
    record {
      taken = (
        (find-update (with_status ingesting) t id id s.jobs there, update_sets-IsBusy id s.jobs),
        all-IsTaken-update (with_status ingesting) t id s.jobs s.claimed v.taken,
      );
      apart = (away, v.apart);
      held_there = all_there-update (with_status ingesting) t id s.jobs s.held v.held_there;
      held_once = v.held_once;
      claimed_once = (new, v.claimed_once);
    }

Step-Inv : {s t : Claims} → Step s t → Inv s → Inv t
Step-Inv (selects {s} j e) v = Inv-select j (oldest_pending-IsSelected _ s.jobs e) v
Step-Inv (commits {s} id before after e) v =
    Inv-claim id
      (All_item (λ k. find k s.jobs ≢ none) before id after
        (subst (All (λ k. find k s.jobs ≢ none)) e v.held_there))
      (IsDistinct-remove before id after (subst IsDistinct e v.held_once)).1
      (All-map s.claimed
        (λ c h same. All_item (λ x. x ≢ c) before id after (subst (Absent c) e h) (sym same))
        v.apart)
      (Inv-release id before after e v)
Step-Inv (rolls_back id before after e) v = Inv-release id before after e v
Step-Inv (creates {s} job) v = record {
  taken = all-IsTaken-create job s.jobs s.claimed v.taken;
  apart = v.apart;
  held_there = all_there-create job s.jobs s.held v.held_there;
  held_once = v.held_once;
  claimed_once = v.claimed_once;
}
Step-Inv (writes id status h) v =
    unfold update_status in Inv-update (with_status status) (with_status-IsTaking status h) id v
Step-Inv (fails id msg) v = unfold fail in Inv-update (as_failed msg) (as_failed-IsTaking msg) id v
Step-Inv (completes id result conf model cost now) v =
    unfold complete in
    Inv-update (as_completed result conf model cost now)
      (as_completed-IsTaking result conf model cost now) id v

Reach-Inv : {js : Jobs} {s : Claims} → Reach (fresh_start js) s → Inv s
Reach-Inv here = record {
  taken = tt;
  apart = tt;
  held_there = tt;
  held_once = tt;
  claimed_once = tt;
}
Reach-Inv (next r st) = Step-Inv st (Reach-Inv r)

-- However the transactions of the workers interleave with one another and with the other writes,
-- no job is claimed twice, and no two open transactions hold the same job.
pub Reach-claimed :
    {js : Jobs} {s : Claims} → Reach (fresh_start js) s → IsDistinct s.claimed × IsDistinct s.held
Reach-claimed r = ((Reach-Inv r).claimed_once, (Reach-Inv r).held_once)
