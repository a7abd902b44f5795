-- ===== src/Jobs/Worker/Reuse.antt =====
-- A document that has been processed is not processed again while its result is in the cache.
use docpulse.Base.{
  ℕ, ◌+◌, ◌<◌, ◌≡◌, ◌≢◌, refl, ap, ◌∙◌, inl, inr, none, some, [], ◌∷◌, Option-cases, String,
}
use docpulse.Base.Dict.{Dict}
use docpulse.Base.Result.{Result, ok, err}
use docpulse.Text.Utf8.{Bytes}
use docpulse.Domain.{Uuid, Time, Job, ModelTier, fast}
use docpulse.Cache.{Entries, get-set}
use docpulse.Cache
use docpulse.Database.JobStore.{Jobs, find, complete, as_completed}
use docpulse.Database.JobStore.Updates.{find-complete, complete_succeeds}
use docpulse.Jobs.Worker.Ends.{process_job-ends, key_of, document_of}
use docpulse.Jobs.Worker.{
  Clock, Services, Worker, Faults, World, Outcome, completed_as, finish, process_job, check_cache,
  found, put_cache, process_cached, process_content, content_hash,
}

-- The run has succeeded with the result in the row and in the cache.
abbrev pub IsStored : Services → Job → Time → World → Outcome → Type 0
IsStored sv job later world out =
    (content result : Bytes) × (document_of sv job ≡ ok content)
    × (Cache.get none later (key_of sv job content) out.world.cache ≡ ok result)
    × ((row : Job)
        → find job.id world.jobs ≡ some row
        → (j : Job) × (find job.id out.world.jobs ≡ some j) × (j.result ≡ some (sv.jsonb result)))

module _ (sv : Services) (w : Worker) (f : Faults) where
  finish_ok :
      (now : Time) (id : Uuid) (result : Bytes) (confidence : Dict ℕ) (model : ModelTier) (cost : ℕ)
      (v : World)
      → (finish sv w f now id result confidence model cost v).result ≡ ok tt
      → ((finish sv w f now id result confidence model cost v).world.cache ≡ v.cache)
        × ((j : Job)
            → find id v.jobs ≡ some j
            → find id (finish sv w f now id result confidence model cost v).world.jobs
              ≡ some (as_completed (sv.jsonb result) confidence model cost now j))
  unfolding finish completed_as
  finish_ok now id result confidence model cost v h =
      go (complete f.complete_job id (sv.jsonb result) confidence model cost now v.jobs) h (λ e j k.
        find-complete f.complete_job id (sv.jsonb result) confidence model cost now v.jobs j e k)
    where
      go :
          (update : Result (Unit {0}) × Jobs)
          → (completed_as sv w f id v update).result ≡ ok tt
          → (update.0 ≡ ok tt
              → (j : Job) → find id v.jobs ≡ some j
              → find id update.1
                ≡ some (as_completed (sv.jsonb result) confidence model cost now j))
          → ((completed_as sv w f id v update).world.cache ≡ v.cache)
            × ((j : Job)
                → find id v.jobs ≡ some j
                → find id (completed_as sv w f id v update).world.jobs
                  ≡ some (as_completed (sv.jsonb result) confidence model cost now j))
      go (err e, jobs) e' h = absurd cc
      go (ok tt, jobs) e' h = (refl, h refl)

  put_cache-get :
      (now later : Time) (key : String) (value : Bytes) (entries : Entries)
      → f.set_cache ≡ none
      → (w.cache_ttl ≢ 0 → later < now + w.cache_ttl)
      → Cache.get none later key (put_cache sv w f.set_cache now key value entries) ≡ ok value
  unfolding put_cache
  put_cache-get now later key value entries s live =
      ap (λ fault. Cache.get none later key (Cache.set fault now w.cache_ttl key value entries).1) s
      ∙ get-set now later w.cache_ttl key value entries live

  check_cache_hit :
      (now : Time) (key : String) (value : Bytes) (entries : Entries)
      → f.get_cache ≡ none
      → Cache.get none now key entries ≡ ok value
      → check_cache sv w f.get_cache now key entries ≡ some value
  unfolding check_cache
  check_cache_hit now key value entries g got =
      ap (λ fault. found sv w (Cache.get fault now key entries)) g ∙ ap (found sv w) got

  process_job_hit :
      (now : Clock) (job : Job) (world : World) (content result : Bytes)
      → document_of sv job ≡ ok content
      → check_cache sv w f.get_cache now.of_get (key_of sv job content) world.cache ≡ some result
      → process_job sv w f now job world
        ≡ finish sv w f now.of_end job.id result (("_cache_hit", 100) ∷ []) fast 0 world
  unfolding process_job process_content process_cached
  process_job_hit now job world content result read hit =
      ap (λ c. process_content sv w f now job c world) read
      ∙ ap (λ c. process_cached sv w f now job content (key_of sv job content) c world) hit

  completed_as-result :
      (id : Uuid) (v : World) (update : Result (Unit {0}) × Jobs)
      → (completed_as sv w f id v update).result ≡ update.0
  unfolding completed_as
  completed_as-result id v (err e, jobs) = refl
  completed_as-result id v (ok tt, jobs) = refl

  finish_succeeds :
      (now : Time) (id : Uuid) (result : Bytes) (confidence : Dict ℕ) (model : ModelTier) (cost : ℕ)
      (v : World)
      → f.complete_job ≡ none
      → (finish sv w f now id result confidence model cost v).result ≡ ok tt
  unfolding finish
  finish_succeeds now id result confidence model cost v c =
      completed_as-result id v
        (complete f.complete_job id (sv.jsonb result) confidence model cost now v.jobs)
      ∙ complete_succeeds f.complete_job id (sv.jsonb result) confidence model cost now v.jobs c

  finish_row :
      (now : Time) (id : Uuid) (result : Bytes) (confidence : Dict ℕ) (model : ModelTier) (cost : ℕ)
      (v : World) (row : Job)
      → f.complete_job ≡ none
      → find id v.jobs ≡ some row
      → find id (finish sv w f now id result confidence model cost v).world.jobs
        ≡ some (as_completed (sv.jsonb result) confidence model cost now row)
  finish_row now id result confidence model cost v row c there =
      (finish_ok now id result confidence model cost v
          (finish_succeeds now id result confidence model cost v c)).1
        row there

  -- A run whose result is in the cache completes the job with it, at no cost.
  hits :
      (now : Clock) (job row : Job) (world : World) (content result : Bytes)
      → f.get_cache ≡ none
      → f.complete_job ≡ none
      → document_of sv job ≡ ok content
      → Cache.get none now.of_get (key_of sv job content) world.cache ≡ ok result
      → find job.id world.jobs ≡ some row
      → find job.id (process_job sv w f now job world).world.jobs
        ≡ some (as_completed (sv.jsonb result) (("_cache_hit", 100) ∷ []) fast 0 now.of_end row)
  hits now job row world content result g c read got there =
      let hit = check_cache_hit now.of_get (key_of sv job content) result world.cache g got in
      ap (λ (out : Outcome). find job.id out.world.jobs)
        (process_job_hit now job world content result read hit)
      ∙ finish_row now.of_end job.id result (("_cache_hit", 100) ∷ []) fast 0 world row c there

  stores :
      (now : Clock) (later : Time) (job : Job) (world : World)
      → f.set_cache ≡ none
      → ((content : Bytes)
          → document_of sv job ≡ ok content
          → check_cache sv w f.get_cache now.of_get (key_of sv job content) world.cache ≡ none)
      → (w.cache_ttl ≢ 0 → later < now.of_set + w.cache_ttl)
      → (process_job sv w f now job world).result ≡ ok tt
      → IsStored sv job later world (process_job sv w f now job world)
  stores now later job world s miss live =
      process_job-ends sv w f now job world
        (λ out. out.result ≡ ok tt → IsStored sv job later world out) (λ e v l h. absurd cc)
        (λ content result confidence model cost v l read kept h.
          let (same, row) = finish_ok now.of_end job.id result confidence model cost v h in
          elim kept [
            | inl (hit, _) ↦ absurd (let m = miss content read in cc)
            | inr (_, entries, put) ↦
                let got =
                  put_cache-get now.of_set later (key_of sv job content) result entries s live in
                (
                  content,
                  result,
                  read,
                  rw (same, put) got,
                  λ r there.
                      let (j, t, o) = l.touches.there r there in
                      (
                        as_completed (sv.jsonb result) confidence model cost now.of_end j,
                        row j t,
                        refl,
                      ),
                )
          ])

-- Once a run has succeeded on a document that was not in the cache, and has stored its result
-- there, a run of any job in the table, of any tenant, with the same document and the same schema
-- completes its job with the same result, by the fast tier and at no cost. The result has not
-- expired when the second run asks for it, and neither the cache nor `Complete` fails in the second run.
pub process_job-reuse :
    (sv : Services) (w : Worker) (f g : Faults) (now later : Clock) (job again row : Job)
    (world : World)
    → f.set_cache ≡ none
    → ((content : Bytes)
        → document_of sv job ≡ ok content
        → check_cache sv w f.get_cache now.of_get (key_of sv job content) world.cache ≡ none)
    → (w.cache_ttl ≢ 0 → later.of_get < now.of_set + w.cache_ttl)
    → (process_job sv w f now job world).result ≡ ok tt
    → find job.id world.jobs ≢ none
    → g.get_cache ≡ none
    → g.complete_job ≡ none
    → document_of sv again ≡ document_of sv job
    → again.schema ≡ job.schema
    → find again.id (process_job sv w f now job world).world.jobs ≡ some row
    → (first : Job) × (result : Bytes) × (find job.id (process_job sv w f now job world).world.jobs
        ≡ some first)
      × (first.result ≡ some result)
      × (find again.id
            (process_job sv w g later again (process_job sv w f now job world).world).world.jobs
          ≡ some (as_completed result (("_cache_hit", 100) ∷ []) fast 0 later.of_end row))
process_job-reuse sv w f g now later job again row world s miss live success there gc cc' doc schema
      again_there =
    let (content, result, read, got, stored) =
      stores sv w f now later.of_get job world s miss live success in
    elim (Option-cases (find job.id world.jobs)) [
      | inl e ↦ absurd (there e)
      | inr (r, e) ↦
          let (j, k, res) = stored r e in
          (
            j,
            sv.jsonb result,
            k,
            res,
            hits sv w g later again row _ content result gc cc' (doc ∙ read)
                (ap
                    (λ x.
                      Cache.get none later.of_get (content_hash sv.sum content x)
                        (process_job sv w f now job world).world.cache)
                    schema
                  ∙ got)
                again_there,
          )
    ]
