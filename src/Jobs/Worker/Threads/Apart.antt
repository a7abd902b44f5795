-- ===== src/Jobs/Worker/Threads/Apart.antt =====
-- Runs of different jobs.
use docpulse.Base.{◌≡◌, ◌≢◌, subst, List, [], ◌∷◌, ◌++◌, All}
use docpulse.Domain.{Uuid}
use docpulse.Jobs.Worker.Threads.{Thread}

abbrev pub Apart : Uuid → List Thread → Type 0
Apart id = All (λ t. t.job.id ≢ id)

abbrev pub AreApart : List Thread → Type 0
AreApart [] = Unit
AreApart (t ∷ ts) = Apart t.job.id ts × AreApart ts

module _ (P : Thread → Type 0) where
  pub All-swap :
      (before : List Thread) (t u : Thread) (after : List Thread)
      → (P t → P u)
      → All P (before ++ t ∷ after)
      → All P (before ++ u ∷ after)
  All-swap [] t u after f (p, h) = (f p, h)
  All-swap (x ∷ before) t u after f (p, h) = (p, All-swap before t u after f h)

pub AreApart-swap :
    (before : List Thread) (t u : Thread) (after : List Thread)
    → t.job.id ≡ u.job.id
    → AreApart (before ++ t ∷ after)
    → AreApart (before ++ u ∷ after)
AreApart-swap [] t u after e (a, h) = (subst (λ id. Apart id after) e a, h)
AreApart-swap (x ∷ before) t u after e (a, h) = (
  All-swap (λ v. v.job.id ≢ x.job.id) before t u after (subst (λ id. id ≢ x.job.id) e) a,
  AreApart-swap before t u after e h,
)
