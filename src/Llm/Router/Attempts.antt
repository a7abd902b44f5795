-- ===== src/Llm/Router/Attempts.antt =====
-- The retry loop of `Extract` in internal/llm/router.go: which calls it makes, and when it succeeds.
use docpulse.Base.{ℕ, zero, suc, ◌+◌, ◌<◌, ◌≡◌, refl, ap, List, [], ◌∷◌, arith, String}
use native.Mathlib.Nat.{add-zero}
use docpulse.Base.Int.{rounds_to}
use docpulse.Base.Result.{ok, IsError, error_of}
use docpulse.Domain.{ModelTier, fast, strong}
use docpulse.Json.{Codec}
use docpulse.Llm.Router.{
  Router, ExtractionRequest, ExtractionResponse, Client, model_for_tier, escalated, select_tier,
  attempt, extract_loop, extract,
}

-- The tier of round `i` of the loop that starts at the given tier.
abbrev pub tier_at : ModelTier → ℕ → ModelTier
tier_at tier zero = tier
tier_at tier (suc i) = strong

abbrev pub models_called : Router → ModelTier → ℕ → List String
models_called r tier zero = []
models_called r tier (suc i) = model_for_tier r tier ∷ models_called r strong i

escalated_strong : (tier : ModelTier) → escalated tier ≡ strong
escalated_strong fast = refl
escalated_strong strong = refl

tier_at_strong : (i : ℕ) → tier_at strong i ≡ strong
tier_at_strong zero = refl
tier_at_strong (suc i) = refl

shift : (n i : ℕ) → n + 1 + i ≡ n + suc i
shift n i = omega arith

module _ (json : Codec) (quote : String → String) (chat : Client) (r : Router) where
  -- The loop's rounds before `i` fail.
  abbrev pub FailsBefore : ℕ → ModelTier → ExtractionRequest → ℕ → Type 0
  FailsBefore n tier req zero = Unit
  FailsBefore n tier req (suc i) =
      IsError (attempt json quote chat r n tier req) × FailsBefore (n + 1) strong req i

  loop_found :
      (k n i : ℕ) (tier : ModelTier) (req : ExtractionRequest) (last : String)
      (resp : ExtractionResponse)
      → i < k
      → FailsBefore n tier req i
      → attempt json quote chat r (n + i) (tier_at tier i) req ≡ ok resp
      → extract_loop json quote chat r k n tier req last ≡ (ok resp, models_called r tier (suc i))
  unfolding extract_loop
  loop_found zero n i tier req last resp h f e = absurd (omega arith)
  loop_found (suc k) n zero tier req last resp h f e =
      let now : attempt json quote chat r n tier req ≡ ok resp = rw add-zero at e in
      rw (now, extract_loop)
  loop_found (suc k) n (suc i) tier req last resp h (failed, f) e =
      let (why, now) = error_of _ failed in
      let later =
        loop_found k (n + 1) i strong req why resp (omega arith) f
          (rw (shift n i, tier_at_strong i) e) in
      rw (now, extract_loop, escalated_strong tier, later)

  loop_exhausted :
      (k n : ℕ) (tier : ModelTier) (req : ExtractionRequest) (last : String)
      → FailsBefore n tier req k
      → IsError (extract_loop json quote chat r k n tier req last).0
        × ((extract_loop json quote chat r k n tier req last).1 ≡ models_called r tier k)
  unfolding extract_loop
  loop_exhausted zero n tier req last f = (tt, refl)
  loop_exhausted (suc k) n tier req last (failed, f) =
      let (why, now) = error_of _ failed in
      let (wrong, models) = loop_exhausted k (n + 1) strong req why f in
      rw (now, extract_loop, escalated_strong tier)
        (wrong, ap (λ ms. model_for_tier r tier ∷ ms) models)

  -- The first attempt that succeeds decides: if the rounds before round `i` fail and round `i`
  -- returns a response, `Extract` returns that response, and has called the model of the selected
  -- tier once and then, at every retry, the strong model.
  pub extract_first :
      (n i : ℕ) (req : ExtractionRequest) (resp : ExtractionResponse)
      → i < rounds_to r.max_retries
      → FailsBefore n (select_tier json quote chat r req) req i
      → attempt json quote chat r (n + i) (tier_at (select_tier json quote chat r req) i) req
        ≡ ok resp
      → extract json quote chat r n req
        ≡ (ok resp, models_called r (select_tier json quote chat r req) (suc i))
  unfolding extract
  extract_first n i req resp h f e =
      loop_found (rounds_to r.max_retries) n i (select_tier json quote chat r req) req _ resp h f e

  -- If all rounds fail, `Extract` returns an error, after one call for each round: one more than
  -- `maxRetries`, or none where that is negative.
  pub extract_exhausted :
      (n : ℕ) (req : ExtractionRequest)
      → FailsBefore n (select_tier json quote chat r req) req (rounds_to r.max_retries)
      → IsError (extract json quote chat r n req).0
        × ((extract json quote chat r n req).1
            ≡ models_called r (select_tier json quote chat r req) (rounds_to r.max_retries))
  unfolding extract
  extract_exhausted n req f =
      loop_exhausted (rounds_to r.max_retries) n (select_tier json quote chat r req) req _ f
