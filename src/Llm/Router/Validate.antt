-- ===== src/Llm/Router/Validate.antt =====
-- What a returned response satisfies, and which tier is selected, in internal/llm/router.go.
use docpulse.Base.{
  ℕ, zero, suc, ◌+◌, ◌≤◌, ◌≡◌, ◌≢◌, ◌↔◌, refl, ◌∙◌, subst, false, inl, inr, Option-cases, none,
  List, [], ◌∷◌, arith, String, length, All,
}
use docpulse.Base.Dict.{lookup}
use docpulse.Base.Int.{below, rounds_to}
use docpulse.Base.Result.{Result, ok, err, Result-cases, ok-injective}
use docpulse.Text.Utf8.{Bytes}
use docpulse.Domain.{ModelTier, fast}
use docpulse.Json.{Value, string, Object, Codec}
use docpulse.Llm.Router.{
  Router, ExtractionRequest, ExtractionResponse, Client, model_for_tier, escalated, select_tier,
  required_present, required_names, check_required, validate_response, attempt, call_llm,
  first_choice, extract_loop, extract, count_schema_fields, has_nested_structures,
}

-- Each name among the required ones is a key of the object.
abbrev pub HasField : Object → Value → Type 0
HasField result (string name) = lookup name result ≢ none
HasField result _ = Unit

required_present_iff :
    (quote : String → String) (result : Object) (names : List Value)
    → (required_present quote result names ≡ ok tt) ↔ All (HasField result) names
unfolding required_present
required_present_iff quote result [] = (λ _. tt, λ _. refl)
required_present_iff quote result (string name ∷ names) =
    let (to, from) = required_present_iff quote result names in
    elim (Option-cases (lookup name result)) [
      | inl missing ↦ rw (missing, required_present) ((λ h. cc), λ h. absurd (h.0 refl))
      | inr (v, found) ↦ rw (found, required_present) ((λ h. ((λ e. cc), to h)), λ h. from h.1)
    ]
required_present_iff quote result (v ∷ names) =
    let (to, from) = required_present_iff quote result names in ((λ h. (tt, to h)), λ h. from h.1)

module _ (json : Codec) (quote : String → String) (chat : Client) (r : Router) where
  check_required_iff :
      (result : Object) (m : Result Object)
      → (check_required json quote chat r result m ≡ ok tt)
        ↔ ((s : Object) → m ≡ ok s → All (HasField result) (required_names s))
  unfolding check_required
  check_required_iff result (err e) = ((λ _ s h. cc), λ _. refl)
  check_required_iff result (ok s) =
      let (to, from) = required_present_iff quote result (required_names s) in
      (
        (λ h s' e. subst (λ x. All (HasField result) (required_names x)) (ok-injective e) (to h)),
        (λ f. from (f s refl)),
      )

  -- A response passes exactly if it decodes to an object and, where the schema decodes too, the
  -- object has each field that the schema requires by name.
  pub validate_response_iff :
      (raw schema : Bytes) (result : Object)
      → json.unmarshal_object raw ≡ ok result
      → (validate_response json quote chat r raw schema ≡ ok tt) ↔ (
          (s : Object)
          → json.unmarshal_object schema ≡ ok s
          → All (HasField result) (required_names s))
  unfolding validate_response
  validate_response_iff raw schema result decoded =
      rw decoded (check_required_iff result (json.unmarshal_object schema))

  -- What a response that `Extract` returns has passed.
  pub record IsAccepted (req : ExtractionRequest) (resp : ExtractionResponse) : Type 0 where
    pub decoded : json.unmarshal_object resp.raw_json ≡ ok resp.fields
    pub complete :
        (s : Object)
        → json.unmarshal_object req.schema ≡ ok s
        → All (HasField resp.fields) (required_names s)

  call_llm_decoded :
      (n : ℕ) (model : String) (req : ExtractionRequest) (resp : ExtractionResponse)
      → call_llm json quote chat r n model req ≡ ok resp
      → json.unmarshal_object resp.raw_json ≡ ok resp.fields
  unfolding call_llm first_choice
  call_llm_decoded n model req resp e = ground arith

  attempt-IsAccepted :
      (n : ℕ) (tier : ModelTier) (req : ExtractionRequest) (resp : ExtractionResponse)
      → attempt json quote chat r n tier req ≡ ok resp
      → IsAccepted req resp
  unfolding attempt
  attempt-IsAccepted n tier req resp e =
      elim (Result-cases (call_llm json quote chat r n (model_for_tier r tier) req)) [
        | inl (raw, called) ↦
            elim (Result-cases (validate_response json quote chat r raw.raw_json req.schema)) [
              | inl (u, valid) ↦
                  let same : ok (record raw { model_used = tier }) ≡ ok resp = ground arith in
                  let decoded = call_llm_decoded n (model_for_tier r tier) req raw called in
                  subst (IsAccepted req) (ok-injective same) (record {
                    decoded = decoded;
                    complete =
                        (validate_response_iff raw.raw_json req.schema raw.fields decoded).0 valid;
                  })
              | inr (why, invalid) ↦ absurd (ground arith)
            ]
        | inr (why, failed) ↦ absurd (ground arith)
      ]

  loop-IsAccepted :
      (k n : ℕ) (tier : ModelTier) (req : ExtractionRequest) (last : String)
      (resp : ExtractionResponse)
      → (extract_loop json quote chat r k n tier req last).0 ≡ ok resp
      → IsAccepted req resp
  unfolding extract_loop
  loop-IsAccepted zero n tier req last resp e = cc
  loop-IsAccepted (suc k) n tier req last resp e =
      elim (Result-cases (attempt json quote chat r n tier req)) [
        | inl (got, now) ↦ attempt-IsAccepted n tier req resp (now ∙ (rw (now, extract_loop) at e))
        | inr (why, now) ↦
            loop-IsAccepted k (n + 1) (escalated tier) req why resp (rw (now, extract_loop) at e)
      ]

  -- A response that `Extract` returns has the fields of the object that its text decodes to, and,
  -- where the schema decodes too, every field that the schema requires by name, whichever attempt
  -- it came from.
  pub extract-IsAccepted :
      (n : ℕ) (req : ExtractionRequest) (resp : ExtractionResponse)
      → (extract json quote chat r n req).0 ≡ ok resp
      → IsAccepted req resp
  unfolding extract
  extract-IsAccepted n req resp e = loop-IsAccepted (rounds_to r.max_retries) n _ req _ resp e

  -- The fast model is selected exactly for a schema with at most as many properties as the
  -- threshold, none of them an array or an object, and a text of at most 3000 bytes.
  pub select_tier-fast_iff :
      (req : ExtractionRequest)
      → (select_tier json quote chat r req ≡ fast) ↔ (
          (below r.complexity_threshold (count_schema_fields json quote chat r req.schema) ≡ false)
          × (length req.chunk_text ≤ 3000)
          × (has_nested_structures json quote chat r req.schema ≡ false))
  unfolding select_tier
  select_tier-fast_iff req = ground arith
