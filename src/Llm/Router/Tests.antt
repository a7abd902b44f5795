-- ===== src/Llm/Router/Tests.antt =====
-- Runs of the router: the first call fails, and a later one answers the required field.
use docpulse.Base.{◌≡◌, refl, [], ◌∷◌, String, arith, ltb, if◌then◌else◌}
use docpulse.Base.Int.{pos}
use docpulse.Base.Result.{ok, err, IsError}
use docpulse.Domain.{strong}
use docpulse.Json.{string, arr, cons, nil, Object, Codec}
use docpulse.Llm.Router.{
  Router, Client, ExtractionRequest, ExtractionResponse, ChatResponse, select_tier, extract,
  model_router,
}
use docpulse.Llm.Router.Attempts.{models_called, extract_first, extract_exhausted}
use docpulse.Llm.Router.Validate.{IsAccepted, extract-IsAccepted}

-- Every text decodes to an object that is a schema and a response at once.
abbrev both : Object
both = ("required", arr (cons (string "name") nil)) ∷ ("name", string "Ann") ∷ []

abbrev json : Codec
json = record { unmarshal_object = λ b. ok both; marshal_object = λ o. ok [] }

abbrev quote : String → String
quote s = s

abbrev answer : ChatResponse
answer = record { choices = [] ∷ []; prompt_tokens = 9; completion_tokens = 3 }

abbrev second_time : Client
second_time n req = if ltb n 1 then err "timeout" else ok answer

abbrev dead : Client
dead n req = err "timeout"

abbrev router : Router
router = record {
  fast_model = "small";
  strong_model = "large";
  max_retries = pos 2;
  complexity_threshold = pos 10;
}

abbrev request : ExtractionRequest
request = record { chunk_text = 65 ∷ []; schema = []; chunk_index = 0; total_chunks = 1 }

abbrev response : ExtractionResponse
response = record {
  fields = both;
  raw_json = [];
  model_used = strong;
  tokens_in = 9;
  tokens_out = 3;
}

extract_second :
    extract json quote second_time router 0 request ≡ (ok response, "small" ∷ "large" ∷ [])
unfolding model_router
extract_second = refl

extract_first_example :
    extract json quote second_time router 0 request
    ≡ (ok response, models_called router (select_tier json quote second_time router request) 2)
unfolding model_router
extract_first_example =
    extract_first json quote second_time router 0 1 request response (omega arith) (tt, tt) refl

extract_exhausted_example :
    IsError (extract json quote dead router 0 request).0
    × ((extract json quote dead router 0 request).1
        ≡ models_called router (select_tier json quote dead router request) 3)
unfolding model_router
extract_exhausted_example = extract_exhausted json quote dead router 0 request (tt, (tt, (tt, tt)))

extract-IsAccepted_example : IsAccepted json quote second_time router request response
unfolding model_router
extract-IsAccepted_example =
    extract-IsAccepted json quote second_time router 0 request response refl
