-- ===== src/Llm/Router.antt =====
-- internal/llm/router.go. The OpenAI client is a parameter: `chat n request` is what call number `n`
-- of the process returns, so that one request may fail now and succeed later. Log lines are left
-- out. `quote` is the `%q` of package fmt.
pub mod Attempts
pub mod Validate
mod Tests
use text.Mathlib.Text.{◌==◌ as str_eq}
use Prim.Native.String
use docpulse.Base.{
  ℕ, zero, suc, ◌+◌, Bool, true, false, ◌||◌, Option, none, some, List, [], ◌∷◌, ◌++◌, String, ltb,
  if◌then◌else◌, length,
}
use docpulse.Base.Dict.{lookup}
use docpulse.Base.Int.{ℤ, below, rounds_to, decimal, decimal_next}
use docpulse.Base.Result.{Result, ok, err, ◌>>=◌, ◌>>◌, wrap}
use docpulse.Text.Utf8.{Bytes, str, utf8}
use docpulse.Domain.{ModelTier, fast, strong}
use docpulse.Json.{Value, string, Object, Codec, as_object, as_text, as_array}

pub record Router : Type 0 where
  pub fast_model : String
  pub strong_model : String
  pub max_retries : ℤ
  pub complexity_threshold : ℤ

pub record ExtractionRequest : Type 0 where
  pub chunk_text : Bytes
  pub schema : Bytes
  pub chunk_index : ℕ
  pub total_chunks : ℕ

pub record ExtractionResponse : Type 0 where
  pub fields : Object
  pub raw_json : Bytes
  pub model_used : ModelTier
  pub tokens_in : ℕ
  pub tokens_out : ℕ

-- The parts of the client's request that vary; the format is a JSON object, the temperature 0.
pub record ChatRequest : Type 0 where
  pub model : String
  pub system_prompt : Bytes
  pub user_prompt : Bytes

pub record ChatResponse : Type 0 where
  pub choices : List Bytes
  pub prompt_tokens : ℕ
  pub completion_tokens : ℕ

abbrev pub Client : Type 0
Client = ℕ → ChatRequest → Result ChatResponse

pub build_system_prompt : Bytes → ℕ → ℕ → Bytes
build_system_prompt schema index total =
    str
      "You are a document data extraction engine. Your task is to extract structured data from the provided document text according to the specified schema.\n\n"
    ++ str "RULES:\n"
    ++ str "1. Return ONLY a JSON object matching the schema below.\n"
    ++ str "2. If a field's value is not found in the text, set it to null.\n"
    ++ str "3. Do not invent or hallucinate values. Only extract what is explicitly stated.\n"
    ++ str "4. For arrays, include all matching items found in the text.\n"
    ++ str "5. Maintain exact values — do not paraphrase names, numbers, or dates.\n\n"
    ++ (if ltb 1 total then note else [])
    ++ str "EXTRACTION SCHEMA:\n"
    ++ schema
    ++ str "\n"
  where
    note : Bytes
    note =
        str "NOTE: This is chunk "
        ++ str (decimal (index + 1))
        ++ str " of "
        ++ str (decimal total)
        ++ str
            " from a larger document. Extract whatever matching data appears in this chunk. Fields not present in this chunk should be null.\n\n"

pub build_user_prompt : Bytes → Bytes
build_user_prompt text = str "DOCUMENT TEXT:\n\n" ++ text

-- `s["properties"].(map[string]interface{})` of a schema that decodes.
abbrev schema_properties : Result Object → Option Object
schema_properties (err e) = none
schema_properties (ok s) = as_object (lookup "properties" s)

abbrev size : Option Object → ℕ
size none = 0
size (some props) = length props

abbrev is_nested_type : Option String → Bool
is_nested_type none = false
is_nested_type (some t) = str_eq t "array" || str_eq t "object"

abbrev is_nested : Option Object → Bool
is_nested none = false
is_nested (some prop) = is_nested_type (as_text (lookup "type" prop))

any_nested : Object → Bool
any_nested [] = false
any_nested ((k, v) ∷ props) = is_nested (as_object (some v)) || any_nested props

abbrev nested_in : Option Object → Bool
nested_in none = false
nested_in (some props) = any_nested props

-- The loop over `required`; an entry that is no text is skipped.
required_present : (String → String) → Object → List Value → Result (Unit {0})
required_present quote result [] = ok tt
required_present quote result (string name ∷ names) = elim (lookup name result) [
  | none ↦ err (String.◌++◌ "required field " (String.◌++◌ (quote name) " missing from response"))
  | some _ ↦ required_present quote result names
]
required_present quote result (_ ∷ names) = required_present quote result names

abbrev pub required_names : Object → List Value
required_names schema = elim (as_array (lookup "required" schema)) [ none ↦ [] | some vs ↦ vs ]

abbrev pub model_for_tier : Router → ModelTier → String
model_for_tier r strong = r.strong_model
model_for_tier r fast = r.fast_model

abbrev pub escalated : ModelTier → ModelTier
escalated fast = strong
escalated strong = strong

module _ (json : Codec) (quote : String → String) (chat : Client) (r : Router) where
  pub count_schema_fields : Bytes → ℕ
  count_schema_fields schema = size (schema_properties (json.unmarshal_object schema))

  pub has_nested_structures : Bytes → Bool
  has_nested_structures schema = nested_in (schema_properties (json.unmarshal_object schema))

  pub select_tier : ExtractionRequest → ModelTier
  select_tier req =
      if below r.complexity_threshold (count_schema_fields req.schema)
      then strong
      else if ltb 3000 (length req.chunk_text)
      then strong
      else if has_nested_structures req.schema
      then strong
      else fast

  first_choice : List Bytes → Result Bytes
  first_choice [] = err "empty response from model"
  first_choice (c ∷ cs) = ok c

  chat_request : String → ExtractionRequest → ChatRequest
  chat_request model req = record {
    model = model;
    system_prompt = build_system_prompt req.schema req.chunk_index req.total_chunks;
    user_prompt = build_user_prompt req.chunk_text;
  }

  -- `model_used` is set by `extract`.
  pub call_llm : ℕ → String → ExtractionRequest → Result ExtractionResponse
  call_llm n model req = do
    resp ← wrap "OpenAI API call failed" (chat n (chat_request model req))
    raw ← first_choice resp.choices
    fields ← wrap "response is not valid JSON" (json.unmarshal_object raw)
    ok (record {
      fields = fields;
      raw_json = raw;
      model_used = fast;
      tokens_in = resp.prompt_tokens;
      tokens_out = resp.completion_tokens;
    })

  check_required : Object → Result Object → Result (Unit {0})
  check_required result (err e) = ok tt
  check_required result (ok schema) = required_present quote result (required_names schema)

  pub validate_response : Bytes → Bytes → Result (Unit {0})
  validate_response raw schema = do
    result ← wrap "response is not a JSON object" (json.unmarshal_object raw)
    check_required result (json.unmarshal_object schema)

  -- One round of the loop of `Extract`, by the tier's model, as call number `n`.
  pub attempt : ℕ → ModelTier → ExtractionRequest → Result ExtractionResponse
  attempt n tier req = do
    resp ← call_llm n (model_for_tier r tier) req
    validate_response resp.raw_json req.schema
    ok (record resp { model_used = tier })

  -- The response or error, and the models called.
  extract_loop :
      ℕ → ℕ → ModelTier → ExtractionRequest → String → Result ExtractionResponse × List String
  extract_loop zero n tier req last = (
    err (
        String.◌++◌ "extraction failed after "
          (String.◌++◌ (decimal_next r.max_retries) (String.◌++◌ " attempts: " last))),
    [],
  )
  extract_loop (suc k) n tier req last = elim (attempt n tier req) [
    | ok resp ↦ (ok resp, model_for_tier r tier ∷ [])
    | err e ↦
        let (result, models) = extract_loop k (n + 1) (escalated tier) req e in
        (result, model_for_tier r tier ∷ models)
  ]

  -- `%!w(<nil>)` is how fmt prints the error of a loop with no round.
  pub extract : ℕ → ExtractionRequest → Result ExtractionResponse × List String
  extract n req = extract_loop (rounds_to r.max_retries) n (select_tier req) req "%!w(<nil>)"

-- Opens the module, for tests.
unfoldable pub model_router : Unit {0}
unfolding utf8 lookup build_system_prompt build_user_prompt any_nested required_present
    count_schema_fields has_nested_structures select_tier first_choice chat_request call_llm
    check_required validate_response attempt extract_loop extract
model_router = tt
