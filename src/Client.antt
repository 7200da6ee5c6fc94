-- ===== src/Client.antt =====
-- src/memoryos_lite/curator/llm.py: `ChatCuratorLLM` and what it calls, with `message_text` of
-- src/memoryos_lite/chat_models.py. The provider is a parameter, and so is
-- `JSONDecoder.raw_decode`, without the position at which it ends. Times of attempts and the log are
-- not modelled. The numbers of tokens that a provider reports are natural numbers.
pub mod Attempts
pub mod Prose
pub mod Completions
pub mod Requests
use memry_os_lite.Prelude.{
  ℕ, zero, suc, ◌+◌, Text, codes, teq, Bool, true, false, ◌&&◌, ◌||◌, ◌==◌, ltb, leb, if◌then◌else◌,
  Option, none, some, bind, or_else, is_some, not, ◌⊎◌, inl, inr, List, [], ◌∷◌, ◌++◌, Dict, get,
}
use memry_os_lite.Json.{Json, str, arr, obj, Fields, get_field, as_str, as_obj, items}
use memry_os_lite.Curate.Loop.{Answer, Prompt, Llm, value, schema_error, llm_error}
use memry_os_lite.Curate.Usage.{Outcome, ok, timeout, error}

-- What a provider reports under a key: an `int` that is no `bool`, or anything else.
pub data Reported : Type 0 where
  tokens : ℕ → Reported
  other_value : Reported

-- What `usage_metadata`, `response_metadata` with its `token_usage`, and `content` of a response
-- are; `none` is a `usage_metadata` or `token_usage` that is no `dict`, or is missing.
pub record ChatMessage : Type 0 where
  pub usage_metadata : Option (Dict Reported)
  pub token_usage : Option (Dict Reported)
  pub content : Json

pub record LlmUsage : Type 0 where
  pub prompt_tokens : Option ℕ
  pub completion_tokens : Option ℕ
  pub total_tokens : Option ℕ

pub record LlmAttempt : Type 0 where
  pub outcome : Outcome
  pub usage : Option LlmUsage

-- `as_int`
unfoldable pub as_int : Dict Reported → List Text → Option ℕ
unfolding get
as_int payload [] = none
as_int payload (key ∷ keys) =
    let rest = as_int payload keys in
    elim (get payload key) [ some (tokens n) ↦ some n | some other_value ↦ rest | none ↦ rest ]

-- `usage`, or `None` when all its values are
unfoldable pub usage_of_payload : Dict Reported → Option LlmUsage
unfolding as_int
usage_of_payload payload =
    let prompt = as_int payload (codes "input_tokens" ∷ codes "prompt_tokens" ∷ []) in
    let completion = as_int payload (codes "output_tokens" ∷ codes "completion_tokens" ∷ []) in
    let total = as_int payload (codes "total_tokens" ∷ []) in
    if not (is_some prompt) && not (is_some completion) && not (is_some total)
    then none
    else some
        (record { prompt_tokens = prompt; completion_tokens = completion; total_tokens = total })

-- `_usage_from_result`
unfoldable pub usage_from_result : ChatMessage → Option LlmUsage
unfolding usage_of_payload
usage_from_result message = elim message.usage_metadata [
  | some payload ↦ usage_of_payload payload
  | none ↦ bind message.token_usage usage_of_payload
]

-- A value that a set can be asked for; for another one Python raises `TypeError`.
unfoldable pub is_hashable : Json → Bool
is_hashable (arr js) = false
is_hashable (obj fs) = false
is_hashable _ = true

unfoldable pub is_text_kind : Json → Bool
is_text_kind (str s) = teq s (codes "text") || teq s (codes "output_text")
is_text_kind _ = false

-- What a content block adds to the text; `none` is `TypeError`.
unfoldable pub part_of : Json → Option Text
unfolding is_hashable is_text_kind
part_of (str s) = some s
part_of (obj fs) =
    let kind = get_field (codes "type") fs in
    if is_hashable kind
    then some (if is_text_kind kind then or_else (as_str (get_field (codes "text") fs)) [] else [])
    else none
part_of _ = some []

unfoldable pub join_parts : List Json → Option Text
unfolding part_of
join_parts [] = some []
join_parts (b ∷ bs) =
    let rest = join_parts bs in bind (part_of b) (λ part. bind rest (λ parts. some (part ++ parts)))

-- `message_text`; `none` is `TypeError`
unfoldable pub message_text : Json → Option Text
unfolding join_parts
message_text (str s) = some s
message_text (arr js) = join_parts (items js)
message_text _ = none

abbrev pub brace : ℕ
brace = 123

-- The object that starts a text behind `{`.
unfoldable pub object_at : (Text → Option Json) → Text → Option Fields
object_at raw_decode [] = none
object_at raw_decode (c ∷ cs) = if c == brace then bind (raw_decode (c ∷ cs)) as_obj else none

-- `extract_json_object`: the loop over the positions of `{`; `none` is `CuratorSchemaError`
unfoldable pub extract_json_object : (Text → Option Json) → Text → Option Fields
unfolding object_at
extract_json_object raw_decode [] = none
extract_json_object raw_decode (c ∷ cs) =
    let rest = extract_json_object raw_decode cs in
    elim (object_at raw_decode (c ∷ cs)) [ some fs ↦ some fs | none ↦ rest ]

-- The exceptions that `_classify` tells apart; `APITimeoutError` is none of `connection`.
pub data Failure : Type 0 where
  timed_out connection : Failure
  status : ℕ → Failure
  other_failure : Failure

-- `_classify`
unfoldable pub classify : Failure → Outcome × Bool
classify timed_out = (timeout, false)
classify connection = (error, true)
classify (status code) = (error, code == 429 || leb 500 code)
classify other_failure = (error, false)

abbrev pub retries : ℕ
retries = 2

abbrev pub retry_backoff_s : List ℕ
retry_backoff_s = 1 ∷ 2 ∷ []

unfoldable pub backoff : ℕ → List ℕ → Option ℕ
backoff n [] = none
backoff zero (s ∷ ss) = some s
backoff (suc n) (s ∷ ss) = backoff n ss

-- What a provider does at each attempt of a call.
abbrev pub Provider : Type 0
Provider = ℕ → Failure ⊎ ChatMessage

-- `_attempt`: what is appended to the list that `record_attempts` opened
unfoldable pub attempt_of : Failure ⊎ ChatMessage → LlmAttempt
unfolding classify usage_from_result
attempt_of (inl failure) = record { outcome = (classify failure).0; usage = none }
attempt_of (inr message) = record { outcome = ok; usage = usage_from_result message }

-- The end of `_invoke`: the attempts, the seconds of the sleeps, and a response or the exception
-- behind `CuratorLLMError`; `none` is the end of the loop or an index out of range.
pub record Invoked : Type 0 where
  pub attempts : List LlmAttempt
  pub sleeps : List ℕ
  pub result : Option (Failure ⊎ ChatMessage)

-- The loop of `_invoke`: the attempts that are left, and the index of the next one.
unfoldable pub invoke_from : Provider → ℕ → ℕ → Invoked
unfolding attempt_of classify backoff
invoke_from provider zero k = record { attempts = []; sleeps = []; result = none }
invoke_from provider (suc left) k =
    let rest = invoke_from provider left (suc k) in
    let tried = attempt_of (provider k) in
    elim (provider k) [
      | inr message ↦ record { attempts = tried ∷ []; sleeps = []; result = some (inr message) }
      | inl failure ↦
          if (classify failure).1 && ltb k retries
          then elim (backoff k retry_backoff_s) [
            | none ↦ record { attempts = tried ∷ []; sleeps = []; result = none }
            | some s ↦ record {
              attempts = tried ∷ rest.attempts;
              sleeps = s ∷ rest.sleeps;
              result = rest.result;
            }
          ]
          else record { attempts = tried ∷ []; sleeps = []; result = some (inl failure) }
    ]

-- `_invoke`
unfoldable pub invoke : Provider → Invoked
unfolding invoke_from
invoke provider = invoke_from provider (suc retries) 0

-- What `complete_json` returns or raises, with `last_usage` behind it; `none` is neither a value nor
-- one of the two errors.
pub record Completed : Type 0 where
  pub answer : Option Answer
  pub last_usage : Option LlmUsage
  pub invoked : Invoked

-- What `complete_json` makes of a response.
unfoldable pub answer_of : (Text → Option Json) → ChatMessage → Answer
unfolding message_text extract_json_object
answer_of raw_decode message = elim (message_text message.content) [
  | none ↦ schema_error
  | some text ↦ elim (extract_json_object raw_decode text) [
    | none ↦ schema_error
    | some fs ↦ value (obj fs)
  ]
]

-- `complete_json`, with the `last_usage` before it
unfoldable pub complete_json : (Text → Option Json) → Option LlmUsage → Provider → Completed
unfolding invoke answer_of usage_from_result
complete_json raw_decode last_usage provider =
    let r = invoke provider in
    let out : Option Answer × Option LlmUsage = elim r.result [
      | none ↦ (none, last_usage)
      | some (inl failure) ↦ (some llm_error, last_usage)
      | some (inr message) ↦ (some (answer_of raw_decode message), usage_from_result message)
    ] in
    record { answer = out.0; last_usage = out.1; invoked = r }

-- The client as the LLM of a curate request: what the provider does may differ from one call to the
-- next, and with what is asked. An answer that is `none` would be an assertion that fails.
unfoldable pub client_llm : (Text → Option Json) → (ℕ → Prompt → Provider) → Llm
unfolding complete_json
client_llm raw_decode providers n prompt =
    or_else (complete_json raw_decode none (providers n prompt)).answer llm_error
