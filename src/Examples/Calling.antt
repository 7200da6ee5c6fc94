-- ===== src/Examples/Calling.antt =====
-- The client of the LLM at a concrete provider.
use memry_os_lite.Prelude.{
  ℕ, zero, suc, ◌≡◌, ◌↔◌, refl, arith, ◌<◌, Text, codes, teq, take, if◌then◌else◌, Option, none,
  some, [], ◌∷◌, inl, inr,
}
use memry_os_lite.Json.{Json, str, arr, obj, nil, item, Fields, field, items, get_field}
use memry_os_lite.Curate.Loop.{value, llm_error}
use memry_os_lite.Client.{
  ChatMessage, Provider, timed_out, connection, status, tokens, other_value, extract_json_object,
  classify, message_text, invoke, complete_json,
}
use memry_os_lite.Client.Attempts.{IsRetryable, IsTried, invoke-IsTried}
use memry_os_lite.Client.Prose.{IsFirstObject, extract_json_object-IsFirstObject}
use memry_os_lite.Client.Completions.{IsCompleted, complete_json-IsCompleted}
use memry_os_lite.Client.Requests.{IsResponsive}

-- A decoder that knows only the empty object.
abbrev decode : Text → Option Json
decode s = if teq (take 2 s) (codes "{}") then some (obj Fields.end) else none

abbrev reply : ChatMessage
reply = record {
  usage_metadata =
      some ((codes "input_tokens", tokens 7) ∷ (codes "output_tokens", other_value) ∷ []);
  token_usage = none;
  content = arr (
      item (str (codes "For {x}: ")) (
        item
          (obj (
            field (codes "type") (str (codes "text"))
              (field (codes "text") (str (codes "{} done")) Fields.end)))
          nil));
}

-- A provider that responds at its third attempt.
abbrev third_try : Provider
third_try zero = inl connection
third_try (suc zero) = inl (status 429)
third_try (suc (suc n)) = inr reply

-- A provider that has no time.
abbrev late : Provider
late n = inl timed_out

reply_text : message_text reply.content ≡ some (codes "For {x}: {} done")
unfolding message_text teq items get_field
reply_text = refl

third_pauses : (invoke third_try).sleeps ≡ 1 ∷ 2 ∷ []
unfolding invoke
third_pauses = refl

third_answer : (complete_json decode none third_try).answer ≡ some (value (obj Fields.end))
unfolding complete_json message_text extract_json_object invoke teq items get_field
third_answer = refl

late_once : (complete_json decode none late).answer ≡ some llm_error
unfolding complete_json invoke
late_once = refl

invoke-IsTried_example : IsTried third_try 0 (invoke third_try)
invoke-IsTried_example = invoke-IsTried third_try

extract_json_object-IsFirstObject_example :
    (extract_json_object decode (codes "For {x}: {} done") ≡ some Fields.end)
    ↔ IsFirstObject decode (codes "For {x}: {} done") Fields.end
extract_json_object-IsFirstObject_example =
    extract_json_object-IsFirstObject decode (codes "For {x}: {} done") Fields.end

complete_json-IsCompleted_example :
    IsCompleted decode none third_try (complete_json decode none third_try)
complete_json-IsCompleted_example = complete_json-IsCompleted decode none third_try

third_before : (i : ℕ) → i < 2 → IsRetryable (third_try i)
unfolding classify
third_before zero h = refl
third_before (suc zero) h = refl
third_before (suc (suc i)) h = absurd (omega (arith, h))

abbrev third_good : IsResponsive third_try
third_good = record {
  index = 2;
  message = reply;
  in_range = omega arith;
  response = refl;
  before = third_before;
}
