-- ===== src/Client/Completions.antt =====
-- src/memoryos_lite/curator/llm.py, `ChatCuratorLLM.complete_json`: what it returns or raises, and
-- what it leaves in `last_usage`.
use memry_os_lite.Prelude.{◌≡◌, refl, Text, Option-cases, Option, none, some, inl, inr}
use memry_os_lite.Json.{Json, obj, Fields}
use memry_os_lite.Curate.Loop.{Answer, value, schema_error, llm_error}
use memry_os_lite.Client.{
  Failure, ChatMessage, LlmUsage, Provider, usage_from_result, message_text, extract_json_object,
  Completed, answer_of, complete_json,
}
use memry_os_lite.Client.Attempts.{IsTried, invoke-IsTried}
use memry_os_lite.Client.Prose.{IsFirstObject, extract_json_object-IsFirstObject}

module _ (raw_decode : Text → Option Json) where
  -- What is answered to a response.
  pub record IsAnswer (message : ChatMessage) (answer : Answer) : Type 0 where
    pub unreadable : message_text message.content ≡ none → answer ≡ schema_error
    pub object :
        (text : Text) (fs : Fields)
        → message_text message.content ≡ some text
        → IsFirstObject raw_decode text fs
        → answer ≡ value (obj fs)
    pub no_object :
        (text : Text)
        → message_text message.content ≡ some text
        → ((fs : Fields) → ¬ IsFirstObject raw_decode text fs)
        → answer ≡ schema_error

  -- What a call is, by what its last attempt gave.
  pub record IsCompleted (last_usage : Option LlmUsage) (provider : Provider) (c : Completed)
      : Type 0 where
    pub tried : IsTried provider 0 c.invoked
    pub failed :
        (failure : Failure)
        → provider tried.last ≡ inl failure
        → (c.answer ≡ some llm_error) × (c.last_usage ≡ last_usage)
    pub responded :
        (message : ChatMessage)
        → provider tried.last ≡ inr message
        → (answer : Answer) × (c.answer ≡ some answer)
          × IsAnswer message answer
          × (c.last_usage ≡ usage_from_result message)

  answer_of-IsAnswer : (message : ChatMessage) → IsAnswer message (answer_of raw_decode message)
  unfolding answer_of
  answer_of-IsAnswer message = record {
    unreadable = λ e. rw (e, answer_of) refl;
    object = λ text fs e f.
        rw (e, answer_of, (extract_json_object-IsFirstObject raw_decode text fs).1 f) refl;
    no_object = λ text e no. elim (Option-cases (extract_json_object raw_decode text)) [
      | inl n ↦ rw (e, answer_of, n) refl
      | inr (fs, s) ↦ absurd (no fs ((extract_json_object-IsFirstObject raw_decode text fs).0 s))
    ];
  }

  -- A call of the client makes the attempts of `_invoke`, at most three. If the last of them failed,
  -- it raises `CuratorLLMError`, and `last_usage` is still what it was before the call. If it gave a
  -- response, `last_usage` is what the response reports (`None` if it reports nothing), and the call
  -- returns the first object of its text, or raises `CuratorSchemaError` if the content is no text
  -- or the text has no object. It does nothing else.
  pub complete_json-IsCompleted :
      (last_usage : Option LlmUsage) (provider : Provider)
      → IsCompleted last_usage provider (complete_json raw_decode last_usage provider)
  unfolding complete_json
  complete_json-IsCompleted last_usage provider =
      let t = invoke-IsTried provider in
      record {
        tried = t;
        failed = λ failure e. rw (t.result_eq, e, complete_json) (refl, refl);
        responded = λ message e. (
          answer_of raw_decode message,
          rw (t.result_eq, e, complete_json) refl,
          answer_of-IsAnswer message,
          rw (t.result_eq, e, complete_json) refl,
        );
      }
